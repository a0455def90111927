-- ===== src/Reconciler/Outcomes.antt =====
-- internal/reconciler/reconciler.go: what a pass is to make of each channel, and what it returns of it.
use tclaw.Base.{
  ◌≡◌, ap, String, Bool, not, ◌&&◌, Option, none, some, List, [], ◌∷◌, ◌++◌, if◌then◌else◌, Result,
  ok, err, AllPairs, lookup,
}
use tclaw.Config.{Channel}
use tclaw.Runtime.{Provisioner, ProvisionerLookup, ProvisionResult, RuntimeStates, state_key}
use tclaw.Reconciler.{
  ready, needs_setup, ReconciledChannel, ReconcileError, Pass, with_channel, with_call,
}

-- What becomes of a declared channel, by its platform alone.
pub data Outcome : Type 0 where
  has_all needs_user : Outcome
  attempted : Result String ProvisionResult → Outcome

abbrev pub by_platform : Bool → Channel → Option Provisioner → Outcome
by_platform skip ch none = has_all
by_platform skip ch (some p) =
    if p.is_ready ch.name
    then has_all
    else if p.can_auto_provision && not skip
    then attempted (p.provision ch.name ch.description)
    else needs_user

unfoldable pub outcome : Bool → ProvisionerLookup → Channel → Outcome
outcome skip provisioners ch = by_platform skip ch (provisioners ch.type)

abbrev pub named_attempt : Channel → Outcome → List String → List String
named_attempt ch has_all names = names
named_attempt ch needs_user names = names
named_attempt ch (attempted r) names = ch.name ∷ names

-- The channels that are to be provisioned: those of a platform that is not ready, and can provision
-- by itself, unless provisioning is withheld.
abbrev pub attempts : Bool → ProvisionerLookup → List Channel → List String
attempts skip provisioners [] = []
attempts skip provisioners (ch ∷ channels) =
    named_attempt ch (outcome skip provisioners ch) (attempts skip provisioners channels)

-- What is said of a channel, with the runtime states that the pass leaves behind.
abbrev pub Says : RuntimeStates → Outcome → ReconciledChannel → Type 0
Says states has_all rc = (rc.status ≡ ready) × (rc.provision_err ≡ none)
Says states needs_user rc = (rc.status ≡ needs_setup) × (rc.provision_err ≡ none)
Says states (attempted (err e)) rc = (rc.status ≡ needs_setup) × (rc.provision_err ≡ some e)
Says states (attempted (ok result)) rc =
    (rc.status ≡ ready)
    × (rc.provision_err ≡ none)
    × (rc.runtime_state.teardown_state ≡ result.teardown_state)
    × (rc.runtime_state.platform_state ≡ result.platform_state)
    × (lookup (state_key rc.config.name) states ≡ some rc.runtime_state)

abbrev pub Tells : Bool → ProvisionerLookup → RuntimeStates → Channel → ReconciledChannel → Type 0
Tells skip provisioners states ch rc =
    (rc.config ≡ ch) × Says states (outcome skip provisioners ch) rc

-- The results of a pass against the declared channels, if it ends without an error.
abbrev pub AllTold :
    Bool
    → ProvisionerLookup
    → List Channel
    → List String
    → RuntimeStates
    → Result ReconcileError (List ReconciledChannel)
    → Type 0
AllTold skip provisioners channels uncalled states (err e) = Unit
AllTold skip provisioners channels uncalled states (ok rcs) =
    (uncalled ≡ []) × AllPairs (Tells skip provisioners states) channels rcs

abbrev pub Converges : Bool → ProvisionerLookup → List Channel → Pass → Type 0
Converges skip provisioners channels (states, calls, r) =
    (uncalled : List String) × (attempts skip provisioners channels ≡ calls ++ uncalled)
    × AllTold skip provisioners channels uncalled states r

module _ (skip : Bool) (provisioners : ProvisionerLookup) (ch : Channel)
    (channels : List Channel) where
  -- A channel for which nothing is called.
  pub with_channel-Converges :
      (rc : ReconciledChannel) (pass : Pass)
      → named_attempt ch (outcome skip provisioners ch) (attempts skip provisioners channels)
        ≡ attempts skip provisioners channels
      → Tells skip provisioners pass.0 ch rc
      → Converges skip provisioners channels pass
      → Converges skip provisioners (ch ∷ channels) (with_channel rc pass)
  with_channel-Converges rc (states, calls, err e) quiet tells (uncalled, split, told) =
      (uncalled, rw quiet split, tt)
  with_channel-Converges rc (states, calls, ok rcs) quiet tells (uncalled, split, told) =
      (uncalled, rw quiet split, (told.0, (tells, told.1)))

  pub called-Converges :
      (rc : ReconciledChannel) (pass : Pass)
      → named_attempt ch (outcome skip provisioners ch) (attempts skip provisioners channels)
        ≡ ch.name ∷ attempts skip provisioners channels
      → Tells skip provisioners pass.0 ch rc
      → Converges skip provisioners channels pass
      → Converges skip provisioners (ch ∷ channels) (with_call ch.name (with_channel rc pass))
  called-Converges rc (states, calls, err e) loud tells (uncalled, split, told) =
      (uncalled, rw loud (ap (◌∷◌ ch.name) split), tt)
  called-Converges rc (states, calls, ok rcs) loud tells (uncalled, split, told) =
      (uncalled, rw loud (ap (◌∷◌ ch.name) split), (told.0, (tells, told.1)))
