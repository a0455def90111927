-- ===== src/Reconciler/Provisioning.antt =====
-- internal/reconciler/reconciler.go: which channels a pass provisions, and what it says of each.
use tclaw.Base.{
  ◌≡◌, refl, ap, ◌∙◌, String, Bool, true, false, Option, none, some, List, [], ◌∷◌, ◌++◌,
  if◌then◌else◌, Result, ok, err, arith, Bool-cases, Result-cases, inl, inr, lookup,
}
use tclaw.Base.Collections.{StoreError}
use tclaw.Config.{Channel}
use tclaw.Config.Scoping.{Unrepeated}
use tclaw.Runtime.{
  RuntimeState, RuntimeStates, Provisioner, ProvisionerLookup, ProvisionResult, get, update,
  state_key,
}
use tclaw.Reconciler.{
  ChannelStatus, ready, needs_setup, ReconcileError, Accesses, Pass, settled, provisioned, stored,
  after_provision, converge, at_read, reconcile, with_channel, with_call, store_state, reread_state,
}
use tclaw.Reconciler.Outcomes.{
  Outcome, has_all, needs_user, attempted, by_platform, outcome, named_attempt, attempts, Says,
  AllTold, Converges, with_channel-Converges, called-Converges,
}
use tclaw.Reconciler.Storing.{teardown_of, platform_of, get_of_update, reconcile-others}

module _ (skip : Bool) (provisioners : ProvisionerLookup) (a : Accesses) (ch : Channel)
    (channels : List Channel) (p : Provisioner)
    (loud : outcome skip provisioners ch ≡ attempted (p.provision ch.name ch.description)) where
  after_provision-Converges :
      (rs : RuntimeState) (later : RuntimeStates → Pass) (states : RuntimeStates)
      → ((s : RuntimeStates) → Converges skip provisioners channels (later s))
      → ((s : RuntimeStates)
          → lookup (state_key ch.name) (later s).0 ≡ lookup (state_key ch.name) s)
      → Converges skip provisioners (ch ∷ channels) (
          with_call ch.name
            (after_provision a ch rs later states (p.provision ch.name ch.description)))
  after_provision-Converges rs later states h keeps =
      elim (Result-cases (p.provision ch.name ch.description)) [
        | inr (e, bad) ↦
            let loud' : outcome skip provisioners ch ≡ attempted (err e) =
              loud ∙ ap attempted bad in
            rw bad (
              called-Converges skip provisioners ch channels
                (record (settled ch rs needs_setup) { provision_err = some e }) (later states)
                (rw loud' refl) (refl, rw loud' (refl, refl)) (h states))
        | inl (result, good) ↦
            let loud' : outcome skip provisioners ch ≡ attempted (ok result) =
              loud ∙ ap attempted good in
            rw good (
              by_stored result loud' (update a.write states ch.name (provisioned result))
                (λ s e. e))
      ]
    where
      cut :
          (result : ProvisionResult) (s : RuntimeStates) (e : ReconcileError)
          → outcome skip provisioners ch ≡ attempted (ok result)
          → Converges skip provisioners (ch ∷ channels) (with_call ch.name (s, [], err e))
      cut result s e loud' = (attempts skip provisioners channels, rw loud' refl, tt)

      by_stored :
          (result : ProvisionResult)
          → outcome skip provisioners ch ≡ attempted (ok result)
          → (q : RuntimeStates × Option StoreError)
          → ((s : RuntimeStates)
              → q ≡ (s, none)
              → update a.write states ch.name (provisioned result) ≡ (s, none))
          → Converges skip provisioners (ch ∷ channels) (with_call ch.name (stored a ch later q))
      by_stored result loud' (s, some e) k = cut result s (store_state e) loud'
      by_stored result loud' (s, none) k = elim (Result-cases (get a.second_read s ch.name)) [
        | inr (e, bad) ↦ rw bad (cut result s (reread_state e) loud')
        | inl (rs', good) ↦
            let back =
              get_of_update a.second_read a.write states s ch.name (provisioned result) rs'
                (k s refl) good in
            rw good (
              called-Converges skip provisioners ch channels (settled ch rs' ready) (later s)
                (rw loud' refl)
                (
                  refl,
                  rw loud' (
                    refl,
                    refl,
                    teardown_of result rs' back.1,
                    platform_of result rs' back.1,
                    keeps s ∙ back.0,
                  ),
                )
                (h s))
      ]

-- A channel for which nothing is called, by its outcome.
quiet-Converges :
    (skip : Bool) (provisioners : ProvisionerLookup) (ch : Channel) (channels : List Channel)
    (rs : RuntimeState) (status : ChannelStatus) (pass : Pass) (o : Outcome)
    → outcome skip provisioners ch ≡ o
    → named_attempt ch o (attempts skip provisioners channels) ≡ attempts skip provisioners channels
    → Says pass.0 o (settled ch rs status)
    → Converges skip provisioners channels pass
    → Converges skip provisioners (ch ∷ channels) (with_channel (settled ch rs status) pass)
quiet-Converges skip provisioners ch channels rs status pass o is silent says h =
    with_channel-Converges skip provisioners ch channels (settled ch rs status) pass (rw is silent)
      (refl, rw is says) h

by_platform-none : (skip : Bool) (ch : Channel) → by_platform skip ch none ≡ has_all
by_platform-none skip ch = refl

by_platform-skip :
    (skip : Bool) (ch : Channel) (p : Provisioner)
    → (p.is_ready ch.name ≡ true → by_platform skip ch (some p) ≡ has_all)
      × (p.is_ready ch.name ≡ false
          → p.can_auto_provision ≡ false
          → by_platform skip ch (some p) ≡ needs_user)
      × (p.is_ready ch.name ≡ false → skip ≡ true → by_platform skip ch (some p) ≡ needs_user)
      × (p.is_ready ch.name ≡ false
          → p.can_auto_provision ≡ true
          → skip ≡ false
          → by_platform skip ch (some p) ≡ attempted (p.provision ch.name ch.description))
by_platform-skip skip ch p = (
  λ a. rw a refl,
  λ a b. rw a (rw b refl),
  λ a b. rw a (ground (arith, b)),
  λ a b c. rw a (rw b (ground (arith, c))),
)

outcome_of :
    (skip : Bool) (provisioners : ProvisionerLookup) (ch : Channel) (o : Option Provisioner)
    → provisioners ch.type ≡ o
    → outcome skip provisioners ch ≡ by_platform skip ch o
unfolding outcome
outcome_of skip provisioners ch o e = ap (by_platform skip ch) e

converge-Converges :
    (skip : Bool) (provisioners : ProvisionerLookup) (a : Accesses) (ch : Channel)
    (channels : List Channel) (rs : RuntimeState) (later : RuntimeStates → Pass)
    (states : RuntimeStates) (o : Option Provisioner)
    → provisioners ch.type ≡ o
    → ((s : RuntimeStates) → Converges skip provisioners channels (later s))
    → ((s : RuntimeStates) → lookup (state_key ch.name) (later s).0 ≡ lookup (state_key ch.name) s)
    → Converges skip provisioners (ch ∷ channels) (converge skip a ch o rs later states)
unfolding converge
converge-Converges skip provisioners a ch channels rs later states none e h keeps =
    quiet-Converges skip provisioners ch channels rs ready (later states) has_all
      (outcome_of skip provisioners ch none e ∙ by_platform-none skip ch) refl (refl, refl)
      (h states)
converge-Converges skip provisioners a ch channels rs later states (some p) e h keeps =
    let facts = by_platform-skip skip ch p in
    let here = outcome_of skip provisioners ch (some p) e in
    elim (Bool-cases (p.is_ready ch.name)) [
      | inl has ↦ rw has (
          quiet-Converges skip provisioners ch channels rs ready (later states) has_all
            (here ∙ facts.0 has) refl (refl, refl) (h states))
      | inr lacks ↦ elim (Bool-cases p.can_auto_provision) [
        | inr manual ↦ rw lacks (
            rw manual (
              quiet-Converges skip provisioners ch channels rs needs_setup (later states) needs_user
                (here ∙ facts.1 lacks manual) refl (refl, refl) (h states)))
        | inl auto ↦ rw lacks (
            rw auto (by_skip skip (λ w. here ∙ facts.2 lacks w) (λ w. here ∙ facts.3 lacks auto w)))
      ]
    ]
  where
    by_skip :
        (b : Bool)
        → (b ≡ true → outcome skip provisioners ch ≡ needs_user)
        → (b ≡ false
            → outcome skip provisioners ch ≡ attempted (p.provision ch.name ch.description))
        → Converges skip provisioners (ch ∷ channels) (
            if b
            then with_channel (settled ch rs needs_setup) (later states)
            else with_call ch.name
                (after_provision a ch rs later states (p.provision ch.name ch.description)))
    by_skip true held free =
        quiet-Converges skip provisioners ch channels rs needs_setup (later states) needs_user
          (held refl) refl (refl, refl) (h states)
    by_skip false held free =
        after_provision-Converges skip provisioners a ch channels p (free refl) rs later states h
          keeps

at_read-Converges :
    (skip : Bool) (provisioners : ProvisionerLookup) (a : Accesses) (ch : Channel)
    (channels : List Channel) (later : RuntimeStates → Pass) (states : RuntimeStates)
    (r : Result StoreError RuntimeState)
    → ((s : RuntimeStates) → Converges skip provisioners channels (later s))
    → ((s : RuntimeStates) → lookup (state_key ch.name) (later s).0 ≡ lookup (state_key ch.name) s)
    → Converges skip provisioners
        (ch ∷ channels)
        (at_read skip a ch (provisioners ch.type) later states r)
at_read-Converges skip provisioners a ch channels later states (err e) h keeps =
    (attempts skip provisioners (ch ∷ channels), refl, tt)
at_read-Converges skip provisioners a ch channels later states (ok rs) h keeps =
    converge-Converges skip provisioners a ch channels rs later states (provisioners ch.type) refl h
      keeps

-- One pass over declared channels of which no two share a name calls a platform only for a channel
-- that lacks something, whose platform can provision by itself, and never while provisioning is
-- withheld; for these, it calls in order and once for each, up to an error of the store, which ends
-- the pass. If the pass ends without one, it called for all of them, and says of each declared
-- channel in its order: ready, if nothing was to be done, or if it was provisioned, and then with the
-- state of its platform and for its teardown, which the pass leaves in the store under the
-- channel's key; and otherwise that it needs setup, with the error if a call failed.
pub reconcile-Converges :
    (skip : Bool) (accesses : Channel → Accesses) (provisioners : ProvisionerLookup)
    (states : RuntimeStates) (channels : List Channel)
    → Unrepeated channels
    → let pass = reconcile skip accesses provisioners states channels in
      (uncalled : List String) × (attempts skip provisioners channels ≡ pass.1 ++ uncalled)
      × AllTold skip provisioners channels uncalled pass.0 pass.2
unfolding reconcile
reconcile-Converges skip accesses provisioners states [] once = ([], refl, (refl, tt))
reconcile-Converges skip accesses provisioners states (ch ∷ channels) once =
    at_read-Converges skip provisioners (accesses ch) ch channels
      (λ s. reconcile skip accesses provisioners s channels) states
      (get (accesses ch).first_read states ch.name)
      (λ s. reconcile-Converges skip accesses provisioners s channels once.1)
      (λ s. reconcile-others skip accesses provisioners ch.name channels s once.0)
