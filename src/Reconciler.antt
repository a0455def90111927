-- ===== src/Reconciler.antt =====
-- internal/reconciler/reconciler.go: the declared channels against their runtime state and their
-- platforms. Each call of a platform that creates something is recorded.
pub mod Outcomes
pub mod Storing
pub mod Provisioning
mod Tests
use tclaw.Base.{
  String, Bool, true, false, not, Option, none, some, List, [], ◌∷◌, if◌then◌else◌, Result, ok, err,
}
use tclaw.Base.Collections.{Faults, StoreError}
use tclaw.Config.{Channel}
use tclaw.Runtime.{
  RuntimeState, RuntimeStates, Provisioner, ProvisionerLookup, ProvisionResult, get, update,
}

pub data ChannelStatus : Type 0 where
  ready needs_setup : ChannelStatus

pub record ReconciledChannel : Type 0 where
  pub config : Channel
  pub runtime_state : RuntimeState
  pub status : ChannelStatus
  pub provision_err : Option String

pub data ReconcileError : Type 0 where
  read_state store_state reread_state : StoreError → ReconcileError
  no_result : ReconcileError
  provision_failed : String → ReconcileError

-- The accesses to the runtime state that one channel's turn makes, in their order.
pub record Accesses : Type 0 where
  pub first_read : Faults
  pub write : Faults
  pub second_read : Faults

-- The runtime states after a pass, the names of the channels that were provisioned, and the outcome.
abbrev pub Pass : Type 0
Pass = RuntimeStates × List String × Result ReconcileError (List ReconciledChannel)

abbrev pub cons_ok :
    ReconciledChannel
    → Result ReconcileError (List ReconciledChannel)
    → Result ReconcileError (List ReconciledChannel)
cons_ok rc (ok rcs) = ok (rc ∷ rcs)
cons_ok rc (err e) = err e

abbrev pub with_channel : ReconciledChannel → Pass → Pass
with_channel rc (states, calls, r) = (states, calls, cons_ok rc r)

abbrev pub with_call : String → Pass → Pass
with_call name (states, calls, r) = (states, name ∷ calls, r)

abbrev pub settled : Channel → RuntimeState → ChannelStatus → ReconciledChannel
settled ch rs status = record {
  config = ch;
  runtime_state = rs;
  status = status;
  provision_err = none;
}

unfoldable pub provisioned : ProvisionResult → RuntimeState → RuntimeState
provisioned result rs = record rs {
  platform_state = result.platform_state;
  teardown_state = result.teardown_state;
}

abbrev pub reread :
    Channel → (RuntimeStates → Pass) → RuntimeStates → Result StoreError RuntimeState → Pass
reread ch later states (err e) = (states, [], err (reread_state e))
reread ch later states (ok rs) = with_channel (settled ch rs ready) (later states)

abbrev pub stored :
    Accesses → Channel → (RuntimeStates → Pass) → RuntimeStates × Option StoreError → Pass
stored a ch later (states, some e) = (states, [], err (store_state e))
stored a ch later (states, none) = reread ch later states (get a.second_read states ch.name)

-- What follows a call of `Provision`.
abbrev pub after_provision :
    Accesses
    → Channel
    → RuntimeState
    → (RuntimeStates → Pass)
    → RuntimeStates
    → Result String ProvisionResult
    → Pass
after_provision a ch rs later states (err e) =
    with_channel (record (settled ch rs needs_setup) { provision_err = some e }) (later states)
after_provision a ch rs later states (ok result) =
    stored a ch later (update a.write states ch.name (provisioned result))

-- The turn of one channel whose runtime state is read; `later` is the rest of the pass.
unfoldable pub converge :
    (skip_provision : Bool)
    → Accesses
    → Channel
    → Option Provisioner
    → RuntimeState
    → (RuntimeStates → Pass)
    → RuntimeStates
    → Pass
converge skip a ch none rs later states = with_channel (settled ch rs ready) (later states)
converge skip a ch (some p) rs later states =
    if p.is_ready ch.name
    then with_channel (settled ch rs ready) (later states)
    else if not p.can_auto_provision
    then with_channel (settled ch rs needs_setup) (later states)
    else if skip
    then with_channel (settled ch rs needs_setup) (later states)
    else with_call ch.name
        (after_provision a ch rs later states (p.provision ch.name ch.description))

abbrev pub at_read :
    (skip_provision : Bool)
    → Accesses
    → Channel
    → Option Provisioner
    → (RuntimeStates → Pass)
    → RuntimeStates
    → Result StoreError RuntimeState
    → Pass
at_read skip a ch p later states (err e) = (states, [], err (read_state e))
at_read skip a ch p later states (ok rs) = converge skip a ch p rs later states

unfoldable pub reconcile :
    (skip_provision : Bool)
    → (Channel → Accesses)
    → ProvisionerLookup
    → RuntimeStates
    → List Channel
    → Pass
reconcile skip accesses provisioners states [] = (states, [], ok [])
reconcile skip accesses provisioners states (ch ∷ channels) =
    at_read skip (accesses ch) ch (provisioners ch.type)
      (λ s. reconcile skip accesses provisioners s channels) states
      (get (accesses ch).first_read states ch.name)

abbrev pub surfaced : Option String → ReconciledChannel → Result ReconcileError ReconciledChannel
surfaced none rc = ok rc
surfaced (some e) rc = err (provision_failed e)

abbrev pub only_result :
    Result ReconcileError (List ReconciledChannel) → Result ReconcileError ReconciledChannel
only_result (err e) = err e
only_result (ok []) = err no_result
only_result (ok (rc ∷ rcs)) = surfaced rc.provision_err rc

-- `ReconcileOne`, which never withholds the provisioning.
unfoldable pub reconcile_one :
    (Channel → Accesses)
    → ProvisionerLookup
    → RuntimeStates
    → Channel
    → RuntimeStates × List String × Result ReconcileError ReconciledChannel
reconcile_one accesses provisioners states ch =
    let (states', calls, r) = reconcile false accesses provisioners states (ch ∷ []) in
    (states', calls, only_result r)
