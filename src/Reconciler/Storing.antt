-- ===== src/Reconciler/Storing.antt =====
-- internal/reconciler/reconciler.go: the state that is read back after it was stored.
use tclaw.Base.{
  ◌≡◌, refl, ap, ◌∙◌, String, Bool, false, Option, none, some, List, [], ◌∷◌, Result, ok, err, ◌==◌,
  Bool-cases, lookup, insert, lookup-insert, eq_refl, arith, Result-cases, inl, inr,
}
use tclaw.Base.Collections.{Faults, StoreError}
use tclaw.Config.{Channel}
use tclaw.Config.Checks.{listed, names}
use tclaw.Runtime.{
  RuntimeState, RuntimeStates, Provisioner, ProvisionerLookup, ProvisionResult, get, update,
  state_key, state_key-differs,
}
use tclaw.Reconciler.{
  Accesses, Pass, provisioned, stored, after_provision, converge, at_read, reconcile,
}

get-found :
    (f : Faults) (states : RuntimeStates) (name : String) (rs rs' : RuntimeState)
    → lookup (state_key name) states ≡ some rs
    → get f states name ≡ ok rs'
    → rs' ≡ rs
unfolding get
get-found f states name rs rs' found r = ground (arith, found, r)

pub teardown_of :
    (result : ProvisionResult) (rs' : RuntimeState)
    → ((rs : RuntimeState) × (rs' ≡ provisioned result rs))
    → rs'.teardown_state ≡ result.teardown_state
unfolding provisioned
teardown_of result rs' (rs, e) = ap (λ (r : RuntimeState). r.teardown_state) e

pub platform_of :
    (result : ProvisionResult) (rs' : RuntimeState)
    → ((rs : RuntimeState) × (rs' ≡ provisioned result rs))
    → rs'.platform_state ≡ result.platform_state
unfolding provisioned
platform_of result rs' (rs, e) = ap (λ (r : RuntimeState). r.platform_state) e

-- What is read back is in the store, and is what was written.
pub get_of_update :
    (f g : Faults) (states states' : RuntimeStates) (name : String)
    (fn : RuntimeState → RuntimeState) (rs' : RuntimeState)
    → update g states name fn ≡ (states', none)
    → get f states' name ≡ ok rs'
    → (lookup (state_key name) states' ≡ some rs') × ((rs : RuntimeState) × (rs' ≡ fn rs))
unfolding update
get_of_update f g states states' name fn rs' w r = elim (Result-cases (get g states name)) [
  | inr (e, bad) ↦ absurd (ground arith)
  | inl (rs, good) ↦
      let written : states' ≡ insert (state_key name) (fn rs) states = ground arith in
      let found : lookup (state_key name) states' ≡ some (fn rs) =
        rw written (rw lookup-insert (rw (eq_refl (state_key name)) refl)) in
      let same = get-found f states' name (fn rs) rs' found r in (rw same found, (rs, same))
]

-- The state of another channel is as it was.
update-others :
    (g : Faults) (states : RuntimeStates) (name n : String) (fn : RuntimeState → RuntimeState)
    → (name == n) ≡ false
    → lookup (state_key n) (update g states name fn).0 ≡ lookup (state_key n) states
unfolding update
update-others g states name n fn other = elim (Result-cases (get g states name)) [
  | inr (e, bad) ↦ rw bad refl
  | inl (rs, good) ↦ elim (Bool-cases g.write_ok) [
    | inr unwritten ↦ rw good (rw unwritten refl)
    | inl written ↦
        rw good (rw written (rw lookup-insert (rw (state_key-differs name n other) refl)))
  ]
]

module _ (skip : Bool) (a : Accesses) (ch : Channel) (n : String) (other : (ch.name == n) ≡ false)
    (later : RuntimeStates → Pass)
    (h : (s : RuntimeStates) → lookup (state_key n) (later s).0 ≡ lookup (state_key n) s) where
  stored-others :
      (q : RuntimeStates × Option StoreError)
      → lookup (state_key n) (stored a ch later q).0 ≡ lookup (state_key n) q.0
  stored-others (s, some e) = refl
  stored-others (s, none) = elim (Result-cases (get a.second_read s ch.name)) [
    | inr (e, bad) ↦ rw bad refl
    | inl (rs, good) ↦ rw good (h s)
  ]

  after_provision-others :
      (rs : RuntimeState) (states : RuntimeStates) (r : Result String ProvisionResult)
      → lookup (state_key n) (after_provision a ch rs later states r).0
        ≡ lookup (state_key n) states
  after_provision-others rs states (err e) = h states
  after_provision-others rs states (ok result) =
      stored-others (update a.write states ch.name (provisioned result))
      ∙ update-others a.write states ch.name n (provisioned result) other

  converge-others :
      (o : Option Provisioner) (rs : RuntimeState) (states : RuntimeStates)
      → lookup (state_key n) (converge skip a ch o rs later states).0 ≡ lookup (state_key n) states
  unfolding converge
  converge-others none rs states = h states
  converge-others (some p) rs states = elim (Bool-cases (p.is_ready ch.name)) [
    | inl has ↦ rw has (h states)
    | inr lacks ↦ elim (Bool-cases p.can_auto_provision) [
      | inr manual ↦ rw lacks (rw manual (h states))
      | inl auto ↦ elim (Bool-cases skip) [
        | inl held ↦ rw lacks (rw auto (rw held (h states)))
        | inr free ↦ rw lacks (
            rw auto
              (rw free (after_provision-others rs states (p.provision ch.name ch.description))))
      ]
    ]
  ]

  at_read-others :
      (o : Option Provisioner) (states : RuntimeStates) (r : Result StoreError RuntimeState)
      → lookup (state_key n) (at_read skip a ch o later states r).0 ≡ lookup (state_key n) states
  at_read-others o states (err e) = refl
  at_read-others o states (ok rs) = converge-others o rs states

-- A pass leaves the states of the channels alone that are not among those declared.
pub reconcile-others :
    (skip : Bool) (accesses : Channel → Accesses) (provisioners : ProvisionerLookup) (n : String)
    (channels : List Channel) (states : RuntimeStates)
    → listed n (names channels) ≡ false
    → lookup (state_key n) (reconcile skip accesses provisioners states channels).0
      ≡ lookup (state_key n) states
unfolding reconcile
reconcile-others skip accesses provisioners n [] states absent = refl
reconcile-others skip accesses provisioners n (ch ∷ channels) states absent =
    at_read-others skip (accesses ch) ch n (ground arith)
      (λ s. reconcile skip accesses provisioners s channels)
      (λ s. reconcile-others skip accesses provisioners n channels s (ground arith))
      (provisioners ch.type) states (get (accesses ch).first_read states ch.name)
