-- ===== src/Schedule/Waiting.antt =====
-- internal/schedule/scheduler.go: the earliest run, for which the loop of `Run` sleeps.
use tclaw.Base.{
  ℕ, ◌≤◌, ◌≡◌, ◌≢◌, refl, true, List, [], ◌∷◌, ◌++◌, eqb, ltb, if◌then◌else◌, any, All, ok, arith,
  Bool-cases, inl, inr, ◌∙◌, subst,
}
use tclaw.Schedule.{Schedule}
use tclaw.Schedule.Scheduler.{
  Cron, is_active, earlier, compute_next_run, earliest_from, Wait, for_reload, until, wait,
}

-- The next runs of the active schedules.
abbrev pub runs : Cron → (Schedule → ℕ) → List Schedule → List ℕ
runs c clock [] = []
runs c clock (s ∷ schedules) =
    let later = runs c clock schedules in
    if is_active s.status then compute_next_run c (clock s) s ∷ later else later

-- A wait is for the first of some times, or for a reload if there is none.
pub data EarliestOf (times : List ℕ) : Wait → Type 0 where
  no_time : times ≡ [] → EarliestOf times for_reload
  first_time :
      (t : ℕ) → any (eqb t) times ≡ true → All (λ r. t ≤ r) times → EarliestOf times (until t)

-- The fold of the loop over the times themselves.
earliest : ℕ → List ℕ → ℕ
earliest e [] = e
earliest e (t ∷ times) = earliest (earlier e t) times

earliest_from-runs :
    (c : Cron) (clock : Schedule → ℕ) (e : ℕ) (schedules : List Schedule)
    → earliest_from c clock e schedules ≡ earliest e (runs c clock schedules)
unfolding earliest_from earliest
earliest_from-runs c clock e [] = refl
earliest_from-runs c clock e (s ∷ schedules) = elim (Bool-cases (is_active s.status)) [
  | inl on ↦
      rw on (earliest_from-runs c clock (earlier e (compute_next_run c (clock s) s)) schedules)
  | inr off ↦ rw off (earliest_from-runs c clock e schedules)
]

abbrev Least : ℕ → List ℕ → Type 0
Least m times = (any (eqb m) times ≡ true) × All (λ r. m ≤ r) times

-- A time that is no earlier than another changes nothing, nor where the two stand.
Least-passed : (m a b : ℕ) (times : List ℕ) → a ≤ b → Least m (a ∷ times) → Least m (b ∷ a ∷ times)
Least-passed m a b times h least =
    let first : m ≤ b = omega arith in (ground (arith, least.0), (first, least.1))

Least-swap : (m a b : ℕ) (times : List ℕ) → Least m (a ∷ b ∷ times) → Least m (b ∷ a ∷ times)
Least-swap m a b times least = (ground (arith, least.0), (least.1.1.0, (least.1.0, least.1.1.1)))

-- From a time on, the fold is the least of it and the others.
earliest-Least :
    (e : ℕ) (times : List ℕ)
    → e ≢ 0
    → All (λ t. t ≢ 0) times
    → Least (earliest e times) (e ∷ times) × (earliest e times ≢ 0)
unfolding earliest
earliest-Least e [] nonzero all = ((ground arith, (omega arith, tt)), nonzero)
earliest-Least e (t ∷ times) nonzero all = elim (Bool-cases (ltb t e)) [
  | inl less ↦
      let pick : t ≡ earlier e t = ground arith in
      let rest = earliest-Least t times all.0 all.1 in
      subst (λ f. Least (earliest f times) (e ∷ t ∷ times) × (earliest f times ≢ 0)) pick
        (Least-passed (earliest t times) t e times (ground arith) rest.0, rest.1)
  | inr more ↦
      let pick : e ≡ earlier e t = ground arith in
      let rest = earliest-Least e times nonzero all.1 in
      subst (λ f. Least (earliest f times) (e ∷ t ∷ times) × (earliest f times ≢ 0)) pick
        (
          Least-swap (earliest e times) t e times
              (Least-passed (earliest e times) e t times (ground arith) rest.0),
          rest.1,
        )
]

earliest-EarliestOf :
    (times : List ℕ)
    → All (λ t. t ≢ 0) times
    → EarliestOf times (if eqb (earliest 0 times) 0 then for_reload else until (earliest 0 times))
unfolding earliest
earliest-EarliestOf [] all = no_time refl
earliest-EarliestOf (t ∷ times) all =
    let rest = earliest-Least t times all.0 all.1 in
    elim (Bool-cases (eqb (earliest t times) 0)) [
      | inl none_found ↦ absurd (rest.1 (ground arith))
      | inr found ↦ rw found (first_time (earliest t times) rest.0.0 rest.0.1)
    ]

-- If every active schedule has a next run, the scheduler waits for the first of these, read at
-- whatever times the clock shows, and for a reload alone exactly if no schedule is active.
pub wait-EarliestOf :
    (c : Cron) (clock : Schedule → ℕ) (schedules : List Schedule)
    → All (λ t. t ≢ 0) (runs c clock schedules)
    → EarliestOf (runs c clock schedules) (wait c clock (ok schedules))
unfolding wait
wait-EarliestOf c clock schedules all =
    rw (earliest_from-runs c clock 0 schedules) (earliest-EarliestOf (runs c clock schedules) all)

earliest-append : (e : ℕ) (xs ys : List ℕ) → earliest e (xs ++ ys) ≡ earliest (earliest e xs) ys
unfolding earliest
earliest-append e [] ys = refl
earliest-append e (x ∷ xs) ys = earliest-append (earlier e x) xs ys

runs-append :
    (c : Cron) (clock : Schedule → ℕ) (xs ys : List Schedule)
    → runs c clock (xs ++ ys) ≡ runs c clock xs ++ runs c clock ys
runs-append c clock [] ys = refl
runs-append c clock (s ∷ xs) ys = ground (arith, runs-append c clock xs ys)

-- One active schedule whose expression has no next run, such as the 30th of February, keeps the
-- scheduler from waking up for all the others that stand before it, whatever they are due for, if
-- no active schedule stands behind it: it waits for a reload alone.
pub wait_of_impossible :
    (c : Cron) (clock : Schedule → ℕ) (others : List Schedule) (s : Schedule)
    (behind : List Schedule)
    → is_active s.status ≡ true
    → compute_next_run c (clock s) s ≡ 0
    → runs c clock behind ≡ []
    → wait c clock (ok (others ++ (s ∷ behind))) ≡ for_reload
unfolding wait earliest
wait_of_impossible c clock others s behind on none_next off =
    let all = others ++ (s ∷ behind) in
    let here : runs c clock (s ∷ behind) ≡ 0 ∷ [] = rw on (rw none_next (rw off refl)) in
    let split : runs c clock all ≡ runs c clock others ++ (0 ∷ []) =
      runs-append c clock others (s ∷ behind) ∙ rw here refl in
    let value : earliest_from c clock 0 all ≡ 0 =
      earliest_from-runs c clock 0 all
      ∙ (rw split (earliest-append 0 (runs c clock others) (0 ∷ []) ∙ ground arith)) in
    rw value refl
