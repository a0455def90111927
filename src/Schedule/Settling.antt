-- ===== src/Schedule/Settling.antt =====
-- internal/schedule/scheduler.go: what one pass leaves in the store, schedule by schedule.
use mathlib.Core.List.{append_assoc}
use tclaw.Base.{
  ℕ, ◌≡◌, refl, sym, ap, ◌∙◌, Bool, true, false, Option, some, List, [], ◌∷◌, ◌++◌, if◌then◌else◌,
  All, ok, arith, Bool-cases, Option-cases, inl, inr, any-append, eq_iff, ◌==◌,
}
use tclaw.Base.Collections
use tclaw.Base.Collections.{
  Faults, NoFaults, Stored, has, Distinct, save, on_list_ok, without_middle, update_first_middle,
  has_middle,
}
use tclaw.Schedule.{Schedule, id_of, list, update, remove}
use tclaw.Schedule.Scheduler.{
  Cron, Channels, Turn, resolve_channel, ran, advanced, settle_fired, advance_after_failed_resolve,
  fire_each,
}
use tclaw.Schedule.Firing.{due, settled, all_settled}

module _ (f : Faults) (fine : NoFaults f) (s : Schedule) (before after : List Schedule)
    (apart_before : has id_of s.id before ≡ false)
    (apart_after : has id_of s.id after ≡ false) where
  remove_middle : (remove f (some (before ++ (s ∷ after))) s.id).0 ≡ some (before ++ after)
  unfolding remove list
  remove_middle =
      let all = before ++ (s ∷ after) in
      let change = Collections.removed id_of s.id in
      let same : change all ≡ ok (before ++ after) =
        rw (has_middle id_of s before after)
          (ap ok (without_middle id_of s before after apart_before apart_after)) in
      ap (λ r. r.0) (on_list_ok f (some all) change (before ++ after) fine same)

  update_middle :
      (fn : Schedule → Schedule)
      → (update f (some (before ++ (s ∷ after))) s.id fn).0 ≡ some (before ++ (fn s ∷ after))
  unfolding update list
  update_middle fn =
      let all = before ++ (s ∷ after) in
      let change = Collections.updated id_of fn s.id in
      let same : change all ≡ ok (before ++ (fn s ∷ after)) =
        rw (update_first_middle id_of fn s before after apart_before, Collections.updated) refl in
      ap (λ r. r.0) (on_list_ok f (some all) change (before ++ (fn s ∷ after)) fine same)

  by_once :
      (b : Bool) (fn : Schedule → Schedule)
      → (if b
          then (remove f (some (before ++ (s ∷ after))) s.id).0
          else (update f (some (before ++ (s ∷ after))) s.id fn).0)
        ≡ some (before ++ ((if b then [] else fn s ∷ []) ++ after))
  by_once true fn = remove_middle
  by_once false fn = update_middle fn

-- No entry of the second list has the key of one of the first.
abbrev pub Apart : List Schedule → List Schedule → Type 0
Apart before schedules = All (λ s. has id_of s.id before ≡ false) schedules

Apart-append :
    (before : List Schedule) (kept : List Schedule) (s : Schedule) (schedules : List Schedule)
    → All (λ k. k.id ≡ s.id) kept
    → has id_of s.id schedules ≡ false
    → Apart before schedules
    → Apart (before ++ kept) schedules
Apart-append before kept s [] same absent apart = tt
Apart-append before kept s (x ∷ schedules) same absent apart = (
  any-append (λ y. y.id == x.id) before kept ∙ rw apart.0 (no_other kept same),
  Apart-append before kept s schedules same (ground arith) apart.1,
)
  where
    no_other : (ks : List Schedule) → All (λ k. k.id ≡ s.id) ks → has id_of x.id ks ≡ false
    no_other [] same' = refl
    no_other (k ∷ ks) same' =
        ground (arith, no_other ks same'.1, eq_iff k.id x.id, eq_iff x.id s.id, absent)

module _ (c : Cron) (env : Schedule → Turn) (now : ℕ) (channels : Option Channels) where
  settled-id : (s : Schedule) → All (λ k. k.id ≡ s.id) (settled c env now channels s)
  unfolding ran advanced
  settled-id s = ground (arith, resolve_channel channels s.channel_name)

  -- One turn of the loop, behind the schedules that are settled already.
  settle_one :
      (before after : List Schedule) (s : Schedule)
      → NoFaults (env s).faults
      → has id_of s.id before ≡ false
      → has id_of s.id after ≡ false
      → (env s).taken ≡ true
      → (fire_each c env now channels (some (before ++ (s ∷ after))) (s ∷ after)).0
        ≡ (fire_each c env now channels
            (some (before ++ (settled c env now channels s ++ after)))
            after).0
  unfolding fire_each settle_fired advance_after_failed_resolve
  settle_one before after s fine b a taken = elim (Bool-cases (due c env now channels s)) [
    | inr early ↦ rw early refl
    | inl late ↦ elim (Option-cases (resolve_channel channels s.channel_name)) [
      | inl lost ↦ rw late (
          rw lost (
            ap (λ st. (fire_each c env now channels st after).0)
              (by_once (env s).faults fine s before after b a s.once (advanced c now))))
      | inr (id, there) ↦ rw late (
          rw there (
            rw taken (
              ap (λ st. (fire_each c env now channels st after).0)
                (by_once (env s).faults fine s before after b a s.once (ran c now)))))
    ]
  ]

  pub settle_from :
      (before schedules : List Schedule)
      → Distinct id_of schedules
      → Apart before schedules
      → All (λ s. NoFaults (env s).faults × ((env s).taken ≡ true)) schedules
      → (fire_each c env now channels (some (before ++ schedules)) schedules).0
        ≡ some (before ++ all_settled c env now channels schedules)
  unfolding fire_each
  settle_from before [] distinct apart fine = refl
  settle_from before (s ∷ schedules) distinct apart fine =
      let kept = settled c env now channels s in
      settle_one before schedules s fine.0.0 apart.0 distinct.0 fine.0.1
      ∙ ap (λ l. (fire_each c env now channels (some l) schedules).0)
          (sym (append_assoc before kept schedules))
      ∙ settle_from (before ++ kept) schedules distinct.1
          (Apart-append before kept s schedules (settled-id s) distinct.0 apart.1) fine.1
      ∙ ap some (append_assoc before kept (all_settled c env now channels schedules))
