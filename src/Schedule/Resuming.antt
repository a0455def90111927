-- ===== src/Schedule/Resuming.antt =====
-- internal/tool/scheduletools/resume.go: what resuming makes of a one-shot, which has no expression.
use tclaw.Base.{◌≡◌, refl, ap, ℕ, true, false, some, List, ◌∷◌, ◌++◌, ok}
use tclaw.Base.Collections
use tclaw.Base.Collections.{
  Faults, NoFaults, Stored, contents, has, list_ok, on_list_ok, update_first_middle, first_middle,
}
use tclaw.Schedule.{Schedule, active, id_of, update, get, list}
use tclaw.Schedule.Scheduler.{Cron}
use tclaw.Schedule.Tools.{bad_cron, resumed, resume, is_empty, unparsed}

-- Resuming a schedule whose expression does not parse, as that of every one-shot is empty, reports
-- an error although it succeeds: provided that no access fails, the schedule is stored as active,
-- with the next run it had, and the others as they were; and no reload is signalled.
pub resume_of_one_shot :
    (c : Cron) (f : Faults) (before after : List Schedule) (s : Schedule) (now : ℕ)
    → NoFaults f
    → has id_of s.id before ≡ false
    → is_empty s.id ≡ false
    → c.parses s.cron_expr ≡ false
    → resume c f (some (before ++ (s ∷ after))) now s.id
      ≡ (some (before ++ (record s { status = active } ∷ after)), some bad_cron)
unfolding resume get update list resumed
resume_of_one_shot c f before after s now fine apart named one_shot =
    let all = before ++ (s ∷ after) in
    let done = record s { status = active } in
    let change = Collections.updated id_of (resumed c now) s.id in
    let shape : resumed c now s ≡ done = rw one_shot refl in
    let changes : change all ≡ ok (before ++ (done ∷ after)) =
      rw (update_first_middle id_of (resumed c now) s before after apart, Collections.updated)
        (ap (λ k. ok (before ++ (k ∷ after))) shape) in
    let stored = on_list_ok f (some all) change (before ++ (done ∷ after)) fine changes in
    let found : get f (some all) s.id ≡ ok (some s) =
      rw (list_ok f (some all) fine) (ap ok (first_middle id_of s before after apart)) in
    let flag : unparsed c (get f (some all) s.id) ≡ true = rw found (rw one_shot refl) in
    rw named (rw stored (rw flag refl))
