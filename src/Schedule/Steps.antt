-- ===== src/Schedule/Steps.antt =====
-- internal/schedule and internal/tool/scheduletools: what every step keeps of the stored schedules.
use tclaw.Base.{
  ℕ, ◌≡◌, refl, sym, subst, String, Bool, true, false, not, ◌&&◌, Option, some, List, [], ◌∷◌,
  if◌then◌else◌, Result, ok, err, Bool-cases, Option-cases, inl, inr,
}
use tclaw.Base.Collections.{Faults, StoreError, Stored}
use tclaw.Base.Collections.Kept.{add-Kept, update-Kept, remove-Kept}
use tclaw.Schedule.{Schedule, id_of, add, update, remove, get, list, paused}
use tclaw.Schedule.Scheduler.{
  Cron, Channels, Turn, resolve_channel, is_due, ran, advanced, settle_fired,
  advance_after_failed_resolve, fire_each, fire_list, fire_ready_schedules,
}
use tclaw.Schedule.Tools.{
  EditArgs, ToolError, described, create, create_with, reported, edited, edit, pause, resumed,
  resume, delete, or_bad_cron, unparsed, is_empty, bad_zone, id_required, bad_cron, bad_timezone,
}
use tclaw.Schedule.Ops.{
  Armed, StoreArmed, Op, creates, edits, pauses, resumes, deletes, fires, step, or_bad_cron-store,
  resumed-id, refused-StoreArmed, reported-StoreArmed,
}
use tclaw.Schedule.Arming.{computed-Armed, described-Armed, edited-id, edited-Armed, resumed-Armed}

module _ (c : Cron) where
  add-StoreArmed :
      (f : Faults) (store : Stored Schedule) (s : Schedule)
      → Armed c s
      → StoreArmed c store
      → StoreArmed c (add f store s).0
  unfolding add list
  add-StoreArmed f store s armed kept = add-Kept id_of (Armed c) f store s armed kept

  remove-StoreArmed :
      (f : Faults) (store : Stored Schedule) (id : String)
      → StoreArmed c store
      → StoreArmed c (remove f store id).0
  unfolding remove list
  remove-StoreArmed f store id kept = remove-Kept id_of (Armed c) f store id kept

  update-StoreArmed :
      (f : Faults) (store : Stored Schedule) (id : String) (fn : Schedule → Schedule)
      → ((s : Schedule) → (fn s).id ≡ s.id)
      → ((s : Schedule) → Armed c s → Armed c (fn s))
      → StoreArmed c store
      → StoreArmed c (update f store id fn).0
  unfolding update list
  update-StoreArmed f store id fn same_id armed kept =
      update-Kept id_of (Armed c) f store fn id same_id armed kept

  create_with-StoreArmed :
      (f : Faults) (store : Stored Schedule) (d : Result ToolError Schedule)
      → ((s : Schedule) → d ≡ ok s → Armed c s)
      → StoreArmed c store
      → StoreArmed c (create_with f store d).0
  create_with-StoreArmed f store (err e) armed kept = kept
  create_with-StoreArmed f store (ok s) armed kept =
      reported-StoreArmed c (add f store s) (add-StoreArmed f store s (armed s refl) kept)

  edit-StoreArmed :
      (f : Faults) (store : Stored Schedule) (now : ℕ) (a : EditArgs)
      → StoreArmed c store
      → StoreArmed c (edit c f store now a).0
  unfolding edit
  edit-StoreArmed f store now a kept =
      let done = reported (update f store a.id (edited c now a)) in
      let no_zone = bad_zone c a.timezone in
      let no_cron = not (is_empty a.cron_expr) && not (c.parses a.cron_expr) in
      let checked : Stored Schedule × Option ToolError =
        if no_zone then (store, some bad_timezone) else done in
      refused-StoreArmed c (is_empty a.id) id_required store
        (if no_cron then (store, some bad_cron) else checked) kept
        (elim (Bool-cases no_cron) [
          | inl bad ↦ rw bad kept
          | inr fine ↦ rw fine (
              refused-StoreArmed c no_zone bad_timezone store done kept (
                reported-StoreArmed c (update f store a.id (edited c now a)) (
                  update-StoreArmed f store a.id (edited c now a) (edited-id c now a)
                    (edited-Armed c now a fine) kept)))
        ])

  -- A schedule that is fired, or whose channel is missing.
  settle-StoreArmed :
      (f : Faults) (s : Schedule) (store : Stored Schedule) (fn : Schedule → Schedule)
      → ((x : Schedule) → (fn x).id ≡ x.id)
      → ((x : Schedule) → Armed c (fn x))
      → StoreArmed c store
      → StoreArmed c (if s.once then (remove f store s.id).0 else (update f store s.id fn).0)
  settle-StoreArmed f s store fn same_id armed kept = by_once s.once
    where
      by_once :
          (once : Bool)
          → StoreArmed c (if once then (remove f store s.id).0 else (update f store s.id fn).0)
      by_once true = remove-StoreArmed f store s.id kept
      by_once false = update-StoreArmed f store s.id fn same_id (λ x h. armed x) kept

  settle_fired-StoreArmed :
      (f : Faults) (now : ℕ) (s : Schedule) (store : Stored Schedule)
      → StoreArmed c store
      → StoreArmed c (settle_fired c f now s store)
  unfolding settle_fired ran
  settle_fired-StoreArmed f now s store kept =
      settle-StoreArmed f s store (ran c now) (λ x. refl)
        (λ x. computed-Armed c x.cron_expr x.timezone now) kept

  advance-StoreArmed :
      (f : Faults) (now : ℕ) (s : Schedule) (store : Stored Schedule)
      → StoreArmed c store
      → StoreArmed c (advance_after_failed_resolve c f now s store)
  unfolding advance_after_failed_resolve advanced
  advance-StoreArmed f now s store kept =
      settle-StoreArmed f s store (advanced c now) (λ x. refl)
        (λ x. computed-Armed c x.cron_expr x.timezone now) kept

  fire_each-StoreArmed :
      (env : Schedule → Turn) (now : ℕ) (channels : Option Channels) (store : Stored Schedule)
      (schedules : List Schedule)
      → StoreArmed c store
      → StoreArmed c (fire_each c env now channels store schedules).0
  unfolding fire_each
  fire_each-StoreArmed env now channels store [] kept = kept
  fire_each-StoreArmed env now channels store (s ∷ schedules) kept =
      elim (Bool-cases (is_due c now (env s).clock s)) [
        | inr early ↦ rw early (fire_each-StoreArmed env now channels store schedules kept)
        | inl late ↦ elim (Option-cases (resolve_channel channels s.channel_name)) [
          | inl lost ↦ rw late (
              rw lost (
                fire_each-StoreArmed env now channels
                  (advance_after_failed_resolve c (env s).faults now s store) schedules
                  (advance-StoreArmed (env s).faults now s store kept)))
          | inr (id, there) ↦
              let settled = settle_fired-StoreArmed (env s).faults now s store kept in
              elim (Bool-cases (env s).taken) [
                | inl taken ↦ rw late (
                    rw there (
                      rw taken (
                        fire_each-StoreArmed env now channels
                          (settle_fired c (env s).faults now s store) schedules settled)))
                | inr cut ↦ rw late (rw there (rw cut settled))
              ]
        ]
      ]

  fire_list-StoreArmed :
      (env : Schedule → Turn) (now : ℕ) (channels : Option Channels) (store : Stored Schedule)
      (r : Result StoreError (List Schedule))
      → StoreArmed c store
      → StoreArmed c (fire_list c env now channels store r).0
  fire_list-StoreArmed env now channels store (err e) kept = kept
  fire_list-StoreArmed env now channels store (ok schedules) kept =
      fire_each-StoreArmed env now channels store schedules kept

-- Whatever a tool is asked for and whatever fails, each call of a tool and each pass of the scheduler
-- keeps that no id stands twice in the store and that every schedule in it has a next run, unless its
-- expression is one for which the cron library, at some time and in some zone, answers the zero
-- time, that is, finds none.
pub step-StoreArmed :
    (c : Cron) (store : Stored Schedule) (op : Op)
    → StoreArmed c store
    → StoreArmed c (step c store op)
unfolding step create pause resume delete fire_ready_schedules
step-StoreArmed c store (creates f parse_time id now a) kept =
    create_with-StoreArmed c f store (described c parse_time id now a)
      (described-Armed c parse_time id now a) kept
step-StoreArmed c store (edits f now a) kept = edit-StoreArmed c f store now a kept
step-StoreArmed c store (pauses f id) kept =
    let change = λ (s : Schedule). record s { status = paused } in
    refused-StoreArmed c (is_empty id) id_required store (reported (update f store id change)) kept
      (reported-StoreArmed c (update f store id change)
        (update-StoreArmed c f store id change (λ s. refl) (λ s h. h) kept))
step-StoreArmed c store (resumes f now id) kept =
    let done = update f store id (resumed c now) in
    refused-StoreArmed c (is_empty id) id_required store
      (or_bad_cron (unparsed c (get f store id)) (reported done)) kept
      (subst (StoreArmed c) (sym (or_bad_cron-store (unparsed c (get f store id)) (reported done)))
        (reported-StoreArmed c done (
          update-StoreArmed c f store id (resumed c now) (resumed-id c now) (resumed-Armed c now)
            kept)))
step-StoreArmed c store (deletes f id) kept =
    refused-StoreArmed c (is_empty id) id_required store (reported (remove f store id)) kept
      (reported-StoreArmed c (remove f store id) (remove-StoreArmed c f store id kept))
step-StoreArmed c store (fires f env now channels) kept =
    fire_list-StoreArmed c env now channels store (list f store) kept
