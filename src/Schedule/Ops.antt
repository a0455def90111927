-- ===== src/Schedule/Ops.antt =====
-- internal/schedule and internal/tool/scheduletools: the operations on the store of schedules, as steps.
use tclaw.Base.{
  ℕ, ◌<◌, ◌≡◌, ◌⊎◌, refl, sym, subst, String, Bool, true, false, Option, none, some, if◌then◌else◌,
}
use tclaw.Base.Collections.{Faults, StoreError, Stored, contents}
use tclaw.Base.Collections.Kept.{Kept}
use tclaw.Schedule.{Schedule, id_of}
use tclaw.Schedule.Scheduler.{Cron, Channels, Turn, fire_ready_schedules}
use tclaw.Schedule.Tools.{
  CreateArgs, EditArgs, ToolError, create, reported, edit, pause, resumed, resume, delete,
  or_bad_cron,
}

-- The cron library has no next time for the expression, at some time and in some zone.
abbrev pub NoNext : Cron → String → Type 0
NoNext c expr = (zone : String) × (t : ℕ) × (c.next expr zone t ≡ 0)

-- The schedule has a next run, unless there is none to be found.
abbrev pub Armed : Cron → Schedule → Type 0
Armed c s = (0 < s.next_run_at) ⊎ NoNext c s.cron_expr

-- No id stands twice in the store, and every schedule has a next run, unless there is none.
abbrev pub StoreArmed : Cron → Stored Schedule → Type 0
StoreArmed c store = Kept id_of (Armed c) (contents store)

-- What happens to the stored schedules, with the faults and the readings of the clock.
pub data Op : Type 0 where
  creates : Faults → (String → Option ℕ) → String → ℕ → CreateArgs → Op
  edits : Faults → ℕ → EditArgs → Op
  pauses : Faults → String → Op
  resumes : Faults → ℕ → String → Op
  deletes : Faults → String → Op
  fires : Faults → (Schedule → Turn) → ℕ → Option Channels → Op

unfoldable pub step : Cron → Stored Schedule → Op → Stored Schedule
step c store (creates f parse_time id now a) = (create c parse_time f store id now a).0
step c store (edits f now a) = (edit c f store now a).0
step c store (pauses f id) = (pause f store id).0
step c store (resumes f now id) = (resume c f store now id).0
step c store (deletes f id) = (delete f store id).0
step c store (fires f env now channels) = (fire_ready_schedules c f env now channels store).0

reported-store : (r : Stored Schedule × Option StoreError) → (reported r).0 ≡ r.0
reported-store (store, none) = refl
reported-store (store, some e) = refl

pub or_bad_cron-store :
    (bad : Bool) (r : Stored Schedule × Option ToolError) → (or_bad_cron bad r).0 ≡ r.0
or_bad_cron-store bad (store, none) = refl
or_bad_cron-store bad (store, some e) = refl

-- A call that is refused leaves the store as it was.
pub resumed-id : (c : Cron) (now : ℕ) (s : Schedule) → (resumed c now s).id ≡ s.id
unfolding resumed
resumed-id c now s = refl

pub refused-StoreArmed :
    (c : Cron) (b : Bool) (e : ToolError) (store : Stored Schedule)
    (r : Stored Schedule × Option ToolError)
    → StoreArmed c store
    → StoreArmed c r.0
    → StoreArmed c (if b then (store, some e) else r).0
refused-StoreArmed c true e store r kept k = kept
refused-StoreArmed c false e store r kept k = k

pub reported-StoreArmed :
    (c : Cron) (r : Stored Schedule × Option StoreError)
    → StoreArmed c r.0
    → StoreArmed c (reported r).0
reported-StoreArmed c r kept = subst (StoreArmed c) (sym (reported-store r)) kept
