-- ===== src/Schedule/Tools.antt =====
-- internal/tool/scheduletools: the tools that create, edit, pause, resume and delete schedules, from
-- their decoded arguments on. Each result that is ok signals a reload to the scheduler.
use tclaw.Base.{
  ℕ, String, Bool, true, false, not, ◌&&◌, ◌||◌, Option, none, some, ltb, if◌then◌else◌, Result, ok,
  err, ◌==◌,
}
use tclaw.Base.Collections.{Faults, StoreError, Stored}
use tclaw.Schedule.{active, paused, Schedule, add, update, remove, get}
use tclaw.Schedule.Scheduler.{Cron, or_local, resolve_location}

pub data ToolError : Type 0 where
  prompt_required exclusive neither_given channel_required bad_run_at run_at_past : ToolError
  bad_cron bad_timezone id_required : ToolError
  store_error : StoreError → ToolError

-- The arguments of `schedule_create`; the one of `time.Parse` comes parsed beside the text.
pub record CreateArgs : Type 0 where
  pub prompt : String
  pub cron_expr : String
  pub run_at : String
  pub channel_name : String
  pub timezone : String

abbrev pub is_empty : String → Bool
is_empty s = s == ""

abbrev base : CreateArgs → String → ℕ → Schedule
base a id now = record {
  id = id;
  cron_expr = "";
  prompt = a.prompt;
  channel_name = a.channel_name;
  timezone = "";
  status = active;
  once = false;
  created_at = now;
  last_run_at = 0;
  next_run_at = 0;
}

-- A one-shot lies in the future.
abbrev pub one_shot : CreateArgs → String → ℕ → Option ℕ → Result ToolError Schedule
one_shot a id now none = err bad_run_at
one_shot a id now (some run_at) =
    if ltb now run_at
    then ok (record (base a id now) { once = true; next_run_at = run_at })
    else err run_at_past

abbrev pub recurring : Cron → CreateArgs → String → ℕ → Result ToolError Schedule
recurring c a id now =
    if not (c.parses a.cron_expr) then err bad_cron else elim (resolve_location c a.timezone) [
      | none ↦ err bad_timezone
      | some loc ↦ ok (record (base a id now) {
        cron_expr = a.cron_expr;
        timezone = a.timezone;
        next_run_at = c.next a.cron_expr loc now;
      })
    ]

-- The checks of the arguments, and the schedule that they describe.
unfoldable pub described :
    Cron → (String → Option ℕ) → String → ℕ → CreateArgs → Result ToolError Schedule
described c parse_time id now a =
    if is_empty a.prompt
    then err prompt_required
    else if not (is_empty a.run_at) && not (is_empty a.cron_expr)
    then err exclusive
    else if is_empty a.run_at && is_empty a.cron_expr
    then err neither_given
    else if is_empty a.channel_name
    then err channel_required
    else if not (is_empty a.run_at)
    then one_shot a id now (parse_time a.run_at)
    else recurring c a id now

abbrev pub reported : Stored Schedule × Option StoreError → Stored Schedule × Option ToolError
reported (store, none) = (store, none)
reported (store, some e) = (store, some (store_error e))

abbrev pub create_with :
    Faults → Stored Schedule → Result ToolError Schedule → Stored Schedule × Option ToolError
create_with f store (err e) = (store, some e)
create_with f store (ok sched) = reported (add f store sched)

unfoldable pub create :
    Cron
    → (String → Option ℕ)
    → Faults
    → Stored Schedule
    → String
    → ℕ
    → CreateArgs
    → Stored Schedule × Option ToolError
create c parse_time f store id now a = create_with f store (described c parse_time id now a)

-- A timezone that is not given is none.
pub record EditArgs : Type 0 where
  pub id : String
  pub prompt : String
  pub cron_expr : String
  pub channel_name : String
  pub timezone : Option String

abbrev pub or_kept : String → String → String
or_kept new kept = if is_empty new then kept else new

abbrev pub zone_or_kept : Option String → String → String
zone_or_kept none kept = kept
zone_or_kept (some zone) kept = zone

abbrev pub is_given : Option String → Bool
is_given none = false
is_given (some zone) = true

-- The function that the edit hands to `Update`.
unfoldable pub edited : Cron → ℕ → EditArgs → Schedule → Schedule
edited c now a s =
    let cron_expr = or_kept a.cron_expr s.cron_expr in
    let zone = zone_or_kept a.timezone s.timezone in
    let loc = or_local (resolve_location c zone) in
    let recompute = (not (is_empty a.cron_expr) || is_given a.timezone) && c.parses cron_expr in
    record s {
      prompt = or_kept a.prompt s.prompt;
      cron_expr = cron_expr;
      timezone = zone;
      next_run_at = if recompute then c.next cron_expr loc now else s.next_run_at;
      channel_name = or_kept a.channel_name s.channel_name;
    }

abbrev pub bad_zone : Cron → Option String → Bool
bad_zone c none = false
bad_zone c (some zone) = not (is_empty zone) && not (c.known_zone zone)

unfoldable pub edit :
    Cron → Faults → Stored Schedule → ℕ → EditArgs → Stored Schedule × Option ToolError
edit c f store now a =
    if is_empty a.id
    then (store, some id_required)
    else if not (is_empty a.cron_expr) && not (c.parses a.cron_expr)
    then (store, some bad_cron)
    else if bad_zone c a.timezone
    then (store, some bad_timezone)
    else reported (update f store a.id (edited c now a))

unfoldable pub pause : Faults → Stored Schedule → String → Stored Schedule × Option ToolError
pause f store id =
    if is_empty id
    then (store, some id_required)
    else reported (update f store id (λ s. record s { status = paused }))

-- The function that the resume hands to `Update`; the time is the system's zone's.
unfoldable pub resumed : Cron → ℕ → Schedule → Schedule
resumed c now s = record s {
  status = active;
  next_run_at = if c.parses s.cron_expr then c.next s.cron_expr "" now else s.next_run_at;
}

-- Whether the expression of the schedule that is changed does not parse.
abbrev pub unparsed : Cron → Result StoreError (Option Schedule) → Bool
unparsed c (err e) = false
unparsed c (ok none) = false
unparsed c (ok (some s)) = not (c.parses s.cron_expr)

abbrev pub or_bad_cron :
    Bool → Stored Schedule × Option ToolError → Stored Schedule × Option ToolError
or_bad_cron bad (store, some e) = (store, some e)
or_bad_cron bad (store, none) = (store, if bad then some bad_cron else none)

unfoldable pub resume :
    Cron → Faults → Stored Schedule → ℕ → String → Stored Schedule × Option ToolError
resume c f store now id =
    if is_empty id
    then (store, some id_required)
    else or_bad_cron (unparsed c (get f store id)) (reported (update f store id (resumed c now)))

unfoldable pub delete : Faults → Stored Schedule → String → Stored Schedule × Option ToolError
delete f store id = if is_empty id then (store, some id_required) else reported (remove f store id)
