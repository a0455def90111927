-- ===== src/Schedule/Scheduler.antt =====
-- internal/schedule/scheduler.go: when the loop of `Run` wakes up, and what it fires then. The cron
-- parser and the time zones are arguments.
use tclaw.Base.{
  ℕ, ◌+◌, String, Bool, true, false, not, ◌&&◌, ◌||◌, Option, none, some, List, [], ◌∷◌, ltb, eqb,
  if◌then◌else◌, Result, ok, err, ◌==◌,
}
use tclaw.Base.Collections.{Faults, StoreError, Stored}
use tclaw.Channel.{TaggedMessage, schedule}
use tclaw.Schedule.{Status, active, paused, other, Schedule, list, update, remove}

-- The cron library and the time zones: does an expression parse, is a zone known, and the next time
-- of an expression after a time in a zone. The zone of the system is the empty text.
pub record Cron : Type 0 where
  pub parses : String → Bool
  pub known_zone : String → Bool
  pub next : String → String → ℕ → ℕ

-- 24 * 365 hours, in nanoseconds.
abbrev pub far_future : ℕ
far_future = 31_536_000_000_000_000

unfoldable pub resolve_location : Cron → String → Option String
resolve_location c zone =
    if zone == "" then some "" else if c.known_zone zone then some zone else none

-- An unknown zone falls back to the system's.
abbrev pub or_local : Option String → String
or_local none = ""
or_local (some zone) = zone

unfoldable pub compute_next_run_from_time : Cron → String → ℕ → String → ℕ
compute_next_run_from_time c cron_expr t zone =
    let loc = or_local (resolve_location c zone) in
    if c.parses cron_expr then c.next cron_expr loc t else t + far_future

-- A next run that is set is used as it is; otherwise it is computed from the clock.
unfoldable pub compute_next_run : Cron → ℕ → Schedule → ℕ
compute_next_run c now s =
    if eqb s.next_run_at 0
    then compute_next_run_from_time c s.cron_expr now s.timezone
    else s.next_run_at

abbrev pub is_active : Status → Bool
is_active active = true
is_active paused = false
is_active (other s) = false

-- One round of the search for the earliest run; 0 stands for none so far.
abbrev pub earlier : ℕ → ℕ → ℕ
earlier earliest next = if eqb earliest 0 || ltb next earliest then next else earliest

-- The loop over the schedules, each of which reads the clock anew.
unfoldable pub earliest_from : Cron → (Schedule → ℕ) → ℕ → List Schedule → ℕ
earliest_from c clock earliest [] = earliest
earliest_from c clock earliest (s ∷ schedules) =
    earliest_from c clock
      (if is_active s.status then earlier earliest (compute_next_run c (clock s) s) else earliest)
      schedules

-- What `Run` waits for: a reload alone, or a reload or a time.
pub data Wait : Type 0 where
  for_reload : Wait
  until : ℕ → Wait

unfoldable pub wait : Cron → (Schedule → ℕ) → Result StoreError (List Schedule) → Wait
wait c clock (err e) = for_reload
wait c clock (ok schedules) =
    let earliest = earliest_from c clock 0 schedules in
    if eqb earliest 0 then for_reload else until earliest

-- The channels by name and id, in the order in which the map is walked.
abbrev pub Channels : Type 0
Channels = List (String × String)

unfoldable pub find_channel : Channels → String → Option String
find_channel [] name = none
find_channel (ch ∷ channels) name =
    let later = find_channel channels name in if ch.0 == name then some ch.1 else later

-- A map that is nil has no channels.
unfoldable pub resolve_channel : Option Channels → String → Option String
resolve_channel none name = none
resolve_channel (some channels) name = find_channel channels name

-- What surrounds the firing of one schedule: the accesses to the store, the clock, and whether the
-- message is taken before the context ends.
pub record Turn : Type 0 where
  pub faults : Faults
  pub clock : ℕ
  pub taken : Bool

unfoldable pub advanced : Cron → ℕ → Schedule → Schedule
advanced c now s = record s {
  next_run_at = compute_next_run_from_time c s.cron_expr now s.timezone;
}

unfoldable pub ran : Cron → ℕ → Schedule → Schedule
ran c now s = record s {
  last_run_at = now;
  next_run_at = compute_next_run_from_time c s.cron_expr now s.timezone;
}

-- `advanceAfterFailedResolve`
unfoldable pub advance_after_failed_resolve :
    Cron → Faults → ℕ → Schedule → Stored Schedule → Stored Schedule
advance_after_failed_resolve c f now s store =
    if s.once then (remove f store s.id).0 else (update f store s.id (advanced c now)).0

-- The store before the message of a fired schedule is sent.
unfoldable pub settle_fired : Cron → Faults → ℕ → Schedule → Stored Schedule → Stored Schedule
settle_fired c f now s store =
    if s.once then (remove f store s.id).0 else (update f store s.id (ran c now)).0

unfoldable pub message_of : String → Schedule → TaggedMessage
message_of channel_id s = record {
  channel_id = channel_id;
  text = s.prompt;
  source_info = some (record {
    source = schedule;
    from_channel = "";
    schedule_name = s.id;
    subscription_id = "";
    subscription_label = "";
    child_channel = "";
  });
}

unfoldable pub is_due : Cron → ℕ → ℕ → Schedule → Bool
is_due c now clock s = is_active s.status && not (ltb now (compute_next_run c clock s))

-- The loop of `fireReadySchedules`: the store after it, and what was sent.
unfoldable pub fire_each :
    Cron
    → (Schedule → Turn)
    → ℕ
    → Option Channels
    → Stored Schedule
    → List Schedule
    → Stored Schedule × List TaggedMessage
fire_each c env now channels store [] = (store, [])
fire_each c env now channels store (s ∷ schedules) =
    let later = λ (store' : Stored Schedule). fire_each c env now channels store' schedules in
    if is_due c now (env s).clock s
    then elim (resolve_channel channels s.channel_name) [
      | none ↦ later (advance_after_failed_resolve c (env s).faults now s store)
      | some id ↦
          let settled = settle_fired c (env s).faults now s store in
          if (env s).taken
          then (let rest = later settled in (rest.0, message_of id s ∷ rest.1))
          else (settled, [])
    ]
    else later store

abbrev pub fire_list :
    Cron
    → (Schedule → Turn)
    → ℕ
    → Option Channels
    → Stored Schedule
    → Result StoreError (List Schedule)
    → Stored Schedule × List TaggedMessage
fire_list c env now channels store (err e) = (store, [])
fire_list c env now channels store (ok schedules) = fire_each c env now channels store schedules

unfoldable pub fire_ready_schedules :
    Cron
    → Faults
    → (Schedule → Turn)
    → ℕ
    → Option Channels
    → Stored Schedule
    → Stored Schedule × List TaggedMessage
fire_ready_schedules c f env now channels store = fire_list c env now channels store (list f store)
