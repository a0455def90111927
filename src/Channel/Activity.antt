-- ===== src/Channel/Activity.antt =====
-- internal/channel/activity.go: the tracker of busy and idle channels. Times are nanoseconds on
-- one clock; `none` is Go's zero time, which lies further back than any timeout. A waiter (a Go
-- channel that is closed once) is a number, and `closed` lists the waiters closed so far.
pub mod History
pub mod Waiters
pub mod Wakeups
use tclaw.Base.{
  ℕ, suc, ◌+◌, ◌-◌, ◌*◌, String, Bool, true, false, ◌&&◌, ◌||◌, not, Option, none, some, List, [],
  ◌∷◌, ◌++◌, ltb, leb, if◌then◌else◌, lookup, insert,
}
use tclaw.Channel.{MessageSource, other}

-- Three minutes.
abbrev pub default_idle_timeout : ℕ
default_idle_timeout = 180_000_000_000

-- A `*time.Timer`. The pointer stays in the entry after the timer has fired.
pub record Timer : Type 0 where
  pub deadline : ℕ
  pub pending : Bool

pub record ChannelActivity : Type 0 where
  pub processing : Bool
  pub last_message_at : Option ℕ
  pub last_message_source : MessageSource
  pub idle_waiters : List ℕ
  pub idle_timer : Option Timer

-- The two fields of the runtime state that the tracker keeps on disk.
pub record PersistedActivity : Type 0 where
  pub last_message_at : Option ℕ
  pub last_message_source : MessageSource

pub record Tracker : Type 0 where
  pub entries : List (String × ChannelActivity)
  pub runtime_state : Option (List (String × PersistedActivity))
  pub closed : List ℕ
  pub next_waiter : ℕ

abbrev pub fresh_activity : ChannelActivity
fresh_activity = record {
  processing = false;
  last_message_at = none;
  last_message_source = other "";
  idle_waiters = [];
  idle_timer = none;
}

unfoldable pub new_tracker : Tracker
new_tracker = record { entries = []; runtime_state = none; closed = []; next_waiter = 0 }

-- `NewPersistedActivityTracker`: `readable` says which reads of the state store succeed.
load_entries :
    (String → Bool)
    → List (String × PersistedActivity)
    → List String
    → List (String × ChannelActivity)
load_entries readable state [] = []
load_entries readable state (name ∷ names) =
    let rest = load_entries readable state names in
    if readable name then load_entry (lookup name state) rest else rest
  where
    load_entry :
        Option PersistedActivity → List (String × ChannelActivity) → List (String × ChannelActivity)
    load_entry none rest = rest
    load_entry (some rs) rest = elim rs.last_message_at [
      | none ↦ rest
      | some at ↦
          insert name
            (record fresh_activity {
              last_message_at = some at;
              last_message_source = rs.last_message_source;
            })
            rest
    ]

unfoldable pub new_persisted_tracker :
    (String → Bool) → List (String × PersistedActivity) → List String → Tracker
unfolding load_entries
new_persisted_tracker readable state names = record {
  entries = load_entries readable state names;
  runtime_state = some state;
  closed = [];
  next_waiter = 0;
}

-- `t.entry(name)`: an absent entry is created.
abbrev pub or_fresh : Option ChannelActivity → ChannelActivity
or_fresh none = fresh_activity
or_fresh (some e) = e

unfoldable pub entry : Tracker → String → ChannelActivity
entry t name = or_fresh (lookup name t.entries)

put : String → ChannelActivity → Tracker → Tracker
put name e t = record t { entries = insert name e t.entries }

-- `time.Since(last) < timeout`; a zero time lies beyond every timeout.
abbrev pub within : Option ℕ → ℕ → ℕ → Bool
within none timeout now = false
within (some at) timeout now = ltb (now - at) timeout

unfoldable pub busy_within : ChannelActivity → ℕ → ℕ → Bool
busy_within e timeout now = e.processing || within e.last_message_at timeout now

unfoldable pub is_busy_entry : ChannelActivity → ℕ → Bool
unfolding busy_within
is_busy_entry e now = busy_within e default_idle_timeout now

-- `IsBusyWithTimeout`: (busy, known).
unfoldable pub is_busy_with_timeout : Tracker → String → ℕ → ℕ → Bool × Bool
unfolding busy_within
is_busy_with_timeout t name timeout now = elim (lookup name t.entries) [
  | none ↦ (false, false)
  | some e ↦ (busy_within e timeout now, true)
]

unfoldable pub is_busy : Tracker → String → ℕ → Bool × Bool
unfolding is_busy_with_timeout
is_busy t name now = is_busy_with_timeout t name default_idle_timeout now

cancel_idle_timer : ChannelActivity → ChannelActivity
cancel_idle_timer e = record e { idle_timer = none }

-- An entry and the waiters that an operation on it closed.
abbrev Signalled : Type 0
Signalled = ChannelActivity × List ℕ

signal_waiters : ChannelActivity → Signalled
signal_waiters e = (record e { idle_waiters = [] }, e.idle_waiters)

-- The deadline of `time.AfterFunc(DefaultIdleTimeout - time.Since(last))`; `none` is already past.
abbrev idle_deadline : Option ℕ → ℕ → Option ℕ
idle_deadline none now = none
idle_deadline (some at) now =
    if leb (at + default_idle_timeout) now then none else some (at + default_idle_timeout)

schedule_idle_check : ChannelActivity → ℕ → Signalled
unfolding cancel_idle_timer signal_waiters
schedule_idle_check e now = elim e.idle_waiters [
  | [] ↦ (cancel_idle_timer e, [])
  | w ∷ ws ↦ elim (idle_deadline e.last_message_at now) [
    | none ↦ signal_waiters (cancel_idle_timer e)
    | some d ↦ (record e { idle_timer = some (record { deadline = d; pending = true }) }, [])
  ]
]

pub settle : String → Signalled → Tracker → Tracker
unfolding put
settle name (e, ws) t = record (put name e t) { closed = ws ++ t.closed }

persist_activity : Bool → String → Option ℕ → MessageSource → Tracker → Tracker
persist_activity write_ok name at source t = elim t.runtime_state [
  | none ↦ t
  | some state ↦
      if write_ok
      then record t {
        runtime_state =
            some
              (insert name (record { last_message_at = at; last_message_source = source }) state);
      }
      else t
]

received_entry : ChannelActivity → MessageSource → ℕ → ChannelActivity
unfolding cancel_idle_timer
received_entry e source now =
    cancel_idle_timer (record e { last_message_at = some now; last_message_source = source })

-- `MessageReceivedFrom`; `write_ok` says whether the state store takes the write.
unfoldable pub message_received_from : Tracker → String → MessageSource → Bool → ℕ → Tracker
unfolding received_entry persist_activity put entry
message_received_from t name source write_ok now =
    persist_activity write_ok name (some now) source
      (put name (received_entry (entry t name) source now) t)

unfoldable pub message_received : Tracker → String → Bool → ℕ → Tracker
unfolding message_received_from
message_received t name write_ok now = message_received_from t name (other "") write_ok now

started_entry : ChannelActivity → ChannelActivity
unfolding cancel_idle_timer
started_entry e = cancel_idle_timer (record e { processing = true })

unfoldable pub turn_started : Tracker → String → Tracker
unfolding started_entry put entry
turn_started t name = put name (started_entry (entry t name)) t

ended_entry : ChannelActivity → ℕ → Signalled
unfolding schedule_idle_check
ended_entry e now = schedule_idle_check (record e { processing = false }) now

unfoldable pub turn_ended : Tracker → String → ℕ → Tracker
unfolding ended_entry settle entry
turn_ended t name now = settle name (ended_entry (entry t name) now) t

-- A waiter that joins a busy channel; a check is scheduled in the cooldown if no timer is set.
waiting_entry : ChannelActivity → ℕ → ℕ → Signalled
unfolding schedule_idle_check
waiting_entry e w now =
    let joined = record e { idle_waiters = e.idle_waiters ++ (w ∷ []) } in
    elim e.idle_timer [
      | none ↦ if e.processing then (joined, []) else schedule_idle_check joined now
      | some _ ↦ (joined, [])
    ]

-- `NotifyIdle`: the new waiter, closed at once if the channel is not busy.
unfoldable pub notify_idle : Tracker → String → ℕ → Tracker × ℕ
unfolding is_busy_entry waiting_entry settle
notify_idle t name now =
    let w = t.next_waiter in
    let t' = record t { next_waiter = suc w } in
    let at_once = record t' { closed = w ∷ t'.closed } in
    elim (lookup name t.entries) [
      | none ↦ (at_once, w)
      | some e ↦
          if is_busy_entry e now then (settle name (waiting_entry e w now) t', w) else (at_once, w)
    ]

-- The timer has fired: the pointer stays, no longer pending.
expire : Option Timer → Option Timer
expire none = none
expire (some timer) = some (record timer { pending = false })

fired_entry : ChannelActivity → ℕ → Signalled
unfolding is_busy_entry signal_waiters expire
fired_entry e now =
    let e' = record e { idle_timer = expire e.idle_timer } in
    if is_busy_entry e' now then (e', []) else signal_waiters e'

-- The callback of the idle timer.
unfoldable pub timer_fired : Tracker → String → ℕ → Tracker
unfolding fired_entry settle
timer_fired t name now = elim (lookup name t.entries) [
  | none ↦ t
  | some e ↦ settle name (fired_entry e now) t
]

-- `ForceLastMessageAt`, for the source's own tests.
unfoldable pub force_last_message_at : Tracker → String → ℕ → Tracker
unfolding put entry
force_last_message_at t name at = put name (record (entry t name) { last_message_at = some at }) t
