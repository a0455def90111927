-- ===== src/Channel/Activity/History.antt =====
-- internal/channel/activity.go, seen as a history of calls: what `IsBusy` answers depends on the
-- turns and the messages of that channel alone.
use tclaw.Base.{
  ℕ, suc, ◌∙◌, ap, ◌≡◌, refl, String, Bool, true, false, Option, none, some, List, [], ◌∷◌,
  if◌then◌else◌, lookup, lookup-insert, eq_iff, ◌==◌, arith, ◌||◌, Option-cases, inl, inr,
}
use tclaw.Channel.{MessageSource}
use tclaw.Channel.Activity.{
  ChannelActivity, Tracker, or_fresh, within, default_idle_timeout, new_tracker, is_busy,
  message_received_from, turn_started, turn_ended, notify_idle, timer_fired, settle, waiting_entry,
  fired_entry, ended_entry, schedule_idle_check,
}

-- The calls that change the tracker.
pub data Call : Type 0 where
  received : String → MessageSource → Bool → Call
  started : String → Call
  ended : String → Call
  asked : String → Call
  fired : String → Call

-- Each call comes with the time at which it is made.
unfoldable pub step : Tracker → ℕ × Call → Tracker
step t (now, received name source write_ok) = message_received_from t name source write_ok now
step t (now, started name) = turn_started t name
step t (now, ended name) = turn_ended t name now
step t (now, asked name) = (notify_idle t name now).0
step t (now, fired name) = timer_fired t name now

unfoldable pub run : Tracker → List (ℕ × Call) → Tracker
run t [] = t
run t (c ∷ cs) = run (step t c) cs

-- What a history says of one channel: whether it is known, whether a turn runs, and when the last
-- message came.
pub record Observed : Type 0 where
  pub known : Bool
  pub turn_runs : Bool
  pub last : Option ℕ

abbrev nothing_seen : Observed
nothing_seen = record { known = false; turn_runs = false; last = none }

abbrev pub observe_call : String → ℕ × Call → Observed → Observed
observe_call name (now, received n source write_ok) o =
    if n == name then record o { known = true; last = some now } else o
observe_call name (now, started n) o =
    if n == name then record o { known = true; turn_runs = true } else o
observe_call name (now, ended n) o =
    if n == name then record o { known = true; turn_runs = false } else o
observe_call name (now, asked n) o = o
observe_call name (now, fired n) o = o

unfoldable pub observe : String → Observed → List (ℕ × Call) → Observed
observe name o [] = o
observe name o (c ∷ cs) = observe name (observe_call name c o) cs

abbrev observed_entry : Option ChannelActivity → Observed
observed_entry none = nothing_seen
observed_entry (some e) = record {
  known = true;
  turn_runs = e.processing;
  last = e.last_message_at;
}

abbrev observed_in : Tracker → String → Observed
observed_in t name = observed_entry (lookup name t.entries)

module _ (t : Tracker) (name n : String) (now : ℕ) where
  observed-received :
      (source : MessageSource) (write_ok : Bool)
      → observed_in (message_received_from t n source write_ok now) name
        ≡ observe_call name (now, received n source write_ok) (observed_in t name)
  unfolding message_received_from
  observed-received source write_ok = ground (
    arith,
    eq_iff n name,
    lookup-insert n name
        (record (or_fresh (lookup n t.entries)) {
          last_message_at = some now;
          last_message_source = source;
          idle_timer = none;
        })
        t.entries,
  )

  observed-started :
      observed_in (turn_started t n) name ≡ observe_call name (now, started n) (observed_in t name)
  unfolding turn_started
  observed-started = ground (
    arith,
    eq_iff n name,
    lookup-insert n name
        (record (or_fresh (lookup n t.entries)) { processing = true; idle_timer = none }) t.entries,
  )

  observed-settle :
      (s : ChannelActivity × List ℕ) (e : ChannelActivity) (p : Bool)
      → s.0.processing ≡ p
      → s.0.last_message_at ≡ e.last_message_at
      → observed_in (settle n s t) name ≡ (
          if n == name
          then record { known = true; turn_runs = p; last = e.last_message_at }
          else observed_in t name)
  unfolding settle
  observed-settle s e p hp hl = ground (arith, lookup-insert n name s.0 t.entries)

-- Scheduling a check, waiting and firing leave the turn and the last message alone.
scheduled_keeps :
    (e : ChannelActivity) (now : ℕ)
    → ((schedule_idle_check e now).0.processing ≡ e.processing)
      × ((schedule_idle_check e now).0.last_message_at ≡ e.last_message_at)
unfolding schedule_idle_check
scheduled_keeps e now = ground arith

waiting_keeps :
    (e : ChannelActivity) (w now : ℕ)
    → ((waiting_entry e w now).0.processing ≡ e.processing)
      × ((waiting_entry e w now).0.last_message_at ≡ e.last_message_at)
unfolding waiting_entry
waiting_keeps e w now = ground arith

fired_keeps :
    (e : ChannelActivity) (now : ℕ)
    → ((fired_entry e now).0.processing ≡ e.processing)
      × ((fired_entry e now).0.last_message_at ≡ e.last_message_at)
unfolding fired_entry
fired_keeps e now = ground arith

module _ (t : Tracker) (name n : String) (now : ℕ) where
  observed-ended :
      observed_in (turn_ended t n now) name ≡ observe_call name (now, ended n) (observed_in t name)
  unfolding turn_ended ended_entry
  observed-ended =
      let e = record (or_fresh (lookup n t.entries)) { processing = false } in
      let (p, l) = scheduled_keeps e now in
      ground
        (arith, eq_iff n name, observed-settle t name n now (schedule_idle_check e now) e false p l)

  observed-asked : observed_in (notify_idle t n now).0 name ≡ observed_in t name
  unfolding notify_idle
  observed-asked = elim (Option-cases (lookup n t.entries)) [
    | inl e ↦ rw (e, notify_idle) refl
    | inr (e, found) ↦
        let w = t.next_waiter in
        let t' = record t { next_waiter = suc w } in
        let (p, l) = waiting_keeps e w now in
        ground (
          arith,
          eq_iff n name,
          observed-settle t' name n now (waiting_entry e w now) e e.processing p l,
        )
  ]

  observed-fired : observed_in (timer_fired t n now) name ≡ observed_in t name
  unfolding timer_fired
  observed-fired = elim (Option-cases (lookup n t.entries)) [
    | inl e ↦ rw (e, timer_fired) refl
    | inr (e, found) ↦
        let (p, l) = fired_keeps e now in
        ground (
          arith,
          eq_iff n name,
          observed-settle t name n now (fired_entry e now) e e.processing p l,
        )
  ]

observed-step :
    (t : Tracker) (name : String) (c : ℕ × Call)
    → observed_in (step t c) name ≡ observe_call name c (observed_in t name)
unfolding step
observed-step t name (now, received n source write_ok) =
    observed-received t name n now source write_ok
observed-step t name (now, started n) = observed-started t name n now
observed-step t name (now, ended n) = observed-ended t name n now
observed-step t name (now, asked n) = observed-asked t name n now
observed-step t name (now, fired n) = observed-fired t name n now

observed-run :
    (t : Tracker) (name : String) (cs : List (ℕ × Call))
    → observed_in (run t cs) name ≡ observe name (observed_in t name) cs
unfolding run observe
observed-run t name [] = refl
observed-run t name (c ∷ cs) =
    observed-run (step t c) name cs ∙ ap (λ o. observe name o cs) (observed-step t name c)

is_busy_of_observed :
    (t : Tracker) (name : String) (now : ℕ)
    → is_busy t name now ≡ (
        let o = observed_in t name in
        (o.turn_runs || within o.last default_idle_timeout now, o.known))
unfolding is_busy
is_busy_of_observed t name now = ground arith

-- After any calls on a new tracker, for whatever channels and at whatever times, `IsBusy` answers
-- for a channel by that channel's history: busy exactly when a turn was started and not ended
-- since, or the last message came less than three minutes ago; known exactly when a message or
-- a turn was recorded. Waiters, timers and the other channels have no part in it.
pub is_busy-run :
    (cs : List (ℕ × Call)) (name : String) (now : ℕ)
    → is_busy (run new_tracker cs) name now ≡ (
        let o = observe name nothing_seen cs in
        (o.turn_runs || within o.last default_idle_timeout now, o.known))
unfolding new_tracker lookup
is_busy-run cs name now =
    is_busy_of_observed (run new_tracker cs) name now
    ∙ ap (λ (o : Observed). (o.turn_runs || within o.last default_idle_timeout now, o.known))
        (observed-run new_tracker name cs)
