-- ===== src/Channel/Activity/Waiters.antt =====
-- internal/channel/activity.go: when the waiters of `NotifyIdle` are closed, and what keeps a timer
-- pending for them.
use tclaw.Base.{
  ℕ, suc, ◌+◌, ◌≤◌, ◌∙◌, ◌≡◌, refl, String, Bool, true, false, Option, none, some, List, [],
  if◌then◌else◌, lookup, lookup-insert, ◌==◌, arith, Option-cases, inl, inr, ◌⊎◌, Bool-cases, sym,
  subst,
}
use tclaw.Channel.Activity.{
  ChannelActivity, Timer, Tracker, default_idle_timeout, entry, turn_started, turn_ended,
  notify_idle, timer_fired, settle, is_busy_entry, waiting_entry, fired_entry, ended_entry,
  schedule_idle_check, started_entry, put,
}
use tclaw.Channel.Activity.History.{Call, received, started, ended, asked, fired, step}

abbrev pub is_pending : Option Timer → Bool
is_pending none = false
is_pending (some timer) = timer.pending

-- A set timer stands at the end of the cooldown, and is spent only once that has passed.
abbrev pub Fits : ℕ → Option Timer → Option ℕ → Type 0
Fits clock none last = Unit
Fits clock (some timer) none = ⊥
Fits clock (some timer) (some at) =
    (timer.deadline ≡ at + default_idle_timeout) × (timer.pending ≡ false → timer.deadline ≤ clock)

-- Somebody will close the waiters: there are none, or the end of the turn will look at them, or
-- a timer is pending.
pub record Armed (clock : ℕ) (e : ChannelActivity) : Type 0 where
  pub covered : (e.idle_waiters ≡ []) ⊎ (e.processing ≡ true) ⊎ (is_pending e.idle_timer ≡ true)
  pub fits : Fits clock e.idle_timer e.last_message_at

Fits-mono : (c d : ℕ) (o : Option Timer) (l : Option ℕ) → c ≤ d → Fits c o l → Fits d o l
Fits-mono c d none l h f = tt
Fits-mono c d (some timer) none h f = f
Fits-mono c d (some timer) (some at) h f = (f.0, λ p. omega (arith, f.1 p))

Armed-mono : (c d : ℕ) (e : ChannelActivity) → c ≤ d → Armed c e → Armed d e
Armed-mono c d e h a = record {
  covered = a.covered;
  fits = Fits-mono c d e.idle_timer e.last_message_at h a.fits;
}

started-Armed : (now : ℕ) (e : ChannelActivity) → Armed now (started_entry e)
unfolding started_entry
started-Armed now e = record { covered = inr (inl refl); fits = tt }

scheduled-Armed : (now : ℕ) (e : ChannelActivity) → Armed now (schedule_idle_check e now).0
unfolding schedule_idle_check
scheduled-Armed now e = ground arith

waiting-Armed :
    (now : ℕ) (e : ChannelActivity) (w : ℕ)
    → Armed now e
    → is_busy_entry e now ≡ true
    → Armed now (waiting_entry e w now).0
unfolding waiting_entry is_busy_entry schedule_idle_check
waiting-Armed now e w a busy = ground arith

-- A timer fires when it is pending and its time has come.
abbrev pub Due : ℕ → Option Timer → Type 0
Due now none = ⊥
Due now (some timer) = (timer.pending ≡ true) × (timer.deadline ≤ now)

fired-Armed :
    (now : ℕ) (e : ChannelActivity)
    → Armed now e
    → Due now e.idle_timer
    → Armed now (fired_entry e now).0
unfolding fired_entry is_busy_entry
fired-Armed now e a due = ground arith

-- Every channel of the tracker.
abbrev pub AllArmed : ℕ → Tracker → Type 0
AllArmed clock t = (name : String) → Armed clock (entry t name)

pub entry-settle :
    (n name : String) (s : ChannelActivity × List ℕ) (t : Tracker)
    → entry (settle n s t) name ≡ (if n == name then s.0 else entry t name)
unfolding entry settle
entry-settle n name s t = ground (arith, lookup-insert n name s.0 t.entries)

settle-Armed :
    (now : ℕ) (n : String) (s : ChannelActivity × List ℕ) (t : Tracker)
    → AllArmed now t
    → Armed now s.0
    → AllArmed now (settle n s t)
settle-Armed now n s t all a name = elim (Bool-cases (n == name)) [
  | inl same ↦ subst (Armed now) (sym (entry-settle n name s t ∙ rw same refl)) a
  | inr differ ↦ subst (Armed now) (sym (entry-settle n name s t ∙ rw differ refl)) (all name)
]

-- The calls that are made to the tracker outside `MessageReceivedFrom`, a timer's callback only
-- when its timer is due.
abbrev pub Allowed : ℕ → Tracker → Call → Type 0
Allowed now t (received name source write_ok) = ⊥
Allowed now t (started name) = Unit
Allowed now t (ended name) = Unit
Allowed now t (asked name) = Unit
Allowed now t (fired name) = Due now (entry t name).idle_timer

asked-AllArmed :
    (now : ℕ) (t : Tracker) (name : String)
    → AllArmed now t
    → AllArmed now (notify_idle t name now).0
unfolding notify_idle entry
asked-AllArmed now t name all = elim (Option-cases (lookup name t.entries)) [
  | inl e ↦ rw (e, notify_idle) all
  | inr (e, found) ↦ elim (Bool-cases (is_busy_entry e now)) [
    | inl busy ↦
        rw (found, notify_idle)
          (rw busy (
            settle-Armed now name (waiting_entry e t.next_waiter now)
              (record t { next_waiter = suc t.next_waiter }) all
              (waiting-Armed now e t.next_waiter (rw found at (all name)) busy)))
    | inr idle ↦ rw (found, notify_idle) (rw idle all)
  ]
]

fired-AllArmed :
    (now : ℕ) (t : Tracker) (name : String)
    → AllArmed now t
    → Due now (entry t name).idle_timer
    → AllArmed now (timer_fired t name now)
unfolding timer_fired entry
fired-AllArmed now t name all due = elim (Option-cases (lookup name t.entries)) [
  | inl e ↦ rw (e, timer_fired) all
  | inr (e, found) ↦
      rw (found, timer_fired)
        (settle-Armed now name (fired_entry e now) t all
          (fired-Armed now e (rw found at (all name)) (rw found at due)))
]

entry-put :
    (n name : String) (e : ChannelActivity) (t : Tracker)
    → entry (put n e t) name ≡ (if n == name then e else entry t name)
unfolding entry put
entry-put n name e t = ground (arith, lookup-insert n name e t.entries)

put-Armed :
    (now : ℕ) (n : String) (e : ChannelActivity) (t : Tracker)
    → AllArmed now t
    → Armed now e
    → AllArmed now (put n e t)
put-Armed now n e t all a name = elim (Bool-cases (n == name)) [
  | inl same ↦ subst (Armed now) (sym (entry-put n name e t ∙ rw same refl)) a
  | inr differ ↦ subst (Armed now) (sym (entry-put n name e t ∙ rw differ refl)) (all name)
]

started-AllArmed :
    (now : ℕ) (t : Tracker) (name : String) → AllArmed now t → AllArmed now (turn_started t name)
unfolding turn_started
started-AllArmed now t name all =
    put-Armed now name (started_entry (entry t name)) t all (started-Armed now (entry t name))

ended-AllArmed :
    (now : ℕ) (t : Tracker) (name : String) → AllArmed now t → AllArmed now (turn_ended t name now)
unfolding turn_ended ended_entry
ended-AllArmed now t name all =
    settle-Armed now name (ended_entry (entry t name) now) t all
      (scheduled-Armed now (record (entry t name) { processing = false }))

-- The loss of a wakeup is ruled out for every call but `MessageReceivedFrom`: on a tracker where
-- each channel's waiters are covered by a running turn or a pending timer at the end of the
-- cooldown, a turn's start or end, `NotifyIdle` and the callback of a due timer, made at a time no
-- earlier than the previous one, keep every channel so.
pub step-AllArmed :
    (clock now : ℕ) (t : Tracker) (c : Call)
    → clock ≤ now
    → AllArmed clock t
    → Allowed now t c
    → AllArmed now (step t (now, c))
unfolding step
step-AllArmed clock now t (received name source write_ok) later all ok = elim ok [ ]
step-AllArmed clock now t (started name) later all ok =
    started-AllArmed now t name (λ n. Armed-mono clock now _ later (all n))
step-AllArmed clock now t (ended name) later all ok =
    ended-AllArmed now t name (λ n. Armed-mono clock now _ later (all n))
step-AllArmed clock now t (asked name) later all ok =
    asked-AllArmed now t name (λ n. Armed-mono clock now _ later (all n))
step-AllArmed clock now t (fired name) later all ok =
    fired-AllArmed now t name (λ n. Armed-mono clock now _ later (all n)) ok
