-- ===== src/Channel/Activity/Wakeups.antt =====
-- internal/channel/activity.go: what the pending timers do for the waiters, and the message that takes
-- a timer away.
use tclaw.Base.{
  ℕ, ◌+◌, ◌≤◌, ◌∙◌, ap, ◌≡◌, refl, String, Bool, true, false, Option, none, some, List, [], ◌∷◌,
  ◌++◌, lookup, lookup-insert, eq_refl, arith, ◌≢◌,
}
use tclaw.Channel.{MessageSource}
use tclaw.Channel.Activity.{
  ChannelActivity, Timer, Tracker, or_fresh, default_idle_timeout, entry, message_received_from,
  timer_fired, settle, is_busy_entry, fired_entry, received_entry,
}
use tclaw.Channel.Activity.Waiters.{is_pending, Fits, Armed, AllArmed, entry-settle}

pending_deadline :
    (clock : ℕ) (o : Option Timer) (l : Option ℕ)
    → Fits clock o l
    → is_pending o ≡ true
    → (at : ℕ) × (l ≡ some at)
      × (o ≡ some (record { deadline = at + default_idle_timeout; pending = true }))
pending_deadline clock none l f p = cc
pending_deadline clock (some timer) none f p = elim f [ ]
pending_deadline clock (some timer) (some at) f p = (at, refl, ground arith)

covered-pending :
    (clock : ℕ) (e : ChannelActivity) {w : ℕ} {ws : List ℕ}
    → Armed clock e
    → e.idle_waiters ≡ w ∷ ws
    → e.processing ≡ false
    → is_pending e.idle_timer ≡ true
covered-pending clock e a waits idle = ground arith

fired_signals :
    (e : ChannelActivity) (at now : ℕ)
    → e.processing ≡ false
    → e.last_message_at ≡ some at
    → at + default_idle_timeout ≤ now
    → ((fired_entry e now).1 ≡ e.idle_waiters) × ((fired_entry e now).0.idle_waiters ≡ [])
unfolding fired_entry is_busy_entry
fired_signals e at now idle last past = ground arith

timer_fired_settles :
    (t : Tracker) (name : String) (now : ℕ) (e : ChannelActivity)
    → lookup name t.entries ≡ some e
    → ((timer_fired t name now).closed ≡ (fired_entry e now).1 ++ t.closed)
      × (entry (timer_fired t name now) name ≡ (fired_entry e now).0)
unfolding timer_fired
timer_fired_settles t name now e found =
    rw (found, timer_fired)
      (unfold settle in refl, entry-settle name name (fired_entry e now) t ∙ rw (eq_refl name) refl)

-- What the cover is for: on a tracker where all channels are covered, a channel with waiters and
-- no turn running has a pending timer for the moment its cooldown ends, and the callback, at that
-- moment or later, closes every one of the waiters.
pub timer_fired_closes :
    (clock now : ℕ) (t : Tracker) (name : String) (e : ChannelActivity) (w : ℕ) (ws : List ℕ)
    → AllArmed clock t
    → lookup name t.entries ≡ some e
    → e.idle_waiters ≡ w ∷ ws
    → e.processing ≡ false
    → (at : ℕ) × (e.last_message_at ≡ some at)
      × (e.idle_timer ≡ some (record { deadline = at + default_idle_timeout; pending = true }))
      × (at + default_idle_timeout ≤ now
          → ((timer_fired t name now).closed ≡ (w ∷ ws) ++ t.closed)
            × ((entry (timer_fired t name now) name).idle_waiters ≡ []))
unfolding entry
timer_fired_closes clock now t name e w ws all found waits idle =
    let a = rw found at (all name) in
    let (at, last, timer) =
      pending_deadline clock e.idle_timer e.last_message_at a.fits
        (covered-pending clock e a waits idle) in
    let (closes, clears) = timer_fired_settles t name now e found in
    (
      at,
      last,
      timer,
      λ past.
          let (signals, none_left) = fired_signals e at now idle last past in
          (
            closes ∙ ap (λ l. l ++ t.closed) (signals ∙ waits),
            ap (λ (x : ChannelActivity). x.idle_waiters) clears ∙ none_left,
          ),
    )

entry-received :
    (now : ℕ) (t : Tracker) (name : String) (source : MessageSource) (write_ok : Bool)
    → entry (message_received_from t name source write_ok now) name
      ≡ received_entry (entry t name) source now
unfolding message_received_from entry
entry-received now t name source write_ok = ground (
  arith,
  eq_refl name,
  lookup-insert name name (received_entry (or_fresh (lookup name t.entries)) source now) t.entries,
)

-- The gap: a message that arrives in the cooldown of a channel with waiters takes their timer
-- away. No turn runs, no timer is pending and the waiters are all still there, so that they wait
-- for the end of a turn or for another `NotifyIdle`, however long that takes.
pub message_received-disarms :
    (now : ℕ) (t : Tracker) (name : String) (source : MessageSource) (write_ok : Bool)
    → (entry t name).idle_waiters ≢ []
    → (entry t name).processing ≡ false
    → let e = entry (message_received_from t name source write_ok now) name in
      (e.idle_waiters ≡ (entry t name).idle_waiters)
      × (e.processing ≡ false)
      × (e.idle_timer ≡ none)
      × ((clock : ℕ) → ¬ Armed clock e)
unfolding received_entry
message_received-disarms now t name source write_ok waits idle =
    rw (entry-received now t name source write_ok)
      (refl, idle, refl, λ clock a. uncovered (entry t name) clock waits idle a)
  where
    uncovered :
        (e : ChannelActivity) (clock : ℕ)
        → e.idle_waiters ≢ []
        → e.processing ≡ false
        → Armed clock (received_entry e source now)
        → ⊥
    uncovered e clock waits idle a = ground arith
