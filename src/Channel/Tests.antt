-- ===== src/Channel/Tests.antt =====
-- The activity tracker on a channel that goes through a turn and its cooldown.
use tclaw.Base.{ℕ, ◌*◌, none, ◌≡◌, refl, true, false, List, [], ◌∷◌, some, arith, lookup}
use tclaw.Channel.{user}
use tclaw.Channel.Activity.{
  Tracker, ChannelActivity, new_tracker, is_busy, entry, message_received_from,
}
use tclaw.Channel.Activity.History.{
  Call, received, started, ended, asked, step, run, observe, is_busy-run,
}
use tclaw.Channel.Activity.Waiters.{Armed, AllArmed, step-AllArmed}
use tclaw.Channel.Activity.Wakeups.{message_received-disarms}

abbrev minute : ℕ
minute = 60_000_000_000

-- A turn on "phone", and a message on another channel behind it.
abbrev turn : List (ℕ × Call)
turn =
    (0, received "phone" user true)
    ∷ (1, started "phone")
    ∷ (minute, asked "phone")
    ∷ (2 * minute, ended "phone")
    ∷ (2 * minute, received "desk" user true)
    ∷ []

is_busy-run_example : is_busy (run new_tracker turn) "phone" (2 * minute) ≡ (true, true)
unfolding observe
is_busy-run_example = is_busy-run turn "phone" (2 * minute)

after_cooldown : is_busy (run new_tracker turn) "phone" (4 * minute) ≡ (false, true)
unfolding observe
after_cooldown = is_busy-run turn "phone" (4 * minute)

-- A channel in its cooldown with two waiters and the timer that is to close them.
abbrev cooling : ChannelActivity
cooling = record {
  processing = false;
  last_message_at = some 0;
  last_message_source = user;
  idle_waiters = 7 ∷ 8 ∷ [];
  idle_timer = some (record { deadline = 3 * minute; pending = true });
}

abbrev waiting : Tracker
waiting = record {
  entries = ("phone", cooling) ∷ [];
  runtime_state = none;
  closed = [];
  next_waiter = 9;
}

cooling-Armed : Armed 0 cooling
cooling-Armed = ground arith

waiting-AllArmed : AllArmed 0 waiting
unfolding entry lookup
waiting-AllArmed name = ground (arith, cooling-Armed)

step-AllArmed_example : AllArmed minute (step waiting (minute, asked "phone"))
step-AllArmed_example =
    step-AllArmed 0 minute waiting (asked "phone") (omega arith) waiting-AllArmed tt

message_received-disarms_example :
    let e = entry (message_received_from waiting "phone" user true minute) "phone" in
    (e.idle_waiters ≡ 7 ∷ 8 ∷ [])
    × (e.processing ≡ false)
    × (e.idle_timer ≡ none)
    × ((clock : ℕ) → ¬ Armed clock e)
unfolding entry lookup
message_received-disarms_example =
    message_received-disarms minute waiting "phone" user true (λ e. cc) refl
