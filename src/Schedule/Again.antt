-- ===== src/Schedule/Again.antt =====
-- internal/schedule/scheduler.go: what one pass of `fireReadySchedules` leaves in the store, and a
-- second pass after it.
use tclaw.Base.{ℕ, ◌<◌, ◌≡◌, ◌≢◌, ◌⊎◌, String, true}
use tclaw.Schedule.{Schedule}
use tclaw.Schedule.Scheduler.{Cron, or_local, resolve_location}

-- Documented of the cron library: the next time of an expression lies after the time asked for, or
-- is the zero time, if none is found.
abbrev pub FindsLater : Cron → Type 0
FindsLater c =
    (expr zone : String) (t : ℕ)
    → c.parses expr ≡ true
    → (c.next expr zone t ≡ 0) ⊎ (t < c.next expr zone t)

-- Whenever it is asked, the library finds a next time of the schedule, if it has an expression.
abbrev pub HasNext : Cron → Schedule → Type 0
HasNext c s =
    (t : ℕ)
    → c.parses s.cron_expr ≡ true
    → c.next s.cron_expr (or_local (resolve_location c s.timezone)) t ≢ 0
