-- ===== src/Schedule.antt =====
-- internal/schedule/schedule.go: a schedule, and the store of a user's schedules. A time is a number,
-- and 0 is Go's zero time, which stands before all others.
pub mod Scheduler
pub mod Waiting
pub mod Firing
pub mod Settling
pub mod Again
pub mod Tools
pub mod Ops
pub mod Arming
pub mod Steps
pub mod Resuming
mod Tests
use tclaw.Base.{ℕ, String, Bool, Option, none, some, List, Result, ok, err, ◌==◌, if◌then◌else◌}
use tclaw.Base.Collections
use tclaw.Base.Collections.{Faults, StoreError, Stored}

-- `Status` is a string type in Go.
pub data Status : Type 0 where
  active : Status
  paused : Status
  other : String → Status

pub record Schedule : Type 0 where
  pub id : String
  pub cron_expr : String
  pub prompt : String
  pub channel_name : String
  pub timezone : String
  pub status : Status
  pub once : Bool
  pub created_at : ℕ
  pub last_run_at : ℕ
  pub next_run_at : ℕ

abbrev pub id_of : Schedule → String
id_of s = s.id

unfoldable pub list : Faults → Stored Schedule → Result StoreError (List Schedule)
list f store = Collections.list f store

abbrev pub found_in :
    String → Result StoreError (List Schedule) → Result StoreError (Option Schedule)
found_in id (err e) = err e
found_in id (ok schedules) = ok (Collections.first id_of id schedules)

unfoldable pub get : Faults → Stored Schedule → String → Result StoreError (Option Schedule)
get f store id = found_in id (list f store)

unfoldable pub add : Faults → Stored Schedule → Schedule → Stored Schedule × Option StoreError
add f store sched = Collections.on_list f store (Collections.appended id_of sched) (list f store)

unfoldable pub update :
    Faults → Stored Schedule → String → (Schedule → Schedule) → Stored Schedule × Option StoreError
update f store id fn = Collections.on_list f store (Collections.updated id_of fn id) (list f store)

unfoldable pub remove : Faults → Stored Schedule → String → Stored Schedule × Option StoreError
remove f store id = Collections.on_list f store (Collections.removed id_of id) (list f store)
