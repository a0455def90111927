-- ===== src/Schedule/Tests.antt =====
-- A recurring schedule and a one-shot that are both due, under a cron library that knows one rhythm.
use tclaw.Base.{
  ◌+◌, ◌≡◌, refl, true, false, not, Option, some, List, [], ◌∷◌, ◌++◌, All, ok, arith, ◌==◌, inl,
}
use tclaw.Base.Collections.{Faults}
use tclaw.Channel.{TaggedMessage}
use tclaw.Schedule.{Schedule, active}
use tclaw.Schedule.Scheduler.{
  Cron, Turn, Channels, wait, for_reload, fire_each, compute_next_run, compute_next_run_from_time,
}
use tclaw.Schedule.Waiting.{wait_of_impossible}
use tclaw.Schedule.Firing.{due_messages, fire_each-Sends}
use tclaw.Schedule.Steps.{step-StoreArmed}
use tclaw.Schedule.Ops.{StoreArmed, resumes, step}

abbrev every_minute : Cron
every_minute = record {
  parses = λ expr. not (expr == "");
  known_zone = λ zone. true;
  next = λ expr zone t. t + 60;
}

-- No expression has a next time.
abbrev never : Cron
never = record { parses = λ expr. true; known_zone = λ zone. true; next = λ expr zone t. 0 }

abbrev daily : Schedule
daily = record {
  id = "a";
  cron_expr = "* * * * *";
  prompt = "report";
  channel_name = "main";
  timezone = "";
  status = active;
  once = false;
  created_at = 1;
  last_run_at = 0;
  next_run_at = 90;
}

abbrev reminder : Schedule
reminder = record daily { id = "b"; cron_expr = ""; prompt = "call"; once = true; next_run_at = 95 }

abbrev both : List Schedule
both = daily ∷ reminder ∷ []

abbrev fine : Faults
fine = record { read_ok = true; parse_ok = true; write_ok = true }

abbrev turn : Schedule → Turn
turn s = record { faults = fine; clock = 100; taken = true }

abbrev channels : Option Channels
channels = some (("main", "c1") ∷ [])

wait_of_impossible_example :
    wait never (λ s. 100) (ok (daily ∷ [] ++ (record daily { id = "c"; next_run_at = 0 } ∷ [])))
    ≡ for_reload
unfolding compute_next_run compute_next_run_from_time
wait_of_impossible_example =
    wait_of_impossible never (λ s. 100) (daily ∷ []) (record daily { id = "c"; next_run_at = 0 }) []
      refl refl refl

fire_each-Sends_example :
    (unsent : List TaggedMessage) × (due_messages every_minute turn 100 channels both
      ≡ (fire_each every_minute turn 100 channels (some both) both).1 ++ unsent)
    × (All (λ s. (turn s).taken ≡ true) both → unsent ≡ [])
fire_each-Sends_example = fire_each-Sends every_minute turn 100 channels (some both) both

step-StoreArmed_example :
    StoreArmed every_minute (step every_minute (some both) (resumes fine 100 "b"))
step-StoreArmed_example =
    step-StoreArmed every_minute (some both) (resumes fine 100 "b")
      ((refl, (refl, tt)), (inl (omega arith), (inl (omega arith), tt)))
