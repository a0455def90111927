-- ===== src/Queue/Tests.antt =====
-- The queue on small inputs: a schedule's message for a busy channel, a photo album, a restart.
use mathlib.Core.List.{Perm}
use tclaw.Base.{
  All, ℕ, ◌+◌, ◌≡◌, ◌≢◌, refl, String, true, false, Option, none, some, List, [], ◌∷◌, ◌++◌, arith,
  lookup, ◌⊎◌, keep, find_index,
}
use tclaw.Channel.{MessageSourceInfo, user, schedule}
use tclaw.Channel.Activity.{ChannelActivity, is_busy}
use tclaw.Queue.{
  QueuedMessage, Queue, World, new, try_dequeue, coalesce_batch, in_batch, tagged,
  peek_batchable_channel, is_deliverable, is_user_message, is_resume_message, is_batchable,
  dequeue_index, resolve_channel_name,
}
use tclaw.Queue.Dequeue.{Picks, AllWait, try_dequeue-Picks}
use tclaw.Queue.Coalesce.{Coalesced, coalesce_batch-Coalesced}
use tclaw.Queue.Restart.{pushes, dequeues, run, restart, restart-run}
use tclaw.Queue.Idle.{IsBusy, IsNamed, merged, idle_notify_for_queued, idle_notify_of_nothing}
use tclaw.Queue.Next.{input, notified, cap_reached, Happened, next, max_batch_window}
use tclaw.Queue.Next.Accounts.{StandsFor, arrivals}
use tclaw.Queue.Next.Delivery.{next-Accounts}
use tclaw.Queue.Next.Progress.{Returns, next-Returns}

abbrev from_schedule : Option MessageSourceInfo
from_schedule = some (record {
  source = schedule;
  from_channel = "";
  schedule_name = "morning";
  subscription_id = "";
  subscription_label = "";
  child_channel = "";
})

abbrev busy_phone : ChannelActivity
busy_phone = record {
  processing = true;
  last_message_at = none;
  last_message_source = user;
  idle_waiters = [];
  idle_timer = none;
}

abbrev world : World
world = record {
  channels = ("c1", "phone") ∷ [];
  activity = record {
    entries = ("phone", busy_phone) ∷ [];
    runtime_state = none;
    closed = [];
    next_waiter = 0;
  };
  now = 100;
  write_ok = true;
}

abbrev typed : String → QueuedMessage
typed text = record { channel_id = "c1"; text = text; source_info = none; queued_at = 1 }

abbrev scheduled : QueuedMessage
scheduled = record { channel_id = "c1"; text = "brief"; source_info = from_schedule; queued_at = 0 }

abbrev queue : ℕ → List QueuedMessage → Queue
queue window messages = record {
  store = none;
  debounce_window = window;
  is_control_message = none;
  messages = messages;
  interrupted_channel = "";
  notify = false;
}

abbrev album : Queue
album = queue 10 (scheduled ∷ typed "one" ∷ typed "two" ∷ [])

try_dequeue-Picks_example :
    ((m : QueuedMessage) × ((try_dequeue world album).1 ≡ some (tagged m))
      × Picks world album.messages m (try_dequeue world album).0.messages)
    ⊎ (((try_dequeue world album).1 ≡ none)
        × ((try_dequeue world album).0 ≡ album)
        × AllWait world album.messages)
try_dequeue-Picks_example = try_dequeue-Picks world album

takes_typed : (try_dequeue world album).1 ≡ some (tagged (typed "one"))
unfolding try_dequeue dequeue_index find_index is_user_message is_resume_message is_deliverable
takes_typed = refl

coalesce_batch-Coalesced_example :
    Coalesced album "c1"
      (keep (in_batch album "c1") album.messages)
      (coalesce_batch world album "c1")
coalesce_batch-Coalesced_example = coalesce_batch-Coalesced world album "c1"

restart-run_example :
    let q = run (new none 0 none) (
      (world, pushes (tagged scheduled))
      ∷ (world, pushes (tagged (typed "one")))
      ∷ (world, dequeues)
      ∷ []) in
    ((restart q).0.messages ≡ q.messages)
    × ((restart q).0.interrupted_channel ≡ q.interrupted_channel)
    × ((restart q).1 ≡ none)
restart-run_example =
    restart-run 0 none
      ((world, pushes (tagged scheduled))
        ∷ (world, pushes (tagged (typed "one")))
        ∷ (world, dequeues)
        ∷ [])
      (refl, (refl, (refl, tt)))

-- The schedule's message waits for the busy channel.
idle_notify_of_nothing_example :
    let q = queue 0 (scheduled ∷ []) in
    ((q.messages ≡ []) × (idle_notify_for_queued world q ≡ (world.activity, none)))
    ⊎ ((q.messages ≢ [])
        × ((names : List String) × All (IsBusy world) names
            × All (IsNamed world names) q.messages
            × (idle_notify_for_queued world q ≡ merged world names)))
unfolding try_dequeue dequeue_index find_index is_user_message is_resume_message is_deliverable
    resolve_channel_name lookup is_busy
idle_notify_of_nothing_example = idle_notify_of_nothing world (queue 0 (scheduled ∷ [])) refl

abbrev events : Happened
events = (input (tagged (typed "three")), world) ∷ (notified, world) ∷ []

abbrev at_cap : World
at_cap = record world { now = 100 + max_batch_window }

next-Accounts_example :
    let r = next world album (events ++ ((cap_reached, at_cap) ∷ [])) in
    (taken : List QueuedMessage) × StandsFor r.1 taken
    × Perm
        (album.messages ++ arrivals (events ++ ((cap_reached, at_cap) ∷ [])))
        (taken ++ (r.0.messages ++ arrivals r.2))
next-Accounts_example = next-Accounts world album (events ++ ((cap_reached, at_cap) ∷ []))

next-Returns_example : Returns "c1" (next world album (events ++ ((cap_reached, at_cap) ∷ [])))
unfolding peek_batchable_channel dequeue_index find_index is_user_message is_resume_message
    is_deliverable is_batchable
next-Returns_example =
    next-Returns world at_cap album "c1" events [] (omega arith) refl (tt, (tt, tt)) (omega arith)
