-- ===== src/Queue/Next.antt =====
-- internal/queue/queue.go: the loop `Next` with its select statements, over a list of the events
-- that happen, each with the world at that moment. `external` is a push by another goroutine. The
-- two functions return the queue, the outcome and the events that are still to come; `blocked`
-- means that the events ran out first. An event that a select does not listen to, or a timer that
-- is not due, changes nothing.
pub mod Accounts
pub mod Delivery
pub mod Progress
use tclaw.Base.{
  ℕ, zero, suc, ◌+◌, ◌*◌, String, Bool, true, false, Option, none, some, List, [], ◌∷◌, ltb, leb,
  if◌then◌else◌, Result, ok, err,
}
use tclaw.Channel.{TaggedMessage}
use tclaw.Queue.{
  Queue, World, Error, input_closed, cancelled, push, try_dequeue, peek_batchable_channel,
  coalesce_batch,
}

-- Five seconds.
abbrev pub max_batch_window : ℕ
max_batch_window = 5_000_000_000

pub data Event : Type 0 where
  ctx_done : Event
  input : TaggedMessage → Event
  input_ended : Event
  idle : Event
  notified : Event
  external : TaggedMessage → Event
  window_elapsed : Event
  cap_reached : Event

pub data Outcome : Type 0 where
  returned : TaggedMessage → Outcome
  failed : Error → Outcome
  blocked : Outcome

abbrev pub Happened : Type 0
Happened = List (Event × World)

abbrev pub Run : Type 0
Run = Queue × Outcome × Happened

abbrev outcome_of : Result Error TaggedMessage → Outcome
outcome_of (ok msg) = returned msg
outcome_of (err e) = failed e

unfoldable pub flush : World → Queue → String → Happened → Run
flush w q id evs = let (q', r) = coalesce_batch w q id in (q', outcome_of r, evs)

abbrev pub drop_notify : Queue → Queue
drop_notify q = record q { notify = false }

-- `debounceAndCoalesce`: the deadlines of the resettable window and of the hard cap.
unfoldable pub debounce : String → ℕ → ℕ → Queue → Happened → Run
debounce id window_at cap_at q [] = (q, blocked, [])
debounce id window_at cap_at q ((ctx_done, w) ∷ evs) = (q, failed cancelled, evs)
debounce id window_at cap_at q ((input_ended, w) ∷ evs) = (q, failed input_closed, evs)
debounce id window_at cap_at q ((input msg, w) ∷ evs) =
    debounce id (w.now + q.debounce_window) cap_at (push w q msg).0 evs
debounce id window_at cap_at q ((external msg, w) ∷ evs) =
    debounce id window_at cap_at (push w q msg).0 evs
debounce id window_at cap_at q ((notified, w) ∷ evs) =
    debounce id (if q.notify then w.now + q.debounce_window else window_at) cap_at (drop_notify q)
      evs
debounce id window_at cap_at q ((window_elapsed, w) ∷ evs) =
    let later = debounce id window_at cap_at q evs in
    if leb window_at w.now then flush w q id evs else later
debounce id window_at cap_at q ((cap_reached, w) ∷ evs) =
    let later = debounce id window_at cap_at q evs in
    if leb cap_at w.now then flush w q id evs else later
debounce id window_at cap_at q ((idle, w) ∷ evs) = debounce id window_at cap_at q evs

-- The top of the loop: what it does before it reaches the select.
pub data Top : Type 0 where
  delivers : Queue → TaggedMessage → Top
  debounces : String → Top
  selects : Top

abbrev dequeued : Queue × Option TaggedMessage → Top
dequeued (q, none) = selects
dequeued (q, some msg) = delivers q msg

abbrev or_dequeue : World → Queue → Option String → Top
or_dequeue w q none = dequeued (try_dequeue w q)
or_dequeue w q (some id) = debounces id

unfoldable pub top : World → Queue → Top
top w q = or_dequeue w q (if ltb 0 q.debounce_window then peek_batchable_channel w q else none)

-- The rest of a round after its top.
abbrev pub after_top : World → Queue → Happened → Run → Top → Run
after_top w q evs selected (delivers q' msg) = (q', returned msg, evs)
after_top w q evs selected (debounces id) =
    debounce id (w.now + q.debounce_window) (w.now + max_batch_window) q evs
after_top w q evs selected selects = selected

-- The select of `Next`; an event that it takes leads to the top of the loop again.
unfoldable pub select : Queue → Happened → Run
select q [] = (q, blocked, [])
select q ((ctx_done, w) ∷ evs) = (q, failed cancelled, evs)
select q ((input_ended, w) ∷ evs) = (q, failed input_closed, evs)
select q ((input msg, w) ∷ evs) =
    let q' = (push w q msg).0 in
    let selected = select q' evs in after_top w q' evs selected (top w q')
select q ((idle, w) ∷ evs) = let selected = select q evs in after_top w q evs selected (top w q)
select q ((notified, w) ∷ evs) =
    let q' = drop_notify q in
    let selected = select q' evs in
    let woken = after_top w q' evs selected (top w q') in if q.notify then woken else selected
select q ((external msg, w) ∷ evs) = select (push w q msg).0 evs
select q ((window_elapsed, w) ∷ evs) = select q evs
select q ((cap_reached, w) ∷ evs) = select q evs

unfoldable pub next : World → Queue → Happened → Run
next w q evs = let selected = select q evs in after_top w q evs selected (top w q)
