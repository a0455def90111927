-- ===== src/Queue/Next/Progress.antt =====
-- internal/queue/queue.go: when `Next` is bound to return.
use tclaw.Base.{
  ℕ, ◌+◌, ◌≤◌, ◌<◌, ◌≡◌, refl, ap, ◌∙◌, sym, subst, true, inl, inr, Option, none, some, List, [],
  ◌∷◌, ◌++◌, arith, String, if◌then◌else◌, Bool-cases, leb, keep, ltb,
}
use tclaw.Channel.{TaggedMessage}
use tclaw.Queue.{
  QueuedMessage, Queue, World, queued, tagged, push, persist, try_dequeue, coalesce_batch, in_batch,
  is_batchable, peek_batchable_channel,
}
use tclaw.Queue.Dequeue.{Picks, AllWait, try_dequeue-Picks}
use tclaw.Queue.Coalesce.{
  merged, Coalesced, coalesce_batch-Coalesced, peeked_in_batch, keep-cons-append,
}
use tclaw.Queue.Next.{
  Event, ctx_done, input, input_ended, idle, notified, external, window_elapsed, cap_reached,
  returned, Happened, Run, outcome_of, flush, drop_notify, debounce, debounces, top, after_top,
  select, next, max_batch_window, dequeued, or_dequeue,
}
use tclaw.Queue.Next.Accounts.{push-messages}

returned_at_once :
    (w : World) (q : Queue) (evs : Happened) (selected : Run) (r : Queue × Option TaggedMessage)
    (msg : TaggedMessage)
    → r.1 ≡ some msg
    → after_top w q evs selected (dequeued r) ≡ (r.0, returned msg, evs)
returned_at_once w q evs selected (q', none) msg e = cc
returned_at_once w q evs selected (q', some m) msg e = let same : m ≡ msg = cc in rw same refl

top_off : (w : World) (q : Queue) → q.debounce_window ≡ 0 → top w q ≡ dequeued (try_dequeue w q)
unfolding top
top_off w q off =
    let unread : (if ltb 0 q.debounce_window then peek_batchable_channel w q else none) ≡ none =
      ground arith in
    ap (or_dequeue w q) unread

top_on :
    (w : World) (q : Queue) (id : String)
    → 0 < q.debounce_window
    → peek_batchable_channel w q ≡ some id
    → top w q ≡ debounces id
unfolding top
top_on w q id on peek =
    let read : (if ltb 0 q.debounce_window then peek_batchable_channel w q else none) ≡ some id =
      ground arith in
    ap (or_dequeue w q) read

-- Without debouncing, `Next` returns at once, before any event, whenever some message can be
-- taken: the one that the priorities pick, with the rest of the queue left in order.
pub next-immediate :
    (w : World) (q : Queue) (evs : Happened)
    → q.debounce_window ≡ 0
    → ¬ AllWait w q.messages
    → (m : QueuedMessage) × ((next w q evs).1 ≡ returned (tagged m))
      × ((next w q evs).2 ≡ evs)
      × Picks w q.messages m (next w q evs).0.messages
unfolding next
next-immediate w q evs off some_ready = elim (try_dequeue-Picks w q) [
  | inl (m, e, p) ↦
      let r = returned_at_once w q evs (select q evs) (try_dequeue w q) (tagged m) e in
      let r' = ap (after_top w q evs (select q evs)) (top_off w q off) ∙ r in
      (
        m,
        ap (λ (x : Run). x.1) r',
        ap (λ (x : Run). x.2) r',
        subst (λ (x : Run). Picks w q.messages m x.0.messages) (sym r') p,
      )
  | inr (e, same, all) ↦ absurd (some_ready all)
]

-- The events at which a debouncing `Next` does not give up.
abbrev pub GoesOn : Event → Type 0
GoesOn ctx_done = ⊥
GoesOn input_ended = ⊥
GoesOn _ = Unit

abbrev pub AllGoOn : Happened → Type 0
AllGoOn [] = Unit
AllGoOn ((ev, w) ∷ evs) = GoesOn ev × AllGoOn evs

-- The batch for a channel is not empty.
HasBatch : Queue → String → Type 0
HasBatch q id =
    (b : QueuedMessage) × (bs : List QueuedMessage) × (keep (in_batch q id) q.messages ≡ b ∷ bs)

push-in_batch :
    (w : World) (q : Queue) (msg : TaggedMessage) (id : String)
    → in_batch (push w q msg).0 id ≡ in_batch q id
unfolding in_batch is_batchable push persist
push-in_batch w q msg id = elim (Bool-cases w.write_ok) [
  | inl wrote ↦ rw (wrote, push) refl
  | inr failed_write ↦ rw (failed_write, push) refl
]

push-HasBatch :
    (w : World) (q : Queue) (msg : TaggedMessage) (id : String)
    → HasBatch q id
    → HasBatch (push w q msg).0 id
unfolding HasBatch
push-HasBatch w q msg id (b, bs, e) = (
  b,
  bs ++ keep (in_batch q id) (queued msg w.now ∷ []),
  ap (λ p. keep p (push w q msg).0.messages) (push-in_batch w q msg id)
      ∙ ap (keep (in_batch q id)) (push-messages w q msg)
      ∙ keep-cons-append (in_batch q id) q.messages (queued msg w.now ∷ []) b bs e,
)

drop_notify-HasBatch : (q : Queue) (id : String) → HasBatch q id → HasBatch (drop_notify q) id
unfolding HasBatch in_batch is_batchable
drop_notify-HasBatch q id batch = batch

-- The run ends with a message of the channel.
abbrev pub Returns : String → Run → Type 0
Returns id r = (msg : TaggedMessage) × (r.1 ≡ returned msg) × (msg.channel_id ≡ id)

flush-Returns :
    (w : World) (q : Queue) (id : String) (evs : Happened)
    → HasBatch q id
    → Returns id (flush w q id evs)
unfolding flush HasBatch
flush-Returns w q id evs (b, bs, e) = (
  merged id b bs,
  ap outcome_of
      (subst (λ l. Coalesced q id l (coalesce_batch w q id)) e (coalesce_batch-Coalesced w q id)).0,
  refl,
)

debounce-Returns :
    (id : String) (d c : ℕ) (q : Queue) (evs rest : Happened) (w : World)
    → AllGoOn evs
    → HasBatch q id
    → c ≤ w.now
    → Returns id (debounce id d c q (evs ++ ((cap_reached, w) ∷ rest)))
unfolding debounce
debounce-Returns id d c q [] rest w on batch late =
    let due : leb c w.now ≡ true = ground arith in rw due (flush-Returns w q id rest batch)
debounce-Returns id d c q ((ctx_done, v) ∷ evs) rest w on batch late = elim on.0 [ ]
debounce-Returns id d c q ((input_ended, v) ∷ evs) rest w on batch late = elim on.0 [ ]
debounce-Returns id d c q ((input msg, v) ∷ evs) rest w on batch late =
    debounce-Returns id (v.now + q.debounce_window) c (push v q msg).0 evs rest w on.1
      (push-HasBatch v q msg id batch) late
debounce-Returns id d c q ((external msg, v) ∷ evs) rest w on batch late =
    debounce-Returns id d c (push v q msg).0 evs rest w on.1 (push-HasBatch v q msg id batch) late
debounce-Returns id d c q ((notified, v) ∷ evs) rest w on batch late =
    debounce-Returns id (if q.notify then v.now + q.debounce_window else d) c (drop_notify q) evs
      rest w on.1 (drop_notify-HasBatch q id batch) late
debounce-Returns id d c q ((window_elapsed, v) ∷ evs) rest w on batch late =
    elim (Bool-cases (leb d v.now)) [
      | inl due ↦ rw due (flush-Returns v q id (evs ++ ((cap_reached, w) ∷ rest)) batch)
      | inr early ↦ rw early (debounce-Returns id d c q evs rest w on.1 batch late)
    ]
debounce-Returns id d c q ((cap_reached, v) ∷ evs) rest w on batch late =
    elim (Bool-cases (leb c v.now)) [
      | inl due ↦ rw due (flush-Returns v q id (evs ++ ((cap_reached, w) ∷ rest)) batch)
      | inr early ↦ rw early (debounce-Returns id d c q evs rest w on.1 batch late)
    ]
debounce-Returns id d c q ((idle, v) ∷ evs) rest w on batch late =
    debounce-Returns id d c q evs rest w on.1 batch late

-- A steady trickle of messages cannot defer a batch for ever: if `Next` debounces a channel and
-- is neither cancelled nor cut off from its input, it returns a message of that channel at the
-- latest when the hard cap, five seconds after it began, is reached, whatever arrives before.
pub next-Returns :
    (w w' : World) (q : Queue) (id : String) (evs rest : Happened)
    → 0 < q.debounce_window
    → peek_batchable_channel w q ≡ some id
    → AllGoOn evs
    → w.now + max_batch_window ≤ w'.now
    → Returns id (next w q (evs ++ ((cap_reached, w') ∷ rest)))
unfolding next HasBatch
next-Returns w w' q id evs rest positive peek on late =
    let all = evs ++ ((cap_reached, w') ∷ rest) in
    subst (λ t. Returns id (after_top w q all (select q all) t)) (sym (top_on w q id positive peek))
      (debounce-Returns id (w.now + q.debounce_window) (w.now + max_batch_window) q evs rest w' on
        (peeked_in_batch w q id peek) late)
