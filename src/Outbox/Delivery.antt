-- ===== src/Outbox/Delivery.antt =====
-- internal/channel/outbox/outbox.go: `deliver` with its retries, a round of `deliverLoop`, and
-- `Flush`, for one channel. What the transport answers, and whether the context is found cancelled
-- after a failed attempt or during the wait behind it, is an argument for each attempt. Other
-- goroutines are taken to enqueue before or after a delivery, not during one.
pub mod Retry
pub mod Rounds
use tclaw.Base.{
  ℕ, zero, suc, ◌+◌, ◌*◌, ◌<◌, ◌≤◌, String, Bool, true, false, not, ◌&&◌, ◌||◌, Option, none, some,
  List, [], ◌∷◌, ◌++◌, leb, ltb, if◌then◌else◌, lookup, insert, ◌==◌, length,
}
use tclaw.Outbox.{
  Outbox, Op, op_send, op_edit, op_done, ChannelQueue, dequeue, is_permanent_error,
  is_skippable_error,
}

pub data Reply : Type 0 where
  accepted : String → Reply
  refused : String → Reply

pub record Attempt : Type 0 where
  pub reply : Reply
  pub stopped : Bool
  pub stopped_waiting : Bool

-- The calls of the transport.
pub data Call : Type 0 where
  sends : String → Bool → Bool → Call
  edits : String → String → Call
  dones : Call

-- How `deliver` ends.
pub data Fate : Type 0 where
  delivered : Fate
  no_channel : Fate
  unresolved : Fate
  requeued : Fate
  discarded_permanent : Fate
  skipped : Fate
  exhausted : Fate

pub record Delivery : Type 0 where
  pub queue : ChannelQueue
  pub fate : Fate
  pub calls : List Call
  pub waits : List ℕ

abbrev pub max_delay : ℕ
max_delay = 30

abbrev pub max_retries : ℕ
max_retries = 50

unfoldable pub next_delay : ℕ → ℕ
next_delay delay =
    if ltb delay max_delay
    then (if ltb max_delay (delay * 2) then max_delay else delay * 2)
    else delay

abbrev or_empty : Option String → String
or_empty none = ""
or_empty (some id) = id

unfoldable pub resolve_proxy_id : ChannelQueue → String → String
resolve_proxy_id cq proxy_id = or_empty (lookup proxy_id cq.proxy_map)

-- The call that an operation stands for; an edit of a message without a real id stands for none.
unfoldable pub call_of : ChannelQueue → Op → Option Call
call_of cq op = elim op.kind [
  | op_send ↦ some (sends op.text op.notify op.rich)
  | op_edit ↦
      let real_id = resolve_proxy_id cq op.target_id in
      if real_id == "" then none else some (edits real_id op.text)
  | op_done ↦ some dones
]

-- A send that is accepted records the real id of its message.
unfoldable pub accept : ChannelQueue → Op → String → ChannelQueue
accept cq op real_id = elim op.kind [
  | op_send ↦ record cq { proxy_map = insert op.proxy_id real_id cq.proxy_map; dirty = true }
  | op_edit ↦ cq
  | op_done ↦ cq
]

abbrev pub requeue : ChannelQueue → Op → ChannelQueue
requeue cq op = record cq { ops = op ∷ cq.ops; dirty = true }

abbrev ends : ChannelQueue → Fate → List Call → List ℕ → Delivery
ends cq fate calls waits = record { queue = cq; fate = fate; calls = calls; waits = waits }

abbrev behind : Call → ℕ → Delivery → Delivery
behind call delay d = record d { calls = call ∷ d.calls; waits = delay ∷ d.waits }

-- What follows a refused call; `later` is the rest of the loop.
unfoldable pub after_refusal : Attempt → String → Call → ℕ → ChannelQueue → Op → Delivery → Delivery
after_refusal att msg call delay cq op later =
    if att.stopped
    then ends (requeue cq op) requeued (call ∷ []) []
    else if is_permanent_error msg
    then ends cq discarded_permanent (call ∷ []) []
    else if is_skippable_error msg
    then ends cq skipped (call ∷ []) []
    else if att.stopped_waiting
    then ends (requeue cq op) requeued (call ∷ []) (delay ∷ [])
    else behind call delay later

-- The loop of `deliver`, on the attempts that are left.
unfoldable pub attempts : (ℕ → Attempt) → ℕ → ℕ → ℕ → ChannelQueue → Op → Delivery
attempts att zero i delay cq op = ends cq exhausted [] []
attempts att (suc n) i delay cq op =
    let later = attempts att n (suc i) (next_delay delay) cq op in
    elim (call_of cq op) [
      | none ↦ ends cq unresolved [] []
      | some call ↦ elim (att i).reply [
        | accepted real_id ↦ ends (accept cq op real_id) delivered (call ∷ []) []
        | refused msg ↦ after_refusal (att i) msg call delay cq op later
      ]
    ]

unfoldable pub deliver : Bool → (ℕ → Attempt) → ChannelQueue → Op → Delivery
deliver found att cq op =
    if found then attempts att (suc max_retries) 0 1 cq op else ends cq no_channel [] []

-- `signalDrainIfEmpty`: the queue and the waiters that are closed.
unfoldable pub signal_drain_if_empty : ChannelQueue → ChannelQueue × List ℕ
signal_drain_if_empty cq = elim cq.ops [
  | [] ↦ if cq.delivering then (cq, []) else (record cq { drain_waiters = [] }, cq.drain_waiters)
  | op ∷ ops ↦ (cq, [])
]

-- A round of `deliverLoop` that finds the context alive: whether it delivered something, the
-- queue, and the waiters closed.
abbrev rounded : Bool → (ℕ → Attempt) → ChannelQueue → Option Op → Bool × ChannelQueue × List ℕ
rounded found att cq none = let (cq', closed) = signal_drain_if_empty cq in (false, cq', closed)
rounded found att cq (some op) =
    let d = deliver found att (record cq { delivering = true }) op in
    let (cq', closed) = signal_drain_if_empty (record (d.queue) { delivering = false }) in
    (true, cq', closed)

unfoldable pub round : Bool → (ℕ → Attempt) → ChannelQueue → Bool × ChannelQueue × List ℕ
round found att cq = let (cq', taken) = dequeue cq in rounded found att cq' taken

-- `Flush` on one channel: it joins the waiters unless there is nothing to wait for.
unfoldable pub flush_channel : ℕ → ChannelQueue → ChannelQueue × Bool
flush_channel w cq =
    let joined = record cq { drain_waiters = cq.drain_waiters ++ (w ∷ []); wake = true } in
    elim cq.ops [
      | [] ↦ if cq.delivering then (joined, true) else (cq, false)
      | op ∷ ops ↦ (joined, true)
    ]
