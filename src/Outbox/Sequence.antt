-- ===== src/Outbox/Sequence.antt =====
-- internal/channel/outbox/outbox.go: the sequence numbers of the queued operations.
use tclaw.Base.{
  ℕ, ◌+◌, ◌^◌, ◌<◌, ◌≤◌, ◌≡◌, refl, ap, ◌∙◌, sym, subst, String, Bool, true, false, some, List, [],
  ◌∷◌, ◌++◌, if◌then◌else◌, Option-cases, inl, inr, Bool-cases, arith, lookup, lookup-insert, ◌==◌,
}
use tclaw.Outbox.{
  Op, ChannelQueue, Outbox, next_seq, dequeue_ops, append_op, put, queue_of, persist_channel,
  enqueue, wake_channel, is_superseded, PersistedState, written, snapshot,
}

-- Strictly rising, from above `low` up to `high`.
abbrev pub Rises : ℕ → ℕ → List Op → Type 0
Rises low high [] = Unit
Rises low high (op ∷ ops) = (low < op.seq) × (op.seq ≤ high) × Rises op.seq high ops

Rises-append :
    (low high n : ℕ) (ops : List Op) (op : Op)
    → Rises low high ops
    → high < op.seq
    → low ≤ high
    → op.seq ≤ n
    → Rises low n (ops ++ (op ∷ []))
Rises-append low high n [] op r above ordered top = ground arith
Rises-append low high n (x ∷ ops) op r above ordered top =
    (r.0, omega arith, Rises-append x.seq high n ops op r.2 above r.1 top)

Rises-low :
    (low low' high : ℕ) (ops : List Op) → low ≤ low' → Rises low' high ops → Rises low high ops
Rises-low low low' high [] h r = tt
Rises-low low low' high (x ∷ ops) h r = (omega arith, r.1, r.2)

dequeue_ops-Rises :
    (low high : ℕ) (ops : List Op) (op : Op) (rest : List Op)
    → Rises low high ops
    → dequeue_ops ops ≡ some (op, rest)
    → Rises low high (op ∷ rest)
unfolding dequeue_ops
dequeue_ops-Rises low high [] op rest r e = cc
dequeue_ops-Rises low high (x ∷ ops) op rest r e = elim (Bool-cases (is_superseded x ops)) [
  | inl superseded ↦
      Rises-low low x.seq high (op ∷ rest) (omega arith)
        (dequeue_ops-Rises x.seq high ops op rest r.2 (ground arith))
  | inr survives ↦
      let same_op : x ≡ op = ground arith in
      let same_rest : ops ≡ rest = ground arith in
      subst (Rises low high) (ap (λ y. y ∷ ops) same_op ∙ ap (◌∷◌ op) same_rest) r
]

Rises-high :
    (low high high' : ℕ) (ops : List Op) → high ≤ high' → Rises low high ops → Rises low high' ops
Rises-high low high high' [] h r = tt
Rises-high low high high' (x ∷ ops) h r = (r.0, omega arith, Rises-high x.seq high high' ops h r.2)

-- In every channel's queue the numbers rise and are at most the counter.
abbrev pub Ordered : Outbox → Type 0
Ordered o = (id : String) → Rises 0 o.seq (queue_of o id).ops

pub queue_of-put :
    (id other : String) (cq : ChannelQueue) (o : Outbox)
    → queue_of (put id cq o) other ≡ (if id == other then cq else queue_of o other)
unfolding queue_of put
queue_of-put id other cq o = ground (arith, lookup-insert id other cq o.queues)

-- A queue with operations as before may be put back with other flags.
put-Ordered :
    (id : String) (cq : ChannelQueue) (o : Outbox)
    → Ordered o
    → Rises 0 o.seq cq.ops
    → Ordered (put id cq o)
unfolding put
put-Ordered id cq o all r other = elim (Bool-cases (id == other)) [
  | inl same ↦
      let e : (if id == other then cq else queue_of o other) ≡ cq = rw same refl in
      subst (λ (q : ChannelQueue). Rises 0 o.seq q.ops) (sym (queue_of-put id other cq o ∙ e)) r
  | inr differ ↦
      let e : (if id == other then cq else queue_of o other) ≡ queue_of o other = rw differ refl in
      subst (λ (q : ChannelQueue). Rises 0 o.seq q.ops) (sym (queue_of-put id other cq o ∙ e))
        (all other)
]

append_op-Ordered :
    (o : Outbox) (id : String) (op : Op)
    → Ordered o
    → o.seq + 1 < 2 ^ 64
    → Ordered (append_op o id op)
unfolding append_op
append_op-Ordered o id op all room =
    let n = next_seq o.seq in
    let e : n ≡ o.seq + 1 = omega arith in
    let cq = queue_of o id in
    put-Ordered id (record cq { ops = cq.ops ++ (record op { seq = n } ∷ []); dirty = true })
      (record o { seq = n })
      (λ other. Rises-high 0 o.seq n (queue_of o other).ops (omega arith) (all other))
      (Rises-append 0 o.seq n cq.ops (record op { seq = n }) (all id) (omega arith) (omega arith)
        (omega arith))

wake_channel-Ordered : (o : Outbox) (id : String) → Ordered o → Ordered (wake_channel o id)
unfolding wake_channel
wake_channel-Ordered o id all =
    put-Ordered id (record (queue_of o id) { wake = true }) o all (all id)

written-Ordered :
    (write_ok : Bool) (id : String) (state : PersistedState) (o : Outbox)
    → Ordered o
    → Ordered (written write_ok id state o)
unfolding queue_of
written-Ordered true id state o all = all
written-Ordered false id state o all = all

persist_channel-Ordered :
    (write_ok : Bool) (o : Outbox) (id : String)
    → Ordered o
    → Ordered (persist_channel write_ok o id).0
unfolding persist_channel queue_of
persist_channel-Ordered write_ok o id all = elim (Option-cases (lookup id o.queues)) [
  | inl e ↦ rw (e, persist_channel) all
  | inr (cq, e) ↦
      rw (e, persist_channel)
        (written-Ordered write_ok id (snapshot o cq) (put id (record cq { dirty = false }) o) (
          put-Ordered id (record cq { dirty = false }) o all
            (let found : queue_of o id ≡ cq = rw (e, queue_of) refl in
              subst (λ (q : ChannelQueue). Rises 0 o.seq q.ops) found (all id))))
]

-- Every `Send`, `Edit` and `Done` keeps the queues ordered, on each of its branches, until the
-- 64-bit counter is used up: the sequence numbers of each channel rise strictly from front to
-- back, and no number in a queue is above the counter.
pub enqueue-Ordered :
    (write_ok : Bool) (o : Outbox) (id : String) (op : Op) (persist : Bool)
    → Ordered o
    → o.seq + 1 < 2 ^ 64
    → Ordered (enqueue write_ok o id op persist).0
unfolding enqueue
enqueue-Ordered write_ok o id op persist all room =
    let o1 = append_op o id op in
    let all1 = append_op-Ordered o id op all room in
    let all2 = persist_channel-Ordered write_ok o1 id all1 in
    elim (Bool-cases persist) [
      | inl persisted ↦ rw persisted (elim (Bool-cases (persist_channel write_ok o1 id).1) [
        | inl stored ↦ rw stored (wake_channel-Ordered (persist_channel write_ok o1 id).0 id all2)
        | inr lost ↦ rw lost all2
      ])
      | inr later ↦ rw later (wake_channel-Ordered o1 id all1)
    ]
