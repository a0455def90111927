-- ===== src/Outbox/Delivery/Rounds.antt =====
-- internal/channel/outbox/outbox.go: the rounds of `deliverLoop`, and the callers of `Flush`.
use mathlib.Core.List.{append-nil}
use tclaw.Base.{
  ℕ, zero, suc, ◌-◌, ◌≤◌, ◌≡◌, refl, ap, ◌∙◌, sym, String, Bool, true, false, none, some, List, [],
  ◌∷◌, ◌++◌, length, length-append, inl, inr, arith,
}
use tclaw.Outbox.{Op, ChannelQueue, dequeue}
use tclaw.Outbox.Coalescing.{Splits, dequeue-Splits}
use tclaw.Outbox.Delivery.{
  Attempt, Fate, delivered, no_channel, unresolved, requeued, discarded_permanent, skipped,
  exhausted, Delivery, accept, deliver, signal_drain_if_empty, round,
}
use tclaw.Outbox.Delivery.Retry.{LeftBehind, deliver-Tried}

-- No shutdown comes during the attempts.
abbrev pub IsCalm : (ℕ → Attempt) → Type 0
IsCalm att = (k : ℕ) → ((att k).stopped ≡ false) × ((att k).stopped_waiting ≡ false)

-- A queue's operations and its waiters, which a delivery leaves alone.
pub record SameWork (p q : ChannelQueue) : Type 0 where
  pub same_ops : p.ops ≡ q.ops
  pub same_waiters : p.drain_waiters ≡ q.drain_waiters

accept-SameWork : (cq : ChannelQueue) (op : Op) (id : String) → SameWork (accept cq op id) cq
unfolding accept
accept-SameWork cq op id = ground arith

left-SameWork :
    (att : ℕ → Attempt) (cq : ChannelQueue) (op : Op) (q : ChannelQueue) (f : Fate) (d : Delivery)
    → IsCalm att
    → d.fate ≡ f
    → d.queue ≡ q
    → LeftBehind att cq op d
    → SameWork q cq
left-SameWork att cq op q delivered d calm f e l =
    let (k, id, r, same) = rw f at l in rw (sym e ∙ same) (accept-SameWork cq op id)
left-SameWork att cq op q requeued d calm f e l =
    let (k, stop, same) = rw f at l in absurd (ground (arith, calm k))
left-SameWork att cq op q no_channel d calm f e l = ground (arith, rw f at l)
left-SameWork att cq op q unresolved d calm f e l = ground (arith, rw f at l)
left-SameWork att cq op q discarded_permanent d calm f e l = ground (arith, rw f at l)
left-SameWork att cq op q skipped d calm f e l = ground (arith, rw f at l)
left-SameWork att cq op q exhausted d calm f e l = ground (arith, rw f at l)

deliver-SameWork :
    (found : Bool) (att : ℕ → Attempt) (cq : ChannelQueue) (op : Op)
    → IsCalm att
    → SameWork (deliver found att cq op).queue cq
deliver-SameWork true att cq op calm =
    let d = deliver true att cq op in
    left-SameWork att cq op d.queue d.fate d calm refl refl (deliver-Tried att cq op).left
deliver-SameWork false att cq op calm =
    unfold deliver in record { same_ops = refl; same_waiters = refl }

-- What a round without a shutdown does to a queue that nobody is delivering from: it takes
-- something if there is anything, and closes all waiters or none, all of them once it is empty.
pub record RoundEnds (cq : ChannelQueue) (r : Bool × ChannelQueue × List ℕ) : Type 0 where
  pub shorter : length (r.1).ops ≤ length cq.ops - 1
  pub at_rest : (r.1).delivering ≡ false
  pub waiters : r.2 ++ (r.1).drain_waiters ≡ cq.drain_waiters
  pub released : (r.1).ops ≡ [] → (r.1).drain_waiters ≡ []

-- What `signalDrainIfEmpty` does to such a queue.
record SignalEnds (q : ChannelQueue) (s : ChannelQueue × List ℕ) : Type 0 where
  same_ops : (s.0).ops ≡ q.ops
  at_rest : (s.0).delivering ≡ false
  waiters : s.1 ++ (s.0).drain_waiters ≡ q.drain_waiters
  released : (s.0).ops ≡ [] → (s.0).drain_waiters ≡ []

signal-SignalEnds :
    (q : ChannelQueue) → q.delivering ≡ false → SignalEnds q (signal_drain_if_empty q)
unfolding signal_drain_if_empty
signal-SignalEnds q idle = ground (arith, append-nil q.drain_waiters)

round_of_empty :
    (found : Bool) (att : ℕ → Attempt) (cq : ChannelQueue)
    → cq.delivering ≡ false
    → cq.ops ≡ []
    → (dequeue cq).1 ≡ none
    → (dequeue cq).0 ≡ cq
    → RoundEnds cq (round found att cq)
unfolding round
round_of_empty found att cq idle empty nothing same =
    rw (nothing, round)
      (rw same (
        let s = signal-SignalEnds cq idle in
        record {
          shorter = omega (arith, ap (length {0}) s.same_ops, ap (length {0}) empty);
          at_rest = s.at_rest;
          waiters = s.waiters;
          released = s.released;
        }))

dequeue-drain_waiters :
    (cq : ChannelQueue)
    → ((dequeue cq).0.drain_waiters ≡ cq.drain_waiters)
      × ((dequeue cq).0.delivering ≡ cq.delivering)
unfolding dequeue
dequeue-drain_waiters cq = ground arith

Splits-shorter : (ops rest : List Op) (op : Op) → Splits ops op rest → length rest ≤ length ops - 1
Splits-shorter ops rest op s =
    omega (arith, ap (length {0}) s.split, length-append s.skipped (op ∷ rest))

round_of_some :
    (found : Bool) (att : ℕ → Attempt) (cq : ChannelQueue) (op : Op)
    → IsCalm att
    → (dequeue cq).1 ≡ some op
    → Splits cq.ops op (dequeue cq).0.ops
    → RoundEnds cq (round found att cq)
unfolding round
round_of_some found att cq op calm taken split =
    let cq' = record ((dequeue cq).0) { delivering = true } in
    let d = deliver found att cq' op in
    let same = deliver-SameWork found att cq' op calm in
    let s = signal-SignalEnds (record (d.queue) { delivering = false }) refl in
    rw (taken, round)
      (record {
        shorter = omega (
          arith,
          ap (length {0}) s.same_ops,
          ap (length {0}) same.same_ops,
          Splits-shorter cq.ops (dequeue cq).0.ops op split,
        );
        at_rest = s.at_rest;
        waiters = s.waiters ∙ same.same_waiters ∙ (dequeue-drain_waiters cq).0;
        released = s.released;
      })

round-RoundEnds :
    (found : Bool) (att : ℕ → Attempt) (cq : ChannelQueue)
    → IsCalm att
    → cq.delivering ≡ false
    → RoundEnds cq (round found att cq)
round-RoundEnds found att cq calm idle = elim (dequeue-Splits cq) [
  | inl (empty, nothing, same) ↦ round_of_empty found att cq idle empty nothing same
  | inr (op, taken, dirty, split) ↦ round_of_some found att cq op calm taken split
]

-- Several rounds: the queue, and all the waiters closed. The n-th round has its own attempts.
unfoldable pub rounds : Bool → (ℕ → ℕ → Attempt) → ℕ → ChannelQueue → ChannelQueue × List ℕ
rounds found att zero cq = (cq, [])
rounds found att (suc n) cq =
    let (busy, cq', closed) = round found (att n) cq in
    let (cq'', closed') = rounds found att n cq' in (cq'', closed ++ closed')

empty_of_length : (ops : List Op) → length ops ≤ 0 → ops ≡ []
empty_of_length [] h = refl
empty_of_length (x ∷ ops) h = absurd (omega arith)

rounds_end :
    (found : Bool) (att : ℕ → ℕ → Attempt) (n : ℕ) (cq : ChannelQueue)
    → ((k : ℕ) → IsCalm (att k))
    → cq.delivering ≡ false
    → length cq.ops ≤ n
    → (cq.ops ≡ [] → cq.drain_waiters ≡ [])
    → let r = rounds found att n cq in
      (length (r.0).ops ≡ 0) × ((r.0).drain_waiters ≡ []) × (r.1 ≡ cq.drain_waiters)
unfolding rounds
rounds_end found att zero cq calm idle h released =
    let none_left = released (empty_of_length cq.ops h) in (omega arith, none_left, sym none_left)
rounds_end found att (suc n) cq calm idle h released =
    let e = round-RoundEnds found (att n) cq (calm n) idle in
    let ih =
      rounds_end found att n (round found (att n) cq).1 calm e.at_rest (omega arith) e.released in
    (ih.0, ih.1, ap (◌++◌ (round found (att n) cq).2) ih.2 ∙ e.waiters)

-- What `Flush` of one channel waits for comes about once the sending stops: if nothing is enqueued on
-- this queue during or between the rounds, no shutdown intervenes and no delivery is under way at the
-- start, then after one more round than the queue has operations, whatever the transport answers,
-- the queue is empty and exactly the waiters that were there at the start have been closed.
pub flush_ends :
    (found : Bool) (att : ℕ → ℕ → Attempt) (cq : ChannelQueue)
    → ((k : ℕ) → IsCalm (att k))
    → cq.delivering ≡ false
    → let r = rounds found att (suc (length cq.ops)) cq in
      ((r.0).ops ≡ []) × ((r.0).drain_waiters ≡ []) × (r.1 ≡ cq.drain_waiters)
unfolding rounds
flush_ends found att cq calm idle =
    let n = length cq.ops in
    let e = round-RoundEnds found (att n) cq (calm n) idle in
    let (empty, gone, rest) =
      rounds_end found att n (round found (att n) cq).1 calm e.at_rest (omega arith) e.released in
    (
      empty_of_length _ (omega (arith, empty)),
      gone,
      ap (◌++◌ (round found (att n) cq).2) rest ∙ e.waiters,
    )
