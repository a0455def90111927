-- ===== src/Outbox/Tests.antt =====
-- The outbox on small inputs: streamed edits, a transport that answers late, a restart.
use tclaw.Base.{
  ℕ, zero, suc, ◌≡◌, ◌≢◌, refl, true, false, [], ◌∷◌, ◌++◌, arith, lookup, keep, length,
}
use tclaw.Outbox.{
  Op, ChannelQueue, Outbox, send_op, edit_op, done_op, next_seq, dequeue, dequeue_ops, enqueue,
  queue_of, put, persist_channel_locked, maybe_persist,
}
use tclaw.Outbox.Drain.{drain, is_no_edit, edits_message, last_only, drain_takes}
use tclaw.Outbox.Sequence.{Ordered}
use tclaw.Outbox.Restart.{restart, stop-restart}
use tclaw.Outbox.Gaps.{in_flight_lost, failed_write_not_retried}
use tclaw.Outbox.Delivery.{Attempt, accepted, refused, deliver, max_retries}
use tclaw.Outbox.Delivery.Retry.{Tried, deliver-Tried}
use tclaw.Outbox.Delivery.Rounds.{rounds, flush_ends}

abbrev numbered : ℕ → Op → Op
numbered n op = record op { seq = n }

-- A message with two edits, and the end of the turn.
abbrev streamed : ChannelQueue
streamed = record {
  ops =
      numbered 1 (send_op "c1" "p1" "…" true false)
      ∷ numbered 2 (edit_op "c1" "p1" "Hel")
      ∷ numbered 3 (edit_op "c1" "p1" "Hello")
      ∷ numbered 4 (done_op "c1")
      ∷ [];
  proxy_map = [];
  wake = true;
  drain_waiters = 5 ∷ [];
  delivering = false;
  dirty = true;
}

abbrev outbox : Outbox
outbox = record {
  store = [];
  queues = ("c1", streamed) ∷ [];
  seq = 4;
  closed = [];
  next_waiter = 6;
}

drain_takes_example :
    let taken = drain (length streamed.ops) streamed in
    (keep is_no_edit taken ≡ keep is_no_edit streamed.ops)
    × (keep (edits_message "p1") taken ≡ last_only (keep (edits_message "p1") streamed.ops))
drain_takes_example = drain_takes streamed "p1"

drained :
    drain 4 streamed
    ≡ numbered 1 (send_op "c1" "p1" "…" true false)
      ∷ numbered 3 (edit_op "c1" "p1" "Hello")
      ∷ numbered 4 (done_op "c1")
      ∷ []
unfolding drain dequeue dequeue_ops
drained = refl

-- Refused once, then accepted.
abbrev flaky : ℕ → Attempt
flaky zero = record { reply = refused "timeout"; stopped = false; stopped_waiting = false }
flaky (suc n) = record { reply = accepted "m1"; stopped = false; stopped_waiting = false }

deliver-Tried_example :
    Tried flaky
      (suc max_retries)
      0
      streamed
      (send_op "c1" "p1" "…" true false)
      (deliver true flaky streamed (send_op "c1" "p1" "…" true false))
deliver-Tried_example = deliver-Tried flaky streamed (send_op "c1" "p1" "…" true false)

flaky_calm : (j k : ℕ) → ((flaky k).stopped ≡ false) × ((flaky k).stopped_waiting ≡ false)
flaky_calm j zero = (refl, refl)
flaky_calm j (suc k) = (refl, refl)

abbrev each_round : ℕ → ℕ → Attempt
each_round n = flaky

flush_ends_example :
    let r = rounds true each_round 5 streamed in
    ((r.0).ops ≡ []) × ((r.0).drain_waiters ≡ []) × (r.1 ≡ 5 ∷ [])
flush_ends_example = flush_ends true each_round streamed flaky_calm refl

outbox-Ordered : Ordered outbox
unfolding queue_of lookup
outbox-Ordered id = ground arith

stop-restart_example :
    let q = queue_of (restart ("c1" ∷ []) (persist_channel_locked true outbox "c1")) "c1" in
    (q.ops ≡ streamed.ops)
    × (streamed.ops ≢ [] → q.proxy_map ≡ streamed.proxy_map)
    × (streamed.ops ≡ [] → q.proxy_map ≡ [])
unfolding queue_of lookup
stop-restart_example = stop-restart outbox "c1" ("c1" ∷ []) refl

in_flight_lost_example :
    let o' = (enqueue true (put "c1" (dequeue streamed).0 outbox) "c1" (done_op "c1") true).0 in
    (queue_of (restart ("c1" ∷ []) o') "c1").ops
    ≡ (dequeue streamed).0.ops ++ (numbered 5 (done_op "c1") ∷ [])
unfolding dequeue dequeue_ops lookup
in_flight_lost_example =
    in_flight_lost outbox "c1" streamed (numbered 1 (send_op "c1" "p1" "…" true false))
      (done_op "c1") ("c1" ∷ []) refl refl refl

failed_write_not_retried_example :
    let o' = (enqueue false outbox "c1" (done_op "c1") true).0 in
    ((queue_of o' "c1").ops
      ≡ (queue_of outbox "c1").ops ++ (record (done_op "c1") { seq = next_seq outbox.seq } ∷ []))
    × (o'.store ≡ outbox.store)
    × (maybe_persist true o' "c1" ≡ o')
    × (restart ("c1" ∷ []) (maybe_persist true o' "c1") ≡ restart ("c1" ∷ []) outbox)
failed_write_not_retried_example =
    failed_write_not_retried outbox "c1" (done_op "c1") ("c1" ∷ []) true
