-- ===== src/Outbox/Gaps.antt =====
-- internal/channel/outbox/outbox.go: what the persistence does not keep.
use tclaw.Base.{
  ◌≡◌, refl, ap, ◌∙◌, String, Bool, true, false, some, List, [], ◌∷◌, ◌++◌, lookup, lookup-insert,
  eq_refl,
}
use tclaw.Outbox.{
  Op, ChannelQueue, Outbox, put, queue_of, snapshot, written, persist_channel, maybe_persist,
  append_op, enqueue, dequeue, next_seq, wake_channel, new,
}
use tclaw.Outbox.Sequence.{queue_of-put}
use tclaw.Outbox.Restart.{
  restart, load_persisted, read_back, mentions, restart_of_stored, reloaded_ops_fields,
}

abbrev appended : Outbox → String → Op → ChannelQueue
appended o id op =
    let cq = queue_of o id in
    record cq { ops = cq.ops ++ (record op { seq = next_seq o.seq } ∷ []); dirty = true }

lookup_of_append_op :
    (o : Outbox) (id : String) (op : Op)
    → lookup id (append_op o id op).queues ≡ some (appended o id op)
unfolding append_op
lookup_of_append_op o id op = lookup-insert id id (appended o id op) o.queues ∙ rw (eq_refl id) refl

persist_of_lookup :
    (o : Outbox) (id : String) (cq : ChannelQueue)
    → lookup id o.queues ≡ some cq
    → ((persist_channel true o id).1 ≡ true)
      × ((persist_channel true o id).0
          ≡ written true id (snapshot o cq) (put id (record cq { dirty = false }) o))
unfolding persist_channel
persist_of_lookup o id cq e = (rw (e, persist_channel) refl, rw (e, persist_channel) refl)

stored_on_enqueue :
    (o : Outbox) (id : String) (op : Op)
    → lookup id (enqueue true o id op true).0.store
      ≡ some (snapshot (append_op o id op) (appended o id op))
unfolding enqueue wake_channel put
stored_on_enqueue o id op =
    let o1 = append_op o id op in
    let (stored, after) =
      persist_of_lookup o1 id (appended o id op) (lookup_of_append_op o id op) in
    rw stored (
      rw after
        (lookup-insert id id (snapshot o1 (appended o id op)) o1.store ∙ rw (eq_refl id) refl))

-- A gap in the persistence: an operation has been taken from its queue for delivery, another one is
-- sent on the channel and its write succeeds. A process that dies then, before the delivery is done,
-- comes back with the operations that were behind the one in flight and the new one, and without the
-- one in flight, whatever the store held of it before.
pub in_flight_lost :
    (o : Outbox) (id : String) (cq : ChannelQueue) (op new_op : Op) (ids : List String)
    → lookup id o.queues ≡ some cq
    → (dequeue cq).1 ≡ some op
    → mentions id ids ≡ true
    → let o' = (enqueue true (put id (dequeue cq).0 o) id new_op true).0 in
      (queue_of (restart ids o') id).ops
      ≡ (dequeue cq).0.ops ++ (record new_op { seq = next_seq o.seq } ∷ [])
unfolding put
in_flight_lost o id cq op new_op ids found taken there =
    let o1 = put id (dequeue cq).0 o in
    let state = snapshot (append_op o1 id new_op) (appended o1 id new_op) in
    let same : queue_of o1 id ≡ (dequeue cq).0 =
      queue_of-put id id (dequeue cq).0 o ∙ rw (eq_refl id) refl in
    ap (λ (q : ChannelQueue). q.ops)
      (restart_of_stored (enqueue true o1 id new_op true).0 id ids state
        (stored_on_enqueue o1 id new_op) there)
    ∙ (reloaded_ops_fields state.ops state).0
    ∙ ap (λ (q : ChannelQueue). q.ops ++ (record new_op { seq = next_seq o.seq } ∷ [])) same

persist_failed_of_lookup :
    (o : Outbox) (id : String) (cq : ChannelQueue)
    → lookup id o.queues ≡ some cq
    → persist_channel false o id ≡ (put id (record cq { dirty = false }) o, false)
unfolding persist_channel
persist_failed_of_lookup o id cq e = rw (e, persist_channel) refl

store-append_op : (o : Outbox) (id : String) (op : Op) → (append_op o id op).store ≡ o.store
unfolding append_op put
store-append_op o id op = refl

store-put : (o : Outbox) (id : String) (cq : ChannelQueue) → (put id cq o).store ≡ o.store
unfolding put
store-put o id cq = refl

-- A failed write behind an appended operation: the queue counts as clean, and the store is as before.
failed_write :
    (o : Outbox) (id : String) (op : Op)
    → let o' = (enqueue false o id op true).0 in
      (queue_of o' id ≡ record (appended o id op) { dirty = false }) × (o'.store ≡ o.store)
unfolding enqueue
failed_write o id op =
    let q = record (appended o id op) { dirty = false } in
    let o1 = append_op o id op in
    let found : queue_of (put id q o1) id ≡ q = queue_of-put id id q o1 ∙ rw (eq_refl id) refl in
    rw (persist_failed_of_lookup o1 id (appended o id op) (lookup_of_append_op o id op))
      (found, store-put o1 id q ∙ store-append_op o id op)

-- A failed write is not made up for: an operation that is sent while the write fails stands behind
-- the others of its queue in memory, but the store stays as it was; the periodic write leaves all
-- of this as it is, whether or not a write would succeed by then; and a process that dies then comes
-- back as it would have before the operation was sent.
pub failed_write_not_retried :
    (o : Outbox) (id : String) (op : Op) (ids : List String) (later_ok : Bool)
    → let o' = (enqueue false o id op true).0 in
      ((queue_of o' id).ops ≡ (queue_of o id).ops ++ (record op { seq = next_seq o.seq } ∷ []))
      × (o'.store ≡ o.store)
      × (maybe_persist later_ok o' id ≡ o')
      × (restart ids (maybe_persist later_ok o' id) ≡ restart ids o)
unfolding maybe_persist restart
failed_write_not_retried o id op ids later_ok =
    let (queue, store) = failed_write o id op in
    let o' = (enqueue false o id op true).0 in
    let clean : (queue_of o' id).dirty ≡ false = ap (λ (q : ChannelQueue). q.dirty) queue in
    let idle : maybe_persist later_ok o' id ≡ o' = rw (clean, maybe_persist) refl in
    (
      ap (λ (q : ChannelQueue). q.ops) queue,
      store,
      idle,
      ap (restart ids) idle
          ∙ ap (λ st. load_persisted (λ k. read_back (lookup k st)) ids (new st)) store,
    )
