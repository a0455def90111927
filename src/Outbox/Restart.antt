-- ===== src/Outbox/Restart.antt =====
-- internal/channel/outbox/outbox.go: `loadPersisted`, and what a new process finds of the queues of
-- the old one.
use tclaw.Base.{
  ℕ, ◌≡◌, refl, ap, ◌∙◌, sym, subst, String, Bool, true, Option, none, some, List, [], ◌∷◌,
  if◌then◌else◌, ltb, inl, inr, ◌≢◌, Bool-cases, arith, lookup, lookup-insert, eq_iff, eq_refl,
  ◌==◌, any,
}
use tclaw.Outbox.{
  Op, PersistedState, ChannelQueue, Outbox, empty_queue, new, put, queue_of, snapshot,
  persist_channel_locked,
}
use tclaw.Outbox.Sequence.{queue_of-put}

-- What reading and decoding a channel's entry gives.
pub data Read : Type 0 where
  unreadable : Read
  undecodable : Read
  absent : Read
  present : PersistedState → Read

abbrev pub read_back : Option PersistedState → Read
read_back none = absent
read_back (some state) = present state

abbrev max_seq : ℕ → ℕ → ℕ
max_seq stored seq = if ltb seq stored then stored else seq

-- A state without operations is passed over, its proxy map and counter included.
abbrev pub restored : List Op → PersistedState → String → Outbox → Outbox
restored [] state id o = o
restored (op ∷ ops) state id o =
    put id (record empty_queue { ops = op ∷ ops; proxy_map = state.proxy_map })
      (record o { seq = max_seq state.seq o.seq })

unfoldable pub load_channel : Read → String → Outbox → Outbox
load_channel unreadable id o = o
load_channel undecodable id o = o
load_channel absent id o = o
load_channel (present state) id o = restored state.ops state id o

unfoldable pub load_persisted : (String → Read) → List String → Outbox → Outbox
load_persisted read [] o = o
load_persisted read (id ∷ ids) o = load_persisted read ids (load_channel (read id) id o)

-- A new process over the same store, with the given channels.
unfoldable pub restart : List String → Outbox → Outbox
restart ids o = load_persisted (λ id. read_back (lookup id o.store)) ids (new o.store)

-- The queue that loading makes of the one in memory.
abbrev pub reloaded_ops : List Op → PersistedState → ChannelQueue → ChannelQueue
reloaded_ops [] state cq = cq
reloaded_ops (op ∷ ops) state cq = record empty_queue {
  ops = op ∷ ops;
  proxy_map = state.proxy_map;
}

pub reloaded : Read → ChannelQueue → ChannelQueue
reloaded unreadable cq = cq
reloaded undecodable cq = cq
reloaded absent cq = cq
reloaded (present state) cq = reloaded_ops state.ops state cq

restored-queue_of :
    (ops : List Op) (state : PersistedState) (id other : String) (o : Outbox)
    → queue_of (restored ops state id o) other
      ≡ (if id == other then reloaded_ops ops state (queue_of o other) else queue_of o other)
unfolding queue_of
restored-queue_of [] state id other o = ground arith
restored-queue_of (op ∷ ops) state id other o =
    queue_of-put id other (record empty_queue { ops = op ∷ ops; proxy_map = state.proxy_map })
      (record o { seq = max_seq state.seq o.seq })

load_channel-queue_of :
    (r : Read) (id other : String) (o : Outbox)
    → queue_of (load_channel r id o) other
      ≡ (if id == other then reloaded r (queue_of o other) else queue_of o other)
unfolding load_channel queue_of reloaded
load_channel-queue_of unreadable id other o = ground arith
load_channel-queue_of undecodable id other o = ground arith
load_channel-queue_of absent id other o = ground arith
load_channel-queue_of (present state) id other o = restored-queue_of state.ops state id other o

reloaded_ops_twice :
    (ops : List Op) (state : PersistedState) (cq : ChannelQueue)
    → reloaded_ops ops state (reloaded_ops ops state cq) ≡ reloaded_ops ops state cq
reloaded_ops_twice [] state cq = refl
reloaded_ops_twice (op ∷ ops) state cq = refl

reloaded_twice : (r : Read) (cq : ChannelQueue) → reloaded r (reloaded r cq) ≡ reloaded r cq
unfolding reloaded
reloaded_twice unreadable cq = refl
reloaded_twice undecodable cq = refl
reloaded_twice absent cq = refl
reloaded_twice (present state) cq = reloaded_ops_twice state.ops state cq

abbrev pub mentions : String → List String → Bool
mentions id ids = any (λ x. x == id) ids

once_more :
    (x : String) (ids : List String) (id : String) (rx rid : Read) (cq : ChannelQueue)
    {q r : ChannelQueue}
    → (x ≡ id → rx ≡ rid)
    → q ≡ (if x == id then reloaded rx cq else cq)
    → r ≡ (if mentions id ids then reloaded rid q else q)
    → r ≡ (if mentions id (x ∷ ids) then reloaded rid cq else cq)
once_more x ids id rx rid cq {q} {r} same first rest = elim (Bool-cases (x == id)) [
  | inl hit ↦
      let e = same ((eq_iff x id).0 hit) in
      ground (arith, e, ap (λ y. reloaded y cq) e, reloaded_twice rid cq, ap (reloaded rid) first)
  | inr miss ↦ ground (arith, ap (reloaded rid) first)
]

load_persisted-queue_of :
    (read : String → Read) (ids : List String) (id : String) (o : Outbox)
    → queue_of (load_persisted read ids o) id
      ≡ (if mentions id ids then reloaded (read id) (queue_of o id) else queue_of o id)
unfolding load_persisted
load_persisted-queue_of read [] id o = refl
load_persisted-queue_of read (x ∷ ids) id o =
    once_more x ids id (read x) (read id) (queue_of o id) (λ e. ap read e)
      (load_channel-queue_of (read x) x id o)
      (load_persisted-queue_of read ids id (load_channel (read x) x o))

pub restart_of_stored :
    (o : Outbox) (id : String) (ids : List String) (state : PersistedState)
    → lookup id o.store ≡ some state
    → mentions id ids ≡ true
    → queue_of (restart ids o) id ≡ reloaded_ops state.ops state empty_queue
unfolding restart new queue_of lookup reloaded
restart_of_stored o id ids state stored there =
    let loads = load_persisted-queue_of (λ x. read_back (lookup x o.store)) ids id (new o.store) in
    let listed : (if mentions id ids
          then reloaded (read_back (lookup id o.store)) empty_queue
          else empty_queue)
        ≡ reloaded (read_back (lookup id o.store)) empty_queue =
      rw there refl in
    loads ∙ listed ∙ ap (λ r. reloaded (read_back r) empty_queue) stored

pub reloaded_ops_fields :
    (ops : List Op) (state : PersistedState)
    → let q = reloaded_ops ops state empty_queue in
      (q.ops ≡ ops) × (ops ≢ [] → q.proxy_map ≡ state.proxy_map) × (ops ≡ [] → q.proxy_map ≡ [])
reloaded_ops_fields [] state = (refl, λ some_op. absurd (some_op refl), λ e. refl)
reloaded_ops_fields (op ∷ ops) state = (refl, λ e. refl, λ e. cc)

stored_on_stop :
    (o : Outbox) (id : String)
    → lookup id (persist_channel_locked true o id).store ≡ some (snapshot o (queue_of o id))
unfolding persist_channel_locked
stored_on_stop o id =
    lookup-insert id id (snapshot o (queue_of o id)) o.store ∙ rw (eq_refl id) refl

-- An operation that the shutdown finds in a queue is there after the restart: if the last write
-- succeeds and the channel still exists, the new process has the same operations in the same
-- order, and the real ids of their messages with them. Of a queue that is empty at the shutdown
-- nothing is kept, not even the real ids of the messages that it has sent.
pub stop-restart :
    (o : Outbox) (id : String) (ids : List String)
    → mentions id ids ≡ true
    → let q = queue_of (restart ids (persist_channel_locked true o id)) id in
      (q.ops ≡ (queue_of o id).ops)
      × ((queue_of o id).ops ≢ [] → q.proxy_map ≡ (queue_of o id).proxy_map)
      × ((queue_of o id).ops ≡ [] → q.proxy_map ≡ [])
stop-restart o id ids there =
    let q = queue_of o id in
    subst
      (λ (r : ChannelQueue).
        (r.ops ≡ q.ops)
        × (q.ops ≢ [] → r.proxy_map ≡ q.proxy_map)
        × (q.ops ≡ [] → r.proxy_map ≡ []))
      (sym (
        restart_of_stored (persist_channel_locked true o id) id ids (snapshot o q)
          (stored_on_stop o id) there))
      (reloaded_ops_fields q.ops (snapshot o q))
