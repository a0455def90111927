-- ===== src/Outbox.antt =====
-- internal/channel/outbox/outbox.go: the persistent queue of outbound operations. The store holds
-- decoded states by channel; `write_ok` says whether encoding and writing succeeds. A Go channel
-- that `Flush` waits on is a number, and `closed` lists those closed so far. Times are seconds.
pub mod Coalescing
pub mod Sequence
pub mod Delivery
pub mod Restart
pub mod Gaps
pub mod Drain
mod Tests
use tclaw.Base.{
  ℕ, zero, suc, ◌+◌, ◌*◌, ◌%◌, ◌^◌, String, Bool, true, false, not, ◌&&◌, ◌||◌, Option, none, some,
  List, [], ◌∷◌, ◌++◌, leb, ltb, if◌then◌else◌, lookup, insert, any, contains, ◌==◌,
}

pub data OpKind : Type 0 where
  op_send : OpKind
  op_edit : OpKind
  op_done : OpKind

pub record Op : Type 0 where
  pub kind : OpKind
  pub channel_id : String
  pub proxy_id : String
  pub target_id : String
  pub text : String
  pub notify : Bool
  pub rich : Bool
  pub seq : ℕ  -- uint64

pub record PersistedState : Type 0 where
  pub ops : List Op
  pub proxy_map : List (String × String)
  pub seq : ℕ

pub record ChannelQueue : Type 0 where
  pub ops : List Op
  pub proxy_map : List (String × String)
  pub wake : Bool
  pub drain_waiters : List ℕ
  pub delivering : Bool
  pub dirty : Bool

pub record Outbox : Type 0 where
  pub store : List (String × PersistedState)
  pub queues : List (String × ChannelQueue)
  pub seq : ℕ
  pub closed : List ℕ
  pub next_waiter : ℕ

unfoldable pub new : List (String × PersistedState) → Outbox
new store = record { store = store; queues = []; seq = 0; closed = []; next_waiter = 0 }

abbrev pub empty_queue : ChannelQueue
empty_queue = record {
  ops = [];
  proxy_map = [];
  wake = false;
  drain_waiters = [];
  delivering = false;
  dirty = false;
}

abbrev or_empty_queue : Option ChannelQueue → ChannelQueue
or_empty_queue none = empty_queue
or_empty_queue (some cq) = cq

-- The queue of a channel; `enqueue` creates an absent one.
unfoldable pub queue_of : Outbox → String → ChannelQueue
queue_of o id = or_empty_queue (lookup id o.queues)

unfoldable pub put : String → ChannelQueue → Outbox → Outbox
put id cq o = record o { queues = insert id cq o.queues }

-- `uint64` addition of one.
abbrev pub next_seq : ℕ → ℕ
next_seq n = (n + 1) % 2 ^ 64

-- What a write keeps of a channel.
abbrev pub snapshot : Outbox → ChannelQueue → PersistedState
snapshot o cq = record { ops = cq.ops; proxy_map = cq.proxy_map; seq = o.seq }

abbrev written : Bool → String → PersistedState → Outbox → Outbox
written true id state o = record o { store = insert id state o.store }
written false id state o = o

-- `persistChannel`: the queue counts as clean before the write is tried. The flag is the success.
unfoldable pub persist_channel : Bool → Outbox → String → Outbox × Bool
unfolding put
persist_channel write_ok o id = elim (lookup id o.queues) [
  | none ↦ (o, true)
  | some cq ↦
      (written write_ok id (snapshot o cq) (put id (record cq { dirty = false }) o), write_ok)
]

-- `persistChannelLocked`, on shutdown.
unfoldable pub persist_channel_locked : Bool → Outbox → String → Outbox
persist_channel_locked write_ok o id = written write_ok id (snapshot o (queue_of o id)) o

-- `maybePersist`, on the ticker.
unfoldable pub maybe_persist : Bool → Outbox → String → Outbox
maybe_persist write_ok o id = if (queue_of o id).dirty then (persist_channel write_ok o id).0 else o

-- Puts the operation at the end of its channel's queue under the next sequence number.
unfoldable pub append_op : Outbox → String → Op → Outbox
unfolding put queue_of
append_op o id op =
    let n = next_seq o.seq in
    let cq = queue_of o id in
    put id (record cq { ops = cq.ops ++ (record op { seq = n } ∷ []); dirty = true })
      (record o { seq = n })

unfoldable pub wake_channel : Outbox → String → Outbox
unfolding put queue_of
wake_channel o id = put id (record (queue_of o id) { wake = true }) o

-- `enqueue`: a failed write is returned, and then nobody is woken. The flag is the success.
unfoldable pub enqueue : Bool → Outbox → String → Op → Bool → Outbox × Bool
enqueue write_ok o id op persist =
    let o1 = append_op o id op in
    let (o2, stored) = persist_channel write_ok o1 id in
    if persist
    then (if stored then (wake_channel o2 id, true) else (o2, false))
    else (wake_channel o1 id, true)

abbrev pub send_op : String → String → String → Bool → Bool → Op
send_op id proxy_id text notify rich = record {
  kind = op_send;
  channel_id = id;
  proxy_id = proxy_id;
  target_id = "";
  text = text;
  notify = notify;
  rich = rich;
  seq = 0;
}

abbrev pub edit_op : String → String → String → Op
edit_op id target_id text = record {
  kind = op_edit;
  channel_id = id;
  proxy_id = "";
  target_id = target_id;
  text = text;
  notify = false;
  rich = false;
  seq = 0;
}

abbrev pub done_op : String → Op
done_op id = record {
  kind = op_done;
  channel_id = id;
  proxy_id = "";
  target_id = "";
  text = "";
  notify = false;
  rich = false;
  seq = 0;
}

-- `Send`, with the proxy id that the id library generated; the id is returned on success.
unfoldable pub send :
    Bool → Outbox → String → String → String → Bool → Bool → Outbox × Option String
send write_ok o id proxy_id text notify rich =
    let (o', stored) = enqueue write_ok o id (send_op id proxy_id text notify rich) true in
    (o', if stored then some proxy_id else none)

unfoldable pub edit : Bool → Outbox → String → String → String → Outbox × Bool
edit write_ok o id proxy_id text = enqueue write_ok o id (edit_op id proxy_id text) false

unfoldable pub done : Bool → Outbox → String → Outbox × Bool
done write_ok o id = enqueue write_ok o id (done_op id) true

abbrev pub is_edit : Op → Bool
is_edit op = elim op.kind [ op_send ↦ false | op_edit ↦ true | op_done ↦ false ]

-- An edit of the same message.
abbrev pub edits_same : Op → Op → Bool
edits_same op later = is_edit later && later.target_id == op.target_id

-- A later edit of the same message makes an edit superfluous.
abbrev pub is_superseded : Op → List Op → Bool
is_superseded op later = is_edit op && any (edits_same op) later

unfoldable pub dequeue_ops : List Op → Option (Op × List Op)
dequeue_ops [] = none
dequeue_ops (op ∷ later) =
    let rest = dequeue_ops later in if is_superseded op later then rest else some (op, later)

abbrev is_empty : List Op → Bool
is_empty [] = true
is_empty (op ∷ ops) = false

abbrev dequeued : ChannelQueue → Option (Op × List Op) → ChannelQueue × Option Op
dequeued cq none = (record cq { ops = []; dirty = cq.dirty || not (is_empty cq.ops) }, none)
dequeued cq (some (op, rest)) = (record cq { ops = rest; dirty = true }, some op)

unfoldable pub dequeue : ChannelQueue → ChannelQueue × Option Op
dequeue cq = dequeued cq (dequeue_ops cq.ops)

unfoldable pub is_permanent_error : String → Bool
is_permanent_error msg =
    contains msg "Forbidden"
    || contains msg "chat not found"
    || contains msg "bot was blocked"
    || contains msg "can't parse entities"
    || contains msg "must be encoded in UTF-8"
    || contains msg "message is too long"

unfoldable pub is_skippable_error : String → Bool
is_skippable_error msg = contains msg "message is not modified"
