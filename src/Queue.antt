-- ===== src/Queue.antt =====
-- internal/queue/queue.go: the persistent priority queue of inbound messages. The store holds the
-- decoded state; `write_ok` says whether encoding and writing it succeeds. A slice is a list, the
-- one-slot channel `notify` is a Boolean, and the clock and the other components are an argument.
pub mod Dequeue
pub mod Coalesce
pub mod Restart
pub mod Idle
pub mod Next
mod Tests
use tclaw.Base.{
  ℕ, suc, String, str_append, Bool, true, false, ◌&&◌, ◌||◌, not, Option, none, some, List, [], ◌∷◌,
  ◌++◌, map, ltb, if◌then◌else◌, lookup, find_index, get_elem?, erase_index, ◌==◌, Result, ok, err,
  any, keep,
}
use tclaw.Channel.{MessageSource, MessageSourceInfo, TaggedMessage, user, resume}
use tclaw.Channel.Activity.{Tracker, is_busy, notify_idle}

pub record QueuedMessage : Type 0 where
  pub channel_id : String
  pub text : String
  pub source_info : Option MessageSourceInfo
  pub queued_at : ℕ

pub record PersistedState : Type 0 where
  pub messages : List QueuedMessage
  pub interrupted_channel : String

pub record Queue : Type 0 where
  pub store : Option PersistedState
  pub debounce_window : ℕ
  pub is_control_message : Option (TaggedMessage → Bool)
  pub messages : List QueuedMessage
  pub interrupted_channel : String
  pub notify : Bool

-- What surrounds the queue at a moment: the channels by their id, with their names, the activity
-- tracker, the time, and whether the store takes the next write.
pub record World : Type 0 where
  pub channels : List (String × String)
  pub activity : Tracker
  pub now : ℕ
  pub write_ok : Bool

pub data Error : Type 0 where
  read_failed : Error
  malformed : Error
  write_failed : Error
  no_batchable_messages : Error
  input_closed : Error
  cancelled : Error

unfoldable pub new : Option PersistedState → ℕ → Option (TaggedMessage → Bool) → Queue
new store debounce_window is_control = record {
  store = store;
  debounce_window = debounce_window;
  is_control_message = is_control;
  messages = [];
  interrupted_channel = "";
  notify = false;
}

-- What reading and decoding the store's entry gives.
pub data Read : Type 0 where
  unreadable : Read
  undecodable : Read
  absent : Read
  present : PersistedState → Read

abbrev pub read_back : Option PersistedState → Read
read_back none = absent
read_back (some state) = present state

unfoldable pub load_persisted : Read → Queue → Queue × Option Error
load_persisted unreadable q = (q, some read_failed)
load_persisted undecodable q = (q, some malformed)
load_persisted absent q = (q, none)
load_persisted (present state) q =
    (record q { messages = state.messages; interrupted_channel = state.interrupted_channel }, none)

unfoldable pub persist : Bool → Queue → Queue × Option Error
persist true q = (
  record q {
    store = some (record { messages = q.messages; interrupted_channel = q.interrupted_channel });
  },
  none,
)
persist false q = (q, some write_failed)

abbrev pub queued : TaggedMessage → ℕ → QueuedMessage
queued msg now = record {
  channel_id = msg.channel_id;
  text = msg.text;
  source_info = msg.source_info;
  queued_at = now;
}

abbrev pub tagged : QueuedMessage → TaggedMessage
tagged m = record { channel_id = m.channel_id; text = m.text; source_info = m.source_info }

-- The wake-up comes only after a successful write.
abbrev wake : Queue × Option Error → Queue × Option Error
wake (q, none) = (record q { notify = true }, none)
wake (q, some e) = (q, some e)

unfoldable pub push : World → Queue → TaggedMessage → Queue × Option Error
push w q msg =
    wake (persist w.write_ok (record q { messages = q.messages ++ (queued msg w.now ∷ []) }))

abbrev pub is_user_source : MessageSource → Bool
is_user_source user = true
is_user_source _ = false

abbrev pub is_resume_source : MessageSource → Bool
is_resume_source resume = true
is_resume_source _ = false

unfoldable pub is_user_message : QueuedMessage → Bool
is_user_message m = elim m.source_info [ none ↦ true | some info ↦ is_user_source info.source ]

unfoldable pub is_resume_message : QueuedMessage → Bool
is_resume_message m = elim m.source_info [ none ↦ false | some info ↦ is_resume_source info.source ]

unfoldable pub is_batchable : Queue → QueuedMessage → Bool
is_batchable q m =
    if is_user_message m
    then elim q.is_control_message [ none ↦ true | some is_control ↦ not (is_control (tagged m)) ]
    else false

abbrev or_empty : Option String → String
or_empty none = ""
or_empty (some name) = name

unfoldable pub resolve_channel_name : World → String → String
resolve_channel_name w id = or_empty (lookup id w.channels)

-- The test of the third loop: the target channel is unknown or not busy.
unfoldable pub is_deliverable : World → QueuedMessage → Bool
is_deliverable w m =
    let name = resolve_channel_name w m.channel_id in
    if name == "" then true else not (is_busy w.activity name w.now).0

abbrev or_else {ℓ} : {A : Type ℓ} → Option A → Option A → Option A
or_else none other = other
or_else (some a) other = some a

unfoldable pub dequeue_index : World → Queue → Option ℕ
dequeue_index w q =
    or_else (find_index is_user_message q.messages)
      (or_else (find_index is_resume_message q.messages) (find_index (is_deliverable w) q.messages))

abbrev taken : Option QueuedMessage → Option TaggedMessage
taken none = none
taken (some m) = some (tagged m)

-- A failed write is logged only.
unfoldable pub try_dequeue : World → Queue → Queue × Option TaggedMessage
try_dequeue w q = elim (dequeue_index w q) [
  | none ↦ (q, none)
  | some i ↦ (
    (persist w.write_ok (record q { messages = erase_index q.messages i })).0,
    taken (get_elem? q.messages i),
  )
]

unfoldable pub peek_batchable_channel : World → Queue → Option String
peek_batchable_channel w q = elim (dequeue_index w q) [
  | none ↦ none
  | some i ↦ elim (get_elem? q.messages i) [
    | none ↦ none
    | some m ↦ if is_batchable q m then some m.channel_id else none
  ]
]

-- `strings.Join(texts, sep)`
unfoldable pub join : String → List String → String
join sep [] = ""
join sep (s ∷ []) = s
join sep (s ∷ t ∷ rest) = str_append s (str_append sep (join sep (t ∷ rest)))

unfoldable pub in_batch : Queue → String → QueuedMessage → Bool
in_batch q id m = m.channel_id == id && is_batchable q m

-- The batch's messages, and those that are kept, in one pass.
unfoldable pub split_batch :
    (QueuedMessage → Bool) → List QueuedMessage → List QueuedMessage × List QueuedMessage
split_batch p [] = ([], [])
split_batch p (m ∷ ms) =
    let (batch, kept) = split_batch p ms in if p m then (m ∷ batch, kept) else (batch, m ∷ kept)

-- The end of `coalesceBatch`, after the loop has filled the batch and the kept messages.
abbrev finish_batch :
    World
    → Queue
    → String
    → List QueuedMessage × List QueuedMessage
    → Queue × Result Error TaggedMessage
finish_batch w q id ([], kept) = (q, err no_batchable_messages)
finish_batch w q id (m ∷ ms, kept) = (
  (persist w.write_ok (record q { messages = kept })).0,
  ok (record {
    channel_id = id;
    text = join "\n\n" (map (λ (x : QueuedMessage). x.text) (m ∷ ms));
    source_info = m.source_info;
  }),
)

unfoldable pub coalesce_batch : World → Queue → String → Queue × Result Error TaggedMessage
coalesce_batch w q id = finish_batch w q id (split_batch (in_batch q id) q.messages)

unfoldable pub set_interrupted : World → Queue → String → Queue × Option Error
set_interrupted w q id = persist w.write_ok (record q { interrupted_channel = id })

unfoldable pub clear_interrupted : World → Queue → Queue × Option Error
clear_interrupted w q = persist w.write_ok (record q { interrupted_channel = "" })
