-- ===== src/Queue/Coalesce.antt =====
-- internal/queue/queue.go: what `coalesceBatch` merges and what it leaves, and why the batch that
-- `peekBatchableChannel` announced is still there.
use mathlib.Core.List.{Perm, perm_middle}
use mathlib.Core.List.Perm
use tclaw.Base.{
  ℕ, zero, suc, ◌≡◌, refl, ap, ◌∙◌, Bool, true, not, inl, inr, some, List, [], ◌∷◌, ◌++◌, keep,
  keep-append, get_elem?, arith, String, map, Result, ok, err, Bool-cases, Option-cases, eq_iff,
  subst,
}
use tclaw.Channel.{TaggedMessage}
use tclaw.Queue.{
  QueuedMessage, Queue, World, Error, no_batchable_messages, dequeue_index, is_batchable, in_batch,
  split_batch, coalesce_batch, join, peek_batchable_channel,
}
use tclaw.Queue.Dequeue.{persist-messages}

abbrev pub rejects : (QueuedMessage → Bool) → QueuedMessage → Bool
rejects p m = not (p m)

split_batch-keep :
    (p : QueuedMessage → Bool) (ms : List QueuedMessage)
    → split_batch p ms ≡ (keep p ms, keep (rejects p) ms)
unfolding split_batch
split_batch-keep p [] = refl
split_batch-keep p (m ∷ ms) = ground (arith, split_batch-keep p ms)

pub keep-Perm :
    (p : QueuedMessage → Bool) (ms : List QueuedMessage)
    → Perm ms (keep p ms ++ keep (rejects p) ms)
keep-Perm p [] = Perm.nil
keep-Perm p (m ∷ ms) = elim (Bool-cases (p m)) [
  | inl hit ↦ rw hit (Perm.cons m (keep-Perm p ms))
  | inr miss ↦ rw miss (
      Perm.trans (Perm.cons m (keep-Perm p ms))
        (Perm.symm (perm_middle (keep p ms) (keep (rejects p) ms))))
]

-- The message that a batch makes: its channel, the texts in order with a blank line between them,
-- and the first one's source.
abbrev pub merged : String → QueuedMessage → List QueuedMessage → TaggedMessage
merged id m ms = record {
  channel_id = id;
  text = join "\n\n" (map (λ (x : QueuedMessage). x.text) (m ∷ ms));
  source_info = m.source_info;
}

-- What `coalesceBatch` must give, from the messages that the batch takes.
abbrev pub Coalesced :
    Queue → String → List QueuedMessage → Queue × Result Error TaggedMessage → Type 0
Coalesced q id [] r = r ≡ (q, err no_batchable_messages)
Coalesced q id (m ∷ ms) r =
    (r.1 ≡ ok (merged id m ms)) × (r.0.messages ≡ keep (rejects (in_batch q id)) q.messages)

finish_batch-Coalesced :
    (w : World) (q : Queue) (id : String) (batch kept : List QueuedMessage)
    → split_batch (in_batch q id) q.messages ≡ (batch, kept)
    → kept ≡ keep (rejects (in_batch q id)) q.messages
    → Coalesced q id batch (coalesce_batch w q id)
unfolding coalesce_batch
finish_batch-Coalesced w q id [] kept e k = rw (e, coalesce_batch) refl
finish_batch-Coalesced w q id (m ∷ ms) kept e k = (
  rw (e, coalesce_batch) refl,
  rw (e, coalesce_batch) (persist-messages w.write_ok (record q { messages = kept }) ∙ k),
)

-- `coalesceBatch` on any queue takes exactly the batchable messages of the channel, in order: none
-- of them is an error and leaves the queue alone; otherwise the result is their merge, and the
-- control, non-user and other-channel messages stay, in order.
pub coalesce_batch-Coalesced :
    (w : World) (q : Queue) (id : String)
    → Coalesced q id (keep (in_batch q id) q.messages) (coalesce_batch w q id)
coalesce_batch-Coalesced w q id =
    finish_batch-Coalesced w q id (keep (in_batch q id) q.messages)
      (keep (rejects (in_batch q id)) q.messages) (split_batch-keep (in_batch q id) q.messages) refl

-- A batch keeps its head when messages come in behind it.
pub keep-cons-append :
    (p : QueuedMessage → Bool) (xs ys : List QueuedMessage) (m : QueuedMessage)
    (ms : List QueuedMessage)
    → keep p xs ≡ m ∷ ms
    → keep p (xs ++ ys) ≡ m ∷ (ms ++ keep p ys)
keep-cons-append p xs ys m ms e = keep-append p xs ys ∙ ap (λ l. l ++ keep p ys) e

-- A message that passes the test heads the batch, if nothing before it does.
keep-ne-nil :
    (p : QueuedMessage → Bool) (xs : List QueuedMessage) (i : ℕ) (m : QueuedMessage)
    → get_elem? xs i ≡ some m
    → p m ≡ true
    → (b : QueuedMessage) × (bs : List QueuedMessage) × (keep p xs ≡ b ∷ bs)
keep-ne-nil p [] i m at hit = cc
keep-ne-nil p (x ∷ xs) zero m at hit = (x, keep p xs, ground arith)
keep-ne-nil p (x ∷ xs) (suc i) m at hit = elim (Bool-cases (p x)) [
  | inl head ↦ (x, keep p xs, rw head refl)
  | inr other ↦ rw other (keep-ne-nil p xs i m at hit)
]

pub peeked_in_batch :
    (w : World) (q : Queue) (id : String)
    → peek_batchable_channel w q ≡ some id
    → (b : QueuedMessage) × (bs : List QueuedMessage) × (keep (in_batch q id) q.messages ≡ b ∷ bs)
unfolding peek_batchable_channel in_batch
peeked_in_batch w q id peek = elim (Option-cases (dequeue_index w q)) [
  | inl e ↦ absurd (ground arith)
  | inr (i, e) ↦ elim (Option-cases (get_elem? q.messages i)) [
    | inl gone ↦ absurd (ground arith)
    | inr (m, at) ↦
        keep-ne-nil (in_batch q id) q.messages i m at (ground (arith, eq_iff m.channel_id id))
  ]
]

-- The error that `coalesceBatch` has for a vanished message does not arise: if the peek announced
-- a channel, and in the meantime messages only arrived behind the others, then merging that
-- channel's batch succeeds and the result carries that channel.
pub peek-coalesce_batch :
    (w later : World) (q : Queue) (id : String) (arrived : List QueuedMessage)
    → peek_batchable_channel w q ≡ some id
    → (msg : TaggedMessage) × ((coalesce_batch later
          (record q { messages = q.messages ++ arrived })
          id).1
        ≡ ok msg)
      × (msg.channel_id ≡ id)
unfolding in_batch is_batchable
peek-coalesce_batch w later q id arrived peek =
    let (b, bs, e) = peeked_in_batch w q id peek in
    let q' = record q { messages = q.messages ++ arrived } in
    let rest = bs ++ keep (in_batch q id) arrived in
    (
      merged id b rest,
      (subst (λ l. Coalesced q' id l (coalesce_batch later q' id))
          (keep-cons-append (in_batch q id) q.messages arrived b bs e)
          (coalesce_batch-Coalesced later q' id)).0,
      refl,
    )
