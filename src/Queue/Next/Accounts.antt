-- ===== src/Queue/Next/Accounts.antt =====
-- internal/queue/queue.go: what the outcome of `Next` and of the flush of a batch accounts for.
use mathlib.Core.List.{Perm, perm_middle, append_assoc}
use mathlib.Core.List.Perm
use tclaw.Base.{
  keep-All, ◌≡◌, refl, ap, ◌∙◌, subst, true, inl, inr, List, [], ◌∷◌, ◌++◌, All, arith, String,
  eq_iff, Bool-cases, Result, keep,
}
use tclaw.Channel.{TaggedMessage}
use tclaw.Queue.{
  QueuedMessage, Queue, World, Error, queued, push, persist, coalesce_batch, in_batch,
}
use tclaw.Queue.Dequeue.{Picks, picks_user, picks_resume, picks_idle}
use tclaw.Queue.Coalesce.{merged, rejects, keep-Perm, Coalesced, coalesce_batch-Coalesced}
use tclaw.Queue.Next.{
  input, external, Outcome, returned, failed, blocked, Happened, Run, outcome_of, flush,
}

-- The messages that come in during the events.
abbrev pub arrivals : Happened → List QueuedMessage
arrivals [] = []
arrivals ((input msg, w) ∷ evs) = queued msg w.now ∷ arrivals evs
arrivals ((external msg, w) ∷ evs) = queued msg w.now ∷ arrivals evs
arrivals ((_, w) ∷ evs) = arrivals evs

-- The queued messages that an outcome stands for: those merged into the returned one, or none.
pub data StandsFor : Outcome → List QueuedMessage → Type 0 where
  stands_merged :
      (m : QueuedMessage) (ms : List QueuedMessage)
      → All (λ x. x.channel_id ≡ m.channel_id) ms
      → StandsFor (returned (merged m.channel_id m ms)) (m ∷ ms)
  stands_failed : (e : Error) → StandsFor (failed e) []
  stands_blocked : StandsFor blocked []

-- What went in is what came out.
abbrev pub Accounts : List QueuedMessage → Run → Type 0
Accounts before (q, outcome, rest) =
    (taken : List QueuedMessage) × StandsFor outcome taken
    × Perm before (taken ++ (q.messages ++ arrivals rest))

pub push-messages :
    (w : World) (q : Queue) (msg : TaggedMessage)
    → (push w q msg).0.messages ≡ q.messages ++ (queued msg w.now ∷ [])
unfolding push persist
push-messages w q msg = elim (Bool-cases w.write_ok) [
  | inl wrote ↦ rw (wrote, push) refl
  | inr failed_write ↦ rw (failed_write, push) refl
]

-- The accounts of a run that begins behind a push.
pub after_push :
    (w : World) (q : Queue) (msg : TaggedMessage) (evs : Happened) (r : Run)
    → Accounts ((push w q msg).0.messages ++ arrivals evs) r
    → Accounts (q.messages ++ (queued msg w.now ∷ arrivals evs)) r
after_push w q msg evs r a =
    subst (λ l. Accounts l r)
      (ap (λ l. l ++ arrivals evs) (push-messages w q msg)
        ∙ append_assoc q.messages (queued msg w.now ∷ []) (arrivals evs))
      a

pub nothing_taken :
    (q : Queue) (evs : Happened) {o : Outcome}
    → StandsFor o []
    → Accounts (q.messages ++ arrivals evs) (q, o, evs)
nothing_taken q evs s = ([], s, Perm.refl (q.messages ++ arrivals evs))

pub Picks-Perm :
    (w : World) (ms : List QueuedMessage) (m : QueuedMessage) (rest : List QueuedMessage)
    → Picks w ms m rest
    → Perm ms (m ∷ rest)
Picks-Perm w ms m rest (picks_user before after split left hit misses) =
    rw (split, left) (perm_middle before after)
Picks-Perm w ms m rest (picks_resume before after split left u hit misses) =
    rw (split, left) (perm_middle before after)
Picks-Perm w ms m rest (picks_idle before after split left u r hit misses) =
    rw (split, left) (perm_middle before after)

in_batch-channel_id :
    (q : Queue) (id : String) (m : QueuedMessage) → in_batch q id m ≡ true → m.channel_id ≡ id
unfolding in_batch
in_batch-channel_id q id m h = ground (arith, eq_iff m.channel_id id)

same_channel :
    (q : Queue) (id : String) (xs : List QueuedMessage)
    → All (λ x. in_batch q id x ≡ true) xs
    → All (λ x. x.channel_id ≡ id) xs
same_channel q id [] all = tt
same_channel q id (x ∷ xs) all = (in_batch-channel_id q id x all.0, same_channel q id xs all.1)

pub merged_stands :
    {id : String} (m : QueuedMessage) (ms : List QueuedMessage)
    → m.channel_id ≡ id
    → All (λ x. x.channel_id ≡ id) ms
    → StandsFor (returned (merged id m ms)) (m ∷ ms)
merged_stands m ms e =
    subst (λ i. All (λ x. x.channel_id ≡ i) ms → StandsFor (returned (merged i m ms)) (m ∷ ms)) e
      (stands_merged m ms)

-- The accounts of a flush, by the batch that it takes.
flushed_batch :
    (q : Queue) (id : String) (evs : Happened) (batch : List QueuedMessage)
    (r : Queue × Result Error TaggedMessage)
    → keep (in_batch q id) q.messages ≡ batch
    → Coalesced q id batch r
    → Accounts (q.messages ++ arrivals evs) (r.0, outcome_of r.1, evs)
flushed_batch q id evs [] r e c = rw c (nothing_taken q evs (stands_failed _))
flushed_batch q id evs (m ∷ ms) r e c =
    let p = in_batch q id in
    let same =
      subst (All (λ x. x.channel_id ≡ id)) e
        (same_channel q id (keep p q.messages) (keep-All p q.messages)) in
    (
      m ∷ ms,
      rw c.0 (merged_stands m ms same.0 same.1),
      rw c.1 (
          subst (λ l. Perm (q.messages ++ arrivals evs) l)
            (ap (λ l. (l ++ keep (rejects p) q.messages) ++ arrivals evs) e
              ∙ append_assoc (m ∷ ms) (keep (rejects p) q.messages) (arrivals evs))
            (Perm.append_right (arrivals evs) (keep-Perm p q.messages))),
    )

pub flush-Accounts :
    (w : World) (q : Queue) (id : String) (evs : Happened)
    → Accounts (q.messages ++ arrivals evs) (flush w q id evs)
unfolding flush
flush-Accounts w q id evs =
    flushed_batch q id evs (keep (in_batch q id) q.messages) (coalesce_batch w q id) refl
      (coalesce_batch-Coalesced w q id)
