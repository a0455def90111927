-- ===== src/Queue/Dequeue.antt =====
-- internal/queue/queue.go: which message `tryDequeue` takes, and what it leaves.
use tclaw.Base.{
  ℕ, ◌≡◌, refl, Bool, true, false, ◌⊎◌, inl, inr, Option, none, some, List, ◌∷◌, ◌++◌, All, Finds,
  missing, found, find_index, find_index-Finds, erase_index, get_elem?,
}
use tclaw.Queue.{
  QueuedMessage, Queue, World, is_user_message, is_resume_message, is_deliverable, dequeue_index,
  try_dequeue, tagged, persist, or_else,
}

abbrev pub Fails : (QueuedMessage → Bool) → List QueuedMessage → Type 0
Fails p = All (λ m. p m ≡ false)

-- The promise of the package comment: the first user message; if there is none, the first resume
-- message; if there is none either, the first message whose channel is not busy. What is left is
-- the rest of the queue, in order.
pub data Picks (w : World) (ms : List QueuedMessage) (m : QueuedMessage) (rest : List QueuedMessage)
    : Type 0 where
  picks_user :
      (before after : List QueuedMessage)
      → ms ≡ before ++ (m ∷ after)
      → rest ≡ before ++ after
      → is_user_message m ≡ true
      → Fails is_user_message before
      → Picks w ms m rest
  picks_resume :
      (before after : List QueuedMessage)
      → ms ≡ before ++ (m ∷ after)
      → rest ≡ before ++ after
      → Fails is_user_message ms
      → is_resume_message m ≡ true
      → Fails is_resume_message before
      → Picks w ms m rest
  picks_idle :
      (before after : List QueuedMessage)
      → ms ≡ before ++ (m ∷ after)
      → rest ≡ before ++ after
      → Fails is_user_message ms
      → Fails is_resume_message ms
      → is_deliverable w m ≡ true
      → Fails (is_deliverable w) before
      → Picks w ms m rest

-- Nothing can be taken: every message waits for a busy channel.
pub record AllWait (w : World) (ms : List QueuedMessage) : Type 0 where
  pub no_user : Fails is_user_message ms
  pub no_resume : Fails is_resume_message ms
  pub no_idle : Fails (is_deliverable w) ms

-- A position in the queue stands for the message there and for the rest.
pub data Index (w : World) (ms : List QueuedMessage) : Option ℕ → Type 0 where
  waits : AllWait w ms → Index w ms none
  picks :
      (i : ℕ) (m : QueuedMessage)
      → get_elem? ms i ≡ some m
      → Picks w ms m (erase_index ms i)
      → Index w ms (some i)

third :
    (w : World) (ms : List QueuedMessage) {o : Option ℕ}
    → Fails is_user_message ms
    → Fails is_resume_message ms
    → Finds (is_deliverable w) ms o
    → Index w ms o
third w ms u r (missing d) = waits (record { no_user = u; no_resume = r; no_idle = d })
third w ms u r (found before m after i split misses hit at erased) =
    picks i m at (picks_idle before after split erased u r hit misses)

second :
    (w : World) (ms : List QueuedMessage) {o : Option ℕ} (rest : Option ℕ)
    → Fails is_user_message ms
    → Finds is_resume_message ms o
    → Finds (is_deliverable w) ms rest
    → Index w ms (or_else o rest)
second w ms rest u (missing r) last = third w ms u r last
second w ms rest u (found before m after i split misses hit at erased) last =
    picks i m at (picks_resume before after split erased u hit misses)

first :
    (w : World) (ms : List QueuedMessage) {o : Option ℕ} (second_try rest : Option ℕ)
    → Finds is_user_message ms o
    → Finds is_resume_message ms second_try
    → Finds (is_deliverable w) ms rest
    → Index w ms (or_else o (or_else second_try rest))
first w ms second_try rest (missing u) middle last = second w ms rest u middle last
first w ms second_try rest (found before m after i split misses hit at erased) middle last =
    picks i m at (picks_user before after split erased hit misses)

pub dequeue_index-Index : (w : World) (q : Queue) → Index w q.messages (dequeue_index w q)
unfolding dequeue_index
dequeue_index-Index w q =
    first w q.messages (find_index is_resume_message q.messages)
      (find_index (is_deliverable w) q.messages) (find_index-Finds is_user_message q.messages)
      (find_index-Finds is_resume_message q.messages)
      (find_index-Finds (is_deliverable w) q.messages)

pub persist-messages : (b : Bool) (q : Queue) → (persist b q).0.messages ≡ q.messages
unfolding persist
persist-messages true q = refl
persist-messages false q = refl

try_dequeue_of_Index :
    (w : World) (q : Queue) {o : Option ℕ}
    → dequeue_index w q ≡ o
    → Index w q.messages o
    → ((m : QueuedMessage) × ((try_dequeue w q).1 ≡ some (tagged m))
        × Picks w q.messages m (try_dequeue w q).0.messages)
      ⊎ (((try_dequeue w q).1 ≡ none) × ((try_dequeue w q).0 ≡ q) × AllWait w q.messages)
unfolding try_dequeue
try_dequeue_of_Index w q e (waits all) =
    inr (rw (e, try_dequeue) refl, rw (e, try_dequeue) refl, all)
try_dequeue_of_Index w q e (picks i m at p) =
    inl (
      m,
      rw (e, try_dequeue) (rw at refl),
      rw (e, try_dequeue) (rw (persist-messages w.write_ok) p),
    )

-- `tryDequeue` on any queue: either it returns a message picked by the priorities and leaves
-- exactly the rest of the queue in order, or it returns nothing, the queue is as it was, and every
-- message in it is neither a user's nor a resume message and waits for a busy channel.
pub try_dequeue-Picks :
    (w : World) (q : Queue)
    → ((m : QueuedMessage) × ((try_dequeue w q).1 ≡ some (tagged m))
        × Picks w q.messages m (try_dequeue w q).0.messages)
      ⊎ (((try_dequeue w q).1 ≡ none) × ((try_dequeue w q).0 ≡ q) × AllWait w q.messages)
try_dequeue-Picks w q = try_dequeue_of_Index w q refl (dequeue_index-Index w q)
