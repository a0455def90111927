-- ===== src/Queue/Restart.antt =====
-- internal/queue/queue.go: what `LoadPersisted` finds after a restart.
use tclaw.Base.{
  ℕ, ◌≡◌, refl, Bool, true, inl, inr, Option, none, List, [], ◌∷◌, String, arith, Option-cases,
}
use tclaw.Channel.{TaggedMessage}
use tclaw.Queue.{
  QueuedMessage, Queue, World, Error, new, load_persisted, read_back, persist, push, try_dequeue,
  coalesce_batch, set_interrupted, clear_interrupted, dequeue_index, split_batch, in_batch,
  finish_batch,
}

-- The calls that change the queue and write it.
pub data Call : Type 0 where
  pushes : TaggedMessage → Call
  dequeues : Call
  coalesces : String → Call
  interrupts : String → Call
  clears : Call

unfoldable pub step : Queue → World × Call → Queue
step q (w, pushes msg) = (push w q msg).0
step q (w, dequeues) = (try_dequeue w q).0
step q (w, coalesces id) = (coalesce_batch w q id).0
step q (w, interrupts id) = (set_interrupted w q id).0
step q (w, clears) = (clear_interrupted w q).0

unfoldable pub run : Queue → List (World × Call) → Queue
run q [] = q
run q (c ∷ cs) = run (step q c) cs

-- A new process on the same store.
unfoldable pub restart : Queue → Queue × Option Error
restart q = load_persisted (read_back q.store) (new q.store q.debounce_window q.is_control_message)

-- The new process holds what the old one held.
pub record IsRestored (q : Queue) : Type 0 where
  pub same_messages : (restart q).0.messages ≡ q.messages
  pub same_interrupted : (restart q).0.interrupted_channel ≡ q.interrupted_channel
  pub no_error : (restart q).1 ≡ none

persist-IsRestored : (q : Queue) → IsRestored (persist true q).0
unfolding persist restart load_persisted
persist-IsRestored q = ground arith

-- Every write of the history succeeds.
abbrev pub AllWritten : List (World × Call) → Type 0
AllWritten [] = Unit
AllWritten ((w, c) ∷ cs) = (w.write_ok ≡ true) × AllWritten cs

dequeue-IsRestored :
    (w : World) (q : Queue) → w.write_ok ≡ true → IsRestored q → IsRestored (try_dequeue w q).0
unfolding try_dequeue
dequeue-IsRestored w q wrote r = elim (Option-cases (dequeue_index w q)) [
  | inl e ↦ rw (e, try_dequeue) r
  | inr (i, e) ↦ rw (e, try_dequeue) (rw wrote (persist-IsRestored _))
]

coalesce-IsRestored :
    (w : World) (q : Queue) (id : String)
    → w.write_ok ≡ true
    → IsRestored q
    → IsRestored (coalesce_batch w q id).0
unfolding coalesce_batch
coalesce-IsRestored w q id wrote r = finished (split_batch (in_batch q id) q.messages)
  where
    finished : (s : List QueuedMessage × List QueuedMessage) → IsRestored (finish_batch w q id s).0
    finished ([], kept) = r
    finished (m ∷ ms, kept) = rw wrote (persist-IsRestored _)

push-IsRestored :
    (w : World) (q : Queue) (msg : TaggedMessage) → w.write_ok ≡ true → IsRestored (push w q msg).0
unfolding push persist restart load_persisted
push-IsRestored w q msg wrote =
    rw wrote (record { same_messages = refl; same_interrupted = refl; no_error = refl })

new-IsRestored :
    (debounce_window : ℕ) (is_control : Option (TaggedMessage → Bool))
    → IsRestored (new none debounce_window is_control)
unfolding new restart load_persisted
new-IsRestored debounce_window is_control = record {
  same_messages = refl;
  same_interrupted = refl;
  no_error = refl;
}

step-IsRestored :
    (q : Queue) (w : World) (c : Call)
    → w.write_ok ≡ true
    → IsRestored q
    → IsRestored (step q (w, c))
unfolding step
step-IsRestored q w (pushes msg) wrote r = push-IsRestored w q msg wrote
step-IsRestored q w dequeues wrote r = dequeue-IsRestored w q wrote r
step-IsRestored q w (coalesces id) wrote r = coalesce-IsRestored w q id wrote r
step-IsRestored q w (interrupts id) wrote r =
    unfold set_interrupted in rw wrote (persist-IsRestored _)
step-IsRestored q w clears wrote r = unfold clear_interrupted in rw wrote (persist-IsRestored _)

run-IsRestored :
    (q : Queue) (cs : List (World × Call)) → AllWritten cs → IsRestored q → IsRestored (run q cs)
unfolding run
run-IsRestored q [] all r = r
run-IsRestored q ((w, c) ∷ cs) all r =
    run-IsRestored (step q (w, c)) cs all.1 (step-IsRestored q w c all.0 r)

-- Messages survive a restart: after any calls on a new queue over an empty store, if every write
-- succeeds, a new process loads without error the messages, in order, and the interrupted
-- channel that the old one held.
pub restart-run :
    (debounce_window : ℕ) (is_control : Option (TaggedMessage → Bool)) (cs : List (World × Call))
    → AllWritten cs
    → let q = run (new none debounce_window is_control) cs in
      ((restart q).0.messages ≡ q.messages)
      × ((restart q).0.interrupted_channel ≡ q.interrupted_channel)
      × ((restart q).1 ≡ none)
restart-run debounce_window is_control cs all =
    let r =
      run-IsRestored (new none debounce_window is_control) cs all
        (new-IsRestored debounce_window is_control) in
    (r.same_messages, r.same_interrupted, r.no_error)
