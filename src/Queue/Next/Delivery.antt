-- ===== src/Queue/Next/Delivery.antt =====
-- internal/queue/queue.go: every message that is pushed is returned once or still queued, whatever
-- `Next` meets on the way.
use mathlib.Core.List.{Perm}
use mathlib.Core.List.Perm
use tclaw.Base.{
  ℕ, ◌≡◌, subst, inl, inr, Option, none, some, List, [], ◌∷◌, ◌++◌, String, if◌then◌else◌,
  Bool-cases, leb, ltb, ◌+◌,
}
use tclaw.Channel.{TaggedMessage}
use tclaw.Queue.{
  QueuedMessage, Queue, World, tagged, push, try_dequeue, peek_batchable_channel, join,
}
use tclaw.Queue.Dequeue.{Picks, try_dequeue-Picks}
use tclaw.Queue.Next.{
  ctx_done, input, input_ended, idle, notified, external, window_elapsed, cap_reached, returned,
  Happened, Run, drop_notify, debounce, top, after_top, select, next, max_batch_window, dequeued,
  or_dequeue,
}
use tclaw.Queue.Next.Accounts.{
  arrivals, StandsFor, stands_merged, stands_failed, stands_blocked, Accounts, after_push,
  nothing_taken, Picks-Perm, flush-Accounts,
}

debounce-Accounts :
    (id : String) (window_at cap_at : ℕ) (q : Queue) (evs : Happened)
    → Accounts (q.messages ++ arrivals evs) (debounce id window_at cap_at q evs)
unfolding debounce
debounce-Accounts id d c q [] = nothing_taken q [] stands_blocked
debounce-Accounts id d c q ((ctx_done, w) ∷ evs) = nothing_taken q evs (stands_failed _)
debounce-Accounts id d c q ((input_ended, w) ∷ evs) = nothing_taken q evs (stands_failed _)
debounce-Accounts id d c q ((input msg, w) ∷ evs) =
    after_push w q msg evs (debounce id (w.now + q.debounce_window) c (push w q msg).0 evs)
      (debounce-Accounts id (w.now + q.debounce_window) c (push w q msg).0 evs)
debounce-Accounts id d c q ((external msg, w) ∷ evs) =
    after_push w q msg evs (debounce id d c (push w q msg).0 evs)
      (debounce-Accounts id d c (push w q msg).0 evs)
debounce-Accounts id d c q ((notified, w) ∷ evs) =
    debounce-Accounts id (if q.notify then w.now + q.debounce_window else d) c (drop_notify q) evs
debounce-Accounts id d c q ((window_elapsed, w) ∷ evs) = elim (Bool-cases (leb d w.now)) [
  | inl due ↦ rw due (flush-Accounts w q id evs)
  | inr early ↦ rw early (debounce-Accounts id d c q evs)
]
debounce-Accounts id d c q ((cap_reached, w) ∷ evs) = elim (Bool-cases (leb c w.now)) [
  | inl due ↦ rw due (flush-Accounts w q id evs)
  | inr early ↦ rw early (debounce-Accounts id d c q evs)
]
debounce-Accounts id d c q ((idle, w) ∷ evs) = debounce-Accounts id d c q evs

taken_one :
    (w : World) (q : Queue) (evs : Happened) (selected : Run) (r : Queue × Option TaggedMessage)
    (m : QueuedMessage)
    → r.1 ≡ some (tagged m)
    → Picks w q.messages m r.0.messages
    → Accounts (q.messages ++ arrivals evs) (after_top w q evs selected (dequeued r))
unfolding join
taken_one w q evs selected (q', none) m e p = cc
taken_one w q evs selected (q', some msg) m e p =
    let same : tagged m ≡ msg = cc in
    (
      m ∷ [],
      subst (λ x. StandsFor (returned x) (m ∷ [])) same (stands_merged m [] tt),
      Perm.append_right (arrivals evs) (Picks-Perm w q.messages m q'.messages p),
    )

taken_none :
    (w : World) (q : Queue) (evs : Happened) (selected : Run) (r : Queue × Option TaggedMessage)
    → r.1 ≡ none
    → Accounts (q.messages ++ arrivals evs) selected
    → Accounts (q.messages ++ arrivals evs) (after_top w q evs selected (dequeued r))
taken_none w q evs selected (q', none) e a = a
taken_none w q evs selected (q', some msg) e a = cc

dequeued-Accounts :
    (w : World) (q : Queue) (evs : Happened) (selected : Run)
    → Accounts (q.messages ++ arrivals evs) selected
    → Accounts
        (q.messages ++ arrivals evs)
        (after_top w q evs selected (dequeued (try_dequeue w q)))
dequeued-Accounts w q evs selected a = elim (try_dequeue-Picks w q) [
  | inl (m, e, p) ↦ taken_one w q evs selected (try_dequeue w q) m e p
  | inr (e, same, all) ↦ taken_none w q evs selected (try_dequeue w q) e a
]

after_top-Accounts :
    (w : World) (q : Queue) (evs : Happened) (selected : Run)
    → Accounts (q.messages ++ arrivals evs) selected
    → Accounts (q.messages ++ arrivals evs) (after_top w q evs selected (top w q))
unfolding top
after_top-Accounts w q evs selected a =
    by_peek (if ltb 0 q.debounce_window then peek_batchable_channel w q else none)
  where
    by_peek :
        (o : Option String)
        → Accounts (q.messages ++ arrivals evs) (after_top w q evs selected (or_dequeue w q o))
    by_peek none = dequeued-Accounts w q evs selected a
    by_peek (some id) =
        debounce-Accounts id (w.now + q.debounce_window) (w.now + max_batch_window) q evs

select-Accounts :
    (q : Queue) (evs : Happened) → Accounts (q.messages ++ arrivals evs) (select q evs)
unfolding select
select-Accounts q [] = nothing_taken q [] stands_blocked
select-Accounts q ((ctx_done, w) ∷ evs) = nothing_taken q evs (stands_failed _)
select-Accounts q ((input_ended, w) ∷ evs) = nothing_taken q evs (stands_failed _)
select-Accounts q ((input msg, w) ∷ evs) =
    let q' = (push w q msg).0 in
    after_push w q msg evs (after_top w q' evs (select q' evs) (top w q'))
      (after_top-Accounts w q' evs (select q' evs) (select-Accounts q' evs))
select-Accounts q ((idle, w) ∷ evs) =
    after_top-Accounts w q evs (select q evs) (select-Accounts q evs)
select-Accounts q ((notified, w) ∷ evs) = elim (Bool-cases q.notify) [
  | inl woken ↦ rw woken (
      after_top-Accounts w (drop_notify q) evs (select (drop_notify q) evs)
        (select-Accounts (drop_notify q) evs))
  | inr asleep ↦ rw asleep (select-Accounts (drop_notify q) evs)
]
select-Accounts q ((external msg, w) ∷ evs) =
    after_push w q msg evs (select (push w q msg).0 evs) (select-Accounts (push w q msg).0 evs)
select-Accounts q ((window_elapsed, w) ∷ evs) = select-Accounts q evs
select-Accounts q ((cap_reached, w) ∷ evs) = select-Accounts q evs

-- No message is lost, invented or returned twice, on any queue and over any events, with failing
-- writes included: the messages queued at the start and those that come in are, as a multiset, the
-- ones that the returned message merges (all of one channel; none if `Next` fails or is still
-- waiting), those still queued, and those still to come.
pub next-Accounts :
    (w : World) (q : Queue) (evs : Happened)
    → let r = next w q evs in
      (taken : List QueuedMessage) × StandsFor r.1 taken
      × Perm (q.messages ++ arrivals evs) (taken ++ (r.0.messages ++ arrivals r.2))
unfolding next
next-Accounts w q evs = after_top-Accounts w q evs (select q evs) (select-Accounts q evs)
