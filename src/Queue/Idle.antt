-- ===== src/Queue/Idle.antt =====
-- internal/queue/queue.go: `idleNotifyForQueued`, the case of `Next`'s select that stands for "a
-- channel with queued messages became idle". A channel of Go that is closed already is `none`; the
-- goroutines that merge several waiters into one are the list of those waiters.
use tclaw.Base.{
  ℕ, ◌≡◌, ◌≢◌, refl, ap, ◌∙◌, false, not, ◌&&◌, ◌⊎◌, inl, inr, Option, none, some, List, [], ◌∷◌,
  ◌++◌, arith, String, if◌then◌else◌, ◌==◌, any, Bool-cases, true, Bool, All, All-append,
  any-append, eq_refl,
}
use tclaw.Channel.Activity.{Tracker, is_busy, notify_idle}
use tclaw.Queue.{
  QueuedMessage, Queue, World, is_user_message, is_deliverable, resolve_channel_name, try_dequeue,
}
use tclaw.Queue.Dequeue.{Fails, AllWait, try_dequeue-Picks}

-- Adds a key to the map `busyChannels`.
abbrev add_name : String → List String → List String
add_name name names = if any (λ n. n == name) names then names else names ++ (name ∷ [])

-- A round of the loop that collects the busy channels with queued non-user messages.
add_busy : World → QueuedMessage → List String → List String
add_busy w m names =
    let name = resolve_channel_name w m.channel_id in
    if is_user_message m
    then names
    else if not (name == "") && (is_busy w.activity name w.now).0
    then add_name name names
    else names

busy_names : World → List String → List QueuedMessage → List String
busy_names w names [] = names
busy_names w names (m ∷ ms) = busy_names w (add_busy w m names) ms

-- One waiter for each name.
pub notify_all : Tracker → ℕ → List String → Tracker × List ℕ
notify_all t now [] = (t, [])
notify_all t now (name ∷ names) =
    let (t', w) = notify_idle t name now in let (t'', ws) = notify_all t' now names in (t'', w ∷ ws)

-- No busy channel: a channel that is closed already.
abbrev merge_waiters : World → List String → Tracker × Option (List ℕ)
merge_waiters w [] = (w.activity, none)
merge_waiters w (name ∷ names) =
    let (t, ws) = notify_all w.activity w.now (name ∷ names) in (t, some ws)

pub idle_notify_for_queued : World → Queue → Tracker × Option (List ℕ)
unfolding busy_names add_busy notify_all
idle_notify_for_queued w q = merge_waiters w (busy_names w [] q.messages)

-- A name of the list.
abbrev pub holds : String → List String → Bool
holds n names = any (λ x. x == n) names

-- A channel that is busy.
abbrev pub IsBusy : World → String → Type 0
IsBusy w name = (is_busy w.activity name w.now).0 ≡ true

holds-add_name :
    (n name : String) (names : List String)
    → (holds n names ≡ true → holds n (add_name name names) ≡ true)
      × (holds name (add_name name names) ≡ true)
holds-add_name n name names = elim (Bool-cases (holds name names)) [
  | inl old ↦ rw old (λ h. h, old)
  | inr new ↦ rw new (
    λ h. any-append (λ x. x == n) names (name ∷ []) ∙ rw h refl,
    any-append (λ x. x == name) names (name ∷ []) ∙ rw new (rw (eq_refl name) refl),
  )
]

add_name-IsBusy :
    (w : World) (name : String) (names : List String)
    → IsBusy w name
    → All (IsBusy w) names
    → All (IsBusy w) (add_name name names)
add_name-IsBusy w name names busy all = elim (Bool-cases (holds name names)) [
  | inl old ↦ rw old all
  | inr new ↦ rw new (All-append (IsBusy w) names (name ∷ []) all (busy, tt))
]

add_busy-IsBusy :
    (w : World) (m : QueuedMessage) (names : List String)
    → All (IsBusy w) names
    → All (IsBusy w) (add_busy w m names)
unfolding add_busy
add_busy-IsBusy w m names all = elim (Bool-cases (is_user_message m)) [
  | inl typed ↦ rw typed all
  | inr untyped ↦
      let name = resolve_channel_name w m.channel_id in
      elim (Bool-cases (not (name == "") && (is_busy w.activity name w.now).0)) [
        | inl busy ↦ rw untyped (rw busy (add_name-IsBusy w name names (ground (arith, busy)) all))
        | inr idle ↦ rw untyped (rw idle all)
      ]
]

busy_names-IsBusy :
    (w : World) (names : List String) (ms : List QueuedMessage)
    → All (IsBusy w) names
    → All (IsBusy w) (busy_names w names ms)
unfolding busy_names
busy_names-IsBusy w names [] all = all
busy_names-IsBusy w names (m ∷ ms) all =
    busy_names-IsBusy w (add_busy w m names) ms (add_busy-IsBusy w m names all)

holds-add_busy :
    (w : World) (n : String) (m : QueuedMessage) (names : List String)
    → holds n names ≡ true
    → holds n (add_busy w m names) ≡ true
unfolding add_busy
holds-add_busy w n m names there = elim (Bool-cases (is_user_message m)) [
  | inl typed ↦ rw typed there
  | inr untyped ↦
      let name = resolve_channel_name w m.channel_id in
      elim (Bool-cases (not (name == "") && (is_busy w.activity name w.now).0)) [
        | inl busy ↦ rw untyped (rw busy ((holds-add_name n name names).0 there))
        | inr idle ↦ rw untyped (rw idle there)
      ]
]

holds-busy_names :
    (w : World) (n : String) (names : List String) (ms : List QueuedMessage)
    → holds n names ≡ true
    → holds n (busy_names w names ms) ≡ true
unfolding busy_names
holds-busy_names w n names [] there = there
holds-busy_names w n names (m ∷ ms) there =
    holds-busy_names w n (add_busy w m names) ms (holds-add_busy w n m names there)

-- A message that can neither be taken as a user's nor delivered adds its channel's name.
add_busy_waiting :
    (w : World) (m : QueuedMessage) (names : List String)
    → is_user_message m ≡ false
    → is_deliverable w m ≡ false
    → add_busy w m names ≡ add_name (resolve_channel_name w m.channel_id) names
unfolding add_busy is_deliverable
add_busy_waiting w m names u d = ground arith

-- The channel of the message is among those names.
abbrev pub IsNamed : World → List String → QueuedMessage → Type 0
IsNamed w names m = holds (resolve_channel_name w m.channel_id) names ≡ true

busy_names-IsNamed :
    (w : World) (names : List String) (ms : List QueuedMessage)
    → Fails is_user_message ms
    → Fails (is_deliverable w) ms
    → All (IsNamed w (busy_names w names ms)) ms
unfolding busy_names
busy_names-IsNamed w names [] u d = tt
busy_names-IsNamed w names (m ∷ ms) u d =
    let name = resolve_channel_name w m.channel_id in
    let added : holds name (add_busy w m names) ≡ true =
      ap (holds name) (add_busy_waiting w m names u.0 d.0) ∙ (holds-add_name name name names).1 in
    (
      holds-busy_names w name (add_busy w m names) ms added,
      busy_names-IsNamed w (add_busy w m names) ms u.1 d.1,
    )

-- The merge of one waiter for each of the names.
abbrev pub merged : World → List String → Tracker × Option (List ℕ)
merged w names = let (t, ws) = notify_all w.activity w.now names in (t, some ws)

merge_waiters_of_IsNamed :
    (w : World) (m : QueuedMessage) (names : List String)
    → IsNamed w names m
    → merge_waiters w names ≡ merged w names
merge_waiters_of_IsNamed w m [] there = cc
merge_waiters_of_IsNamed w m (name ∷ names) there = refl

idle_notify_of_AllWait :
    (w : World) (q : Queue) (ms : List QueuedMessage)
    → q.messages ≡ ms
    → AllWait w ms
    → ((ms ≡ []) × (idle_notify_for_queued w q ≡ (w.activity, none)))
      ⊎ ((ms ≢ [])
          × ((names : List String) × All (IsBusy w) names
              × All (IsNamed w names) ms
              × (idle_notify_for_queued w q ≡ merged w names)))
unfolding idle_notify_for_queued busy_names
idle_notify_of_AllWait w q [] e all = inl (refl, rw (e, idle_notify_for_queued) refl)
idle_notify_of_AllWait w q (m ∷ ms) e all =
    let names = busy_names w [] (m ∷ ms) in
    let named = busy_names-IsNamed w [] (m ∷ ms) all.no_user all.no_idle in
    inr (
      λ empty. cc,
      (
        names,
        busy_names-IsBusy w [] (m ∷ ms) tt,
        named,
        ap (λ l. merge_waiters w (busy_names w [] l)) e
            ∙ merge_waiters_of_IsNamed w m names named.0,
      ),
    )

-- What `idleNotifyForQueued` waits for when `try_dequeue` takes nothing. If the queue is empty, it
-- returns a channel that is closed already, and asks the tracker for nothing. Otherwise it asks for
-- one waiter of each of a list of channels and returns their merge; each of these channels is busy,
-- and the channel of every queued message is among them.
pub idle_notify_of_nothing :
    (w : World) (q : Queue)
    → (try_dequeue w q).1 ≡ none
    → ((q.messages ≡ []) × (idle_notify_for_queued w q ≡ (w.activity, none)))
      ⊎ ((q.messages ≢ [])
          × ((names : List String) × All (IsBusy w) names
              × All (IsNamed w names) q.messages
              × (idle_notify_for_queued w q ≡ merged w names)))
idle_notify_of_nothing w q nothing = elim (try_dequeue-Picks w q) [
  | inl (m, e, p) ↦ absurd (ground arith)
  | inr (e, same, all) ↦ idle_notify_of_AllWait w q q.messages refl all
]
