-- ===== src/Outbox/Coalescing.antt =====
-- internal/channel/outbox/outbox.go: what `dequeue` skips, and what a whole queue comes to.
use tclaw.Base.{
  ◌≡◌, refl, ap, subst, true, false, ◌&&◌, ◌⊎◌, inl, inr, Option, none, some, List, [], ◌∷◌, ◌++◌,
  arith, Bool-cases, any, ◌==◌, eq_iff, All,
}
use tclaw.Outbox.{Op, ChannelQueue, is_edit, edits_same, is_superseded, dequeue_ops, dequeue}

-- The split that `dequeue` makes.
pub record Splits (ops : List Op) (op : Op) (rest : List Op) : Type 0 where
  pub skipped : List Op
  pub split : ops ≡ skipped ++ (op ∷ rest)
  pub all_superseded :
      All (λ x. (is_edit x ≡ true) × (any (edits_same x) (op ∷ rest) ≡ true)) skipped
  pub not_superseded : is_superseded op rest ≡ false

-- An edit that is superseded within the skipped part is superseded behind it too.
superseded_later :
    (x : Op) (skipped : List Op) (ops : List Op)
    → All (λ y. (is_edit y ≡ true) × (any (edits_same y) ops ≡ true)) skipped
    → any (edits_same x) (skipped ++ ops) ≡ true
    → any (edits_same x) ops ≡ true
superseded_later x [] ops all h = h
superseded_later x (y ∷ skipped) ops all h = elim (Bool-cases (edits_same x y)) [
  | inl same ↦
      let e : y.target_id ≡ x.target_id = ground (arith, eq_iff y.target_id x.target_id) in
      subst (λ t. any (λ later. is_edit later && later.target_id == t) ops ≡ true) e all.0.1
  | inr other ↦ superseded_later x skipped ops all.1 (ground arith)
]

skip-Splits :
    (x : Op) (later : List Op) (op : Op) (rest : List Op)
    → is_superseded x later ≡ true
    → Splits later op rest
    → Splits (x ∷ later) op rest
skip-Splits x later op rest superseded s = record {
  skipped = x ∷ s.skipped;
  split = ap (◌∷◌ x) s.split;
  all_superseded = (
    (
      ground arith,
      superseded_later x s.skipped (op ∷ rest) s.all_superseded
          (subst (λ l. any (edits_same x) l ≡ true) s.split (ground arith)),
    ),
    s.all_superseded,
  );
  not_superseded = s.not_superseded;
}

-- What a call gives: nothing from the empty queue, or the split.
pub data Dequeues (ops : List Op) : Option (Op × List Op) → Type 0 where
  nothing : ops ≡ [] → Dequeues ops none
  takes : (op : Op) (rest : List Op) → Splits ops op rest → Dequeues ops (some (op, rest))

skip-Dequeues :
    (x : Op) (later : List Op) {o : Option (Op × List Op)}
    → is_superseded x later ≡ true
    → Dequeues later o
    → Dequeues (x ∷ later) o
skip-Dequeues x later superseded (nothing e) = absurd (ground (arith, ap (is_superseded x) e))
skip-Dequeues x later superseded (takes op rest s) =
    takes op rest (skip-Splits x later op rest superseded s)

dequeue_ops-Dequeues : (ops : List Op) → Dequeues ops (dequeue_ops ops)
unfolding dequeue_ops
dequeue_ops-Dequeues [] = nothing refl
dequeue_ops-Dequeues (x ∷ later) = elim (Bool-cases (is_superseded x later)) [
  | inl superseded ↦ rw superseded (skip-Dequeues x later superseded (dequeue_ops-Dequeues later))
  | inr survives ↦ rw survives (
      takes x later
        (record { skipped = []; split = refl; all_superseded = tt; not_superseded = survives }))
]

by_result :
    (cq : ChannelQueue) (o : Option (Op × List Op))
    → dequeue_ops cq.ops ≡ o
    → Dequeues cq.ops o
    → ((cq.ops ≡ []) × ((dequeue cq).1 ≡ none) × ((dequeue cq).0 ≡ cq))
      ⊎ ((op : Op) × ((dequeue cq).1 ≡ some op)
          × ((dequeue cq).0.dirty ≡ true)
          × Splits cq.ops op (dequeue cq).0.ops)
unfolding dequeue
by_result cq none e (nothing empty) = inl (empty, rw (e, dequeue) refl, ground arith)
by_result cq (some (op, rest)) e (takes _ _ s) =
    inr (op, rw (e, dequeue) refl, rw (e, dequeue) refl, rw (e, dequeue) s)

-- `dequeue` on any queue: from an empty queue it takes nothing; otherwise it takes the first
-- operation that no later edit of the same message supersedes and leaves what stands behind it,
-- and all that it skips are edits for which a later edit of the same message is still there.
pub dequeue-Splits :
    (cq : ChannelQueue)
    → ((cq.ops ≡ []) × ((dequeue cq).1 ≡ none) × ((dequeue cq).0 ≡ cq))
      ⊎ ((op : Op) × ((dequeue cq).1 ≡ some op)
          × ((dequeue cq).0.dirty ≡ true)
          × Splits cq.ops op (dequeue cq).0.ops)
dequeue-Splits cq = by_result cq (dequeue_ops cq.ops) refl (dequeue_ops-Dequeues cq.ops)
