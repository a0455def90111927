-- ===== src/Outbox/Drain.antt =====
-- internal/channel/outbox/outbox.go: the operations that the delivery loop takes from a queue until
-- nothing is left, against what was put in.
use tclaw.Base.{
  ℕ, zero, suc, ◌≤◌, ◌<◌, ◌≡◌, refl, ap, ◌∙◌, sym, Bool, true, false, not, ◌&&◌, inl, inr, none,
  some, List, [], ◌∷◌, arith, String, if◌then◌else◌, Bool-cases, keep, any, length, ◌==◌, eq_iff,
  Option-cases,
}
use tclaw.Outbox.{Op, ChannelQueue, is_edit, edits_same, is_superseded, dequeue_ops, dequeue}

-- The repeated `dequeue`, on fuel.
unfoldable pub drain : ℕ → ChannelQueue → List Op
drain zero cq = []
drain (suc n) cq =
    let (cq', taken) = dequeue cq in elim taken [ none ↦ [] | some op ↦ op ∷ drain n cq' ]

-- The operations that no later one supersedes.
survivors : List Op → List Op
survivors [] = []
survivors (op ∷ later) =
    let rest = survivors later in if is_superseded op later then rest else op ∷ rest

survivors_of_none : (ops : List Op) → dequeue_ops ops ≡ none → survivors ops ≡ []
unfolding dequeue_ops survivors
survivors_of_none [] e = refl
survivors_of_none (x ∷ later) e = ground (arith, survivors_of_none later)

survivors_of_some :
    (ops : List Op) (op : Op) (rest : List Op)
    → dequeue_ops ops ≡ some (op, rest)
    → (survivors ops ≡ op ∷ survivors rest) × (length rest < length ops)
unfolding dequeue_ops survivors
survivors_of_some [] op rest e = cc
survivors_of_some (x ∷ later) op rest e = elim (Bool-cases (is_superseded x later)) [
  | inl superseded ↦
      let (same, shorter) = survivors_of_some later op rest (ground arith) in
      (rw superseded same, omega arith)
  | inr survives ↦
      let same_op : x ≡ op = ground arith in
      let same_rest : later ≡ rest = ground arith in (rw survives cc, ground arith)
]

no_survivors : (ops : List Op) → length ops ≤ 0 → [] ≡ survivors ops
unfolding survivors
no_survivors [] h = refl
no_survivors (x ∷ ops) h = absurd (omega arith)

dequeue_of_none : (cq : ChannelQueue) → dequeue_ops cq.ops ≡ none → (dequeue cq).1 ≡ none
unfolding dequeue
dequeue_of_none cq e = rw (e, dequeue) refl

dequeue_of_some :
    (cq : ChannelQueue) (op : Op) (rest : List Op)
    → dequeue_ops cq.ops ≡ some (op, rest)
    → ((dequeue cq).1 ≡ some op) × ((dequeue cq).0.ops ≡ rest)
unfolding dequeue
dequeue_of_some cq op rest e = (rw (e, dequeue) refl, rw (e, dequeue) refl)

drain-survivors : (n : ℕ) (cq : ChannelQueue) → length cq.ops ≤ n → drain n cq ≡ survivors cq.ops
unfolding drain
drain-survivors zero cq h = no_survivors cq.ops h
drain-survivors (suc n) cq h = elim (Option-cases (dequeue_ops cq.ops)) [
  | inl e ↦ rw (dequeue_of_none cq e, drain) (sym (survivors_of_none cq.ops e))
  | inr (r, e) ↦
      let (same, shorter) = survivors_of_some cq.ops r.0 r.1 e in
      let (taken, left) = dequeue_of_some cq r.0 r.1 e in
      rw (taken, drain)
        (ap (◌∷◌ r.0) (
            drain-survivors n (dequeue cq).0 (omega (arith, ap (length {0}) left))
            ∙ ap survivors left)
          ∙ sym same)
]

-- The last element, as a list of at most one.
abbrev pub last_only : List Op → List Op
last_only [] = []
last_only (x ∷ []) = x ∷ []
last_only (x ∷ y ∷ rest) = last_only (y ∷ rest)

abbrev pub edits_message : String → Op → Bool
edits_message id op = is_edit op && op.target_id == id

abbrev pub is_no_edit : Op → Bool
is_no_edit op = not (is_edit op)

survivors-no_edit : (ops : List Op) → keep is_no_edit (survivors ops) ≡ keep is_no_edit ops
unfolding survivors
survivors-no_edit [] = refl
survivors-no_edit (x ∷ later) = ground (arith, survivors-no_edit later)

any-keep : (p : Op → Bool) (ops : List Op) → any p ops ≡ false → keep p ops ≡ []
any-keep p [] e = refl
any-keep p (x ∷ ops) e = ground (arith, any-keep p ops)

last_only-cons_any :
    (p : Op → Bool) (x : Op) (ops : List Op)
    → any p ops ≡ true
    → last_only (x ∷ keep p ops) ≡ last_only (keep p ops)
last_only-cons_any p x [] e = cc
last_only-cons_any p x (y ∷ ops) e = elim (Bool-cases (p y)) [
  | inl hit ↦ rw hit refl
  | inr miss ↦ rw miss (last_only-cons_any p x ops (ground arith))
]

survivors-last :
    (id : String) (ops : List Op)
    → keep (edits_message id) (survivors ops) ≡ last_only (keep (edits_message id) ops)
unfolding survivors
survivors-last id [] = refl
survivors-last id (x ∷ later) = elim (Bool-cases (edits_message id x)) [
  | inl hit ↦
      let e : x.target_id ≡ id = ground (arith, eq_iff x.target_id id) in
      let p = edits_message id in
      let same : any (edits_same x) later ≡ any p later =
        ap (λ t. any (λ l. is_edit l && l.target_id == t) later) e in
      elim (Bool-cases (any p later)) [
        | inl more ↦
            let superseded : is_superseded x later ≡ true = ground arith in
            rw (superseded, hit) (survivors-last id later ∙ sym (last_only-cons_any p x later more))
        | inr none_left ↦
            let kept : is_superseded x later ≡ false = ground arith in
            let nothing = any-keep p later none_left in
            rw (kept, hit)
              (ap (◌∷◌ x) (survivors-last id later ∙ ap last_only nothing)
                ∙ sym (ap (λ l. last_only (x ∷ l)) nothing))
      ]
  | inr miss ↦ ground (arith, survivors-last id later)
]

-- Draining a queue takes every send and every turn-end signal, in order, and of the edits of each
-- message exactly the last one: a message ends with the text of its last edit.
pub drain_takes :
    (cq : ChannelQueue) (id : String)
    → let taken = drain (length cq.ops) cq in
      (keep is_no_edit taken ≡ keep is_no_edit cq.ops)
      × (keep (edits_message id) taken ≡ last_only (keep (edits_message id) cq.ops))
drain_takes cq id =
    let all = drain-survivors (length cq.ops) cq (omega arith) in
    (
      ap (keep is_no_edit) all ∙ survivors-no_edit cq.ops,
      ap (keep (edits_message id)) all ∙ survivors-last id cq.ops,
    )
