-- ===== src/LogBuffer/Chunks.antt =====
-- internal/libraries/logbuffer/logbuffer.go: how a stream is cut into writes does not matter.
use mathlib.Core.List.{append_assoc}
use tclaw.Base.{
  ℕ, zero, suc, ◌≤◌, ◌<◌, ◌≡◌, refl, ap, ◌∙◌, sym, Option, none, some, [], ◌∷◌, ◌++◌, eqb, length,
  length-append, Bytes, arith, Option-cases, Bool-cases, inl, inr,
}
use tclaw.LogBuffer.{Buffer, and_then, add_line, append_locked, cut_newline, take_lines, write}

pub cut_newline-append :
    (raw more line rest : Bytes)
    → cut_newline raw ≡ some (line, rest)
    → (cut_newline (raw ++ more) ≡ some (line, rest ++ more)) × (length rest < length raw)
unfolding cut_newline
cut_newline-append [] more line rest e = cc
cut_newline-append (b ∷ raw) more line rest e = elim (Bool-cases (eqb b 10)) [
  | inl newline ↦
      let same : (line ≡ []) × (rest ≡ raw) = ground arith in
      (
        rw newline (
            ap (λ l. some (l, raw ++ more)) (sym same.0)
            ∙ ap (λ r. some (line, r ++ more)) (sym same.1)),
        omega (arith, ap (length {0}) same.1),
      )
  | inr other ↦ elim (Option-cases (cut_newline raw)) [
    | inl x ↦ absurd (ground arith)
    | inr (r, x) ↦
        let (found, shorter) = cut_newline-append raw more r.0 r.1 x in
        let same : (line ≡ b ∷ r.0) × (rest ≡ r.1) = ground arith in
        (
          rw other (
              rw found (
                ap (λ l. some (l, r.1 ++ more)) (sym same.0)
                ∙ ap (λ y. some (line, y ++ more)) (sym same.1))),
          omega (arith, ap (length {0}) same.1),
        )
  ]
]

and_then-cong :
    (o : Option Buffer) (f g : Buffer → Option Buffer)
    → ((b : Buffer) → f b ≡ g b)
    → and_then o f ≡ and_then o g
and_then-cong none f g h = refl
and_then-cong (some b) f g h = h b

and_then_assoc :
    (o : Option Buffer) (f g : Buffer → Option Buffer)
    → and_then (and_then o f) g ≡ and_then o (λ b. and_then (f b) g)
and_then_assoc none f g = refl
and_then_assoc (some b) f g = refl

-- A round that finds no newline, and one that finds one.
pub take_lines_of_none :
    (n : ℕ) (time : Option ℕ) (raw : Bytes) (b : Buffer)
    → cut_newline raw ≡ none
    → take_lines n time raw b ≡ some (record b { partial = raw })
unfolding take_lines
take_lines_of_none zero time raw b e = refl
take_lines_of_none (suc n) time raw b e = rw (e, take_lines) refl

pub take_lines_of_some :
    (n : ℕ) (time : Option ℕ) (raw line rest : Bytes) (b : Buffer)
    → cut_newline raw ≡ some (line, rest)
    → take_lines (suc n) time raw b ≡ and_then (add_line time line b) (take_lines n time rest)
unfolding take_lines
take_lines_of_some n time raw line rest b e = rw (e, take_lines) refl

-- Enough fuel is as good as any.
take_lines-fuel :
    (n m : ℕ) (time : Option ℕ) (raw : Bytes) (b : Buffer)
    → length raw ≤ n
    → length raw ≤ m
    → take_lines n time raw b ≡ take_lines m time raw b
unfolding cut_newline take_lines
take_lines-fuel zero m time [] b h k = sym (take_lines_of_none m time [] b refl)
take_lines-fuel zero m time (x ∷ raw) b h k = absurd (omega arith)
take_lines-fuel (suc n) zero time [] b h k = take_lines_of_none (suc n) time [] b refl
take_lines-fuel (suc n) zero time (x ∷ raw) b h k = absurd (omega arith)
take_lines-fuel (suc n) (suc m) time raw b h k = elim (Option-cases (cut_newline raw)) [
  | inl e ↦ take_lines_of_none (suc n) time raw b e ∙ sym (take_lines_of_none (suc m) time raw b e)
  | inr (r, e) ↦
      let shorter = (cut_newline-append raw [] r.0 r.1 e).1 in
      take_lines_of_some n time raw r.0 r.1 b e
      ∙ and_then-cong (add_line time r.0 b) (take_lines n time r.1) (take_lines m time r.1)
          (λ b'. take_lines-fuel n m time r.1 b' (omega arith) (omega arith))
      ∙ sym (take_lines_of_some m time raw r.0 r.1 b e)
]

abbrev with_partial : Bytes → Buffer → Buffer
with_partial s b = record b { partial = s }

add_line-with_partial :
    (time : Option ℕ) (line s : Bytes) (b : Buffer)
    → add_line time line (with_partial s b)
      ≡ and_then (add_line time line b) (λ b'. some (with_partial s b'))
unfolding add_line append_locked
add_line-with_partial time line s b = ground arith

-- The partial line of before is not looked at.
take_lines-with_partial :
    (n : ℕ) (time : Option ℕ) (raw s : Bytes) (b : Buffer)
    → take_lines n time raw (with_partial s b) ≡ take_lines n time raw b
unfolding take_lines
take_lines-with_partial zero time raw s b = refl
take_lines-with_partial (suc n) time raw s b = elim (Option-cases (cut_newline raw)) [
  | inl e ↦
      take_lines_of_none (suc n) time raw (with_partial s b) e
      ∙ sym (take_lines_of_none (suc n) time raw b e)
  | inr (r, e) ↦
      take_lines_of_some n time raw r.0 r.1 (with_partial s b) e
      ∙ ap (λ o. and_then o (take_lines n time r.1)) (add_line-with_partial time r.0 s b)
      ∙ and_then_assoc (add_line time r.0 b) (λ b'. some (with_partial s b'))
          (take_lines n time r.1)
      ∙ and_then-cong (add_line time r.0 b) (λ b'. take_lines n time r.1 (with_partial s b'))
          (take_lines n time r.1) (λ b'. take_lines-with_partial n time r.1 s b')
      ∙ sym (take_lines_of_some n time raw r.0 r.1 b e)
]

-- What a further write does.
abbrev go_on : Option ℕ → Bytes → Buffer → Option Buffer
go_on time more b = let raw = b.partial ++ more in take_lines (length raw) time raw b

take_lines-append :
    (n : ℕ) (time : Option ℕ) (raw more : Bytes) (b : Buffer)
    → length raw ≤ n
    → take_lines (length (raw ++ more)) time (raw ++ more) b
      ≡ and_then (take_lines n time raw b) (go_on time more)
unfolding cut_newline
take_lines-append zero time [] more b h =
    sym (take_lines-with_partial (length more) time more [] b)
    ∙ sym (ap (λ o. and_then o (go_on time more)) (take_lines_of_none zero time [] b refl))
take_lines-append zero time (x ∷ raw) more b h = absurd (omega arith)
take_lines-append (suc n) time raw more b h = elim (Option-cases (cut_newline raw)) [
  | inl e ↦
      sym (take_lines-with_partial (length (raw ++ more)) time (raw ++ more) raw b)
      ∙ sym (ap (λ o. and_then o (go_on time more)) (take_lines_of_none (suc n) time raw b e))
  | inr (r, e) ↦
      let (found, shorter) = cut_newline-append raw more r.0 r.1 e in
      take_lines-fuel (length (raw ++ more)) (suc (length (raw ++ more))) time (raw ++ more) b
        (omega arith) (omega arith)
      ∙ take_lines_of_some (length (raw ++ more)) time (raw ++ more) r.0 (r.1 ++ more) b found
      ∙ and_then-cong (add_line time r.0 b) (take_lines (length (raw ++ more)) time (r.1 ++ more))
          (λ b'. and_then (take_lines n time r.1 b') (go_on time more))
          (λ b'.
            take_lines-fuel (length (raw ++ more)) (length (r.1 ++ more)) time (r.1 ++ more) b'
              (omega (arith, length-append raw more, length-append r.1 more)) (omega arith)
            ∙ take_lines-append n time r.1 more b' (omega arith))
      ∙ sym (and_then_assoc (add_line time r.0 b) (take_lines n time r.1) (go_on time more))
      ∙ sym (ap (λ o. and_then o (go_on time more)) (take_lines_of_some n time raw r.0 r.1 b e))
]

-- The cutting of the stream does not matter: two writes one after the other leave the buffer as
-- one write of both texts at that time would, complete lines, partial line, order, and a panic of
-- a ring without room included, wherever the cut lies, in the middle of a line too.
pub write-append :
    (now : ℕ) (p q : Bytes) (b : Buffer)
    → write now (p ++ q) b ≡ and_then (write now p b) (write now q)
unfolding write
write-append now p q b =
    ap (λ raw. take_lines (length raw) (some now) raw b) (sym (append_assoc b.partial p q))
    ∙ take_lines-append (length (b.partial ++ p)) (some now) (b.partial ++ p) q b (omega arith)
