-- ===== src/Base/ByteStrings.antt =====
-- Go's byte strings, as lists of numbers below 256, and the functions of its `strings` on them.
use Prim.Native.Nat.{ℕ}
use Prim.Native.Char.{code}
use Prim.Native.String.{String, [] as []ˢ, ◌∷◌ as ◌∷ˢ◌}
use mathlib.Core.Path.{◌≡◌, refl, ap, sym, ◌∙◌}
use mathlib.Core.Logic.{◌≢◌, inl, inr}
use mathlib.Core.Bool.{Bool, true, false, ◌&&◌}
use mathlib.Core.Option.{Option, none, some}
use mathlib.Core.List.{List, [], ◌∷◌, ◌++◌}
use native.Mathlib.Omega.{arith}
use tclaw.Base.Tests.{if◌then◌else◌, eqb, Option-cases}

abbrev pub Bytes : Type 0
Bytes = List ℕ

-- The bytes of an ASCII text.
unfoldable pub bytes : String → Bytes
bytes []ˢ = []
bytes (c ∷ˢ s) = code c ∷ bytes s

-- The code points of a text.
unfoldable pub runes : String → List ℕ
runes []ˢ = []
runes (c ∷ˢ s) = code c ∷ runes s

-- `s == t`
unfoldable pub same_bytes : Bytes → Bytes → Bool
same_bytes [] [] = true
same_bytes [] (b ∷ t) = false
same_bytes (a ∷ s) [] = false
same_bytes (a ∷ s) (b ∷ t) = eqb a b && same_bytes s t

pub same_bytes→≡ : (s t : Bytes) → same_bytes s t ≡ true → s ≡ t
unfolding same_bytes
same_bytes→≡ [] [] h = refl
same_bytes→≡ [] (b ∷ t) h = cc
same_bytes→≡ (a ∷ s) [] h = cc
same_bytes→≡ (a ∷ s) (b ∷ t) h = grind (arith, same_bytes→≡ s t)

pub same_bytes_refl : (s : Bytes) → same_bytes s s ≡ true
unfolding same_bytes
same_bytes_refl [] = refl
same_bytes_refl (b ∷ s) = grind (arith, same_bytes_refl s)

-- The rest of a string behind a prefix.
unfoldable pub strip_prefix : Bytes → Bytes → Option Bytes
strip_prefix [] s = some s
strip_prefix (p ∷ prefix) [] = none
strip_prefix (p ∷ prefix) (b ∷ s) =
    let rest = strip_prefix prefix s in if eqb p b then rest else none

pub strip_prefix-splits :
    (prefix s rest : Bytes) → strip_prefix prefix s ≡ some rest → s ≡ prefix ++ rest
unfolding strip_prefix
strip_prefix-splits [] s rest e = ground arith
strip_prefix-splits (p ∷ prefix) [] rest e = cc
strip_prefix-splits (p ∷ prefix) (b ∷ s) rest e = grind (arith, strip_prefix-splits prefix s rest)

-- `strings.HasPrefix`
unfoldable pub has_prefix : Bytes → Bytes → Bool
has_prefix prefix s = elim (strip_prefix prefix s) [ none ↦ false | some rest ↦ true ]

-- `strings.Cut`: what stands before the first occurrence of a separator and behind it.
unfoldable pub cut : Bytes → Bytes → Option (Bytes × Bytes)
cut suffix [] = elim (strip_prefix suffix []) [ none ↦ none | some rest ↦ some ([], rest) ]
cut suffix (b ∷ s) =
    let later = cut suffix s in
    elim (strip_prefix suffix (b ∷ s)) [
      | none ↦ elim later [ none ↦ none | some (before, rest) ↦ some (b ∷ before, rest) ]
      | some rest ↦ some ([], rest)
    ]

pub cut-splits :
    (suffix s before rest : Bytes)
    → cut suffix s ≡ some (before, rest)
    → s ≡ before ++ (suffix ++ rest)
unfolding cut
cut-splits suffix [] before rest e = elim (Option-cases (strip_prefix suffix [])) [
  | inl x ↦ absurd (ground arith)
  | inr (r, x) ↦
      let shape : cut suffix [] ≡ some ([], r) = rw (x, cut) refl in
      let same : (before ≡ []) × (r ≡ rest) = ground (arith, e, shape) in
      strip_prefix-splits suffix [] r x
      ∙ ap (◌++◌ suffix) same.1
      ∙ ap (λ b. b ++ (suffix ++ rest)) (sym same.0)
]
cut-splits suffix (b ∷ s) before rest e = elim (Option-cases (strip_prefix suffix (b ∷ s))) [
  | inr (r, x) ↦
      let shape : cut suffix (b ∷ s) ≡ some ([], r) = rw (x, cut) refl in
      let same : (before ≡ []) × (r ≡ rest) = ground (arith, e, shape) in
      strip_prefix-splits suffix (b ∷ s) r x
      ∙ ap (◌++◌ suffix) same.1
      ∙ ap (λ l. l ++ (suffix ++ rest)) (sym same.0)
  | inl x ↦ elim (Option-cases (cut suffix s)) [
    | inl y ↦ absurd (ground arith)
    | inr (r, y) ↦
        let same : (before ≡ b ∷ r.0) × (r.1 ≡ rest) = ground arith in
        ap (◌∷◌ b) (cut-splits suffix s r.0 r.1 y)
        ∙ ap (λ l. (b ∷ r.0) ++ (suffix ++ l)) same.1
        ∙ ap (λ l. l ++ (suffix ++ rest)) (sym same.0)
  ]
]

pub strip_prefix-append : (prefix rest : Bytes) → strip_prefix prefix (prefix ++ rest) ≡ some rest
unfolding strip_prefix
strip_prefix-append [] rest = refl
strip_prefix-append (p ∷ prefix) rest = grind (arith, strip_prefix-append prefix rest)

cut_of_prefix :
    (suffix s rest : Bytes) → strip_prefix suffix s ≡ some rest → cut suffix s ≡ some ([], rest)
unfolding cut
cut_of_prefix suffix [] rest e = rw (e, cut) refl
cut_of_prefix suffix (b ∷ s) rest e = rw (e, cut) refl

-- What cannot be cut does not occur.
pub cut-occurs : (suffix before rest : Bytes) → cut suffix (before ++ (suffix ++ rest)) ≢ none
unfolding cut
cut-occurs suffix [] rest e =
    let found = cut_of_prefix suffix (suffix ++ rest) rest (strip_prefix-append suffix rest) in cc
cut-occurs suffix (b ∷ before) rest e =
    let s = before ++ (suffix ++ rest) in
    elim (Option-cases (strip_prefix suffix (b ∷ s))) [
      | inr (r, x) ↦ let found = cut_of_prefix suffix (b ∷ s) r x in cc
      | inl x ↦ elim (Option-cases (cut suffix s)) [
        | inl y ↦ cut-occurs suffix before rest y
        | inr (r, y) ↦ absurd (ground arith)
      ]
    ]
