-- ===== src/Base/Collections.antt =====
-- A collection that a store keeps as a JSON array under one key, as the stores of schedules and of
-- subscriptions do. What is stored is a decoded list, and Faults says which accesses fail.
pub mod Kept
use Prim.Native.String.{String}
use mathlib.Core.Path.{◌≡◌, refl, sym, ap, ◌∙◌}
use mathlib.Core.Logic.{inl, inr}
use mathlib.Core.Bool.{Bool, true, false, not, ◌||◌}
use mathlib.Core.Option.{Option, none, some}
use mathlib.Core.List.{List, [], ◌∷◌, ◌++◌, append_assoc}
use native.Mathlib.Omega.{arith}
use text.Mathlib.Text.{◌==◌}
use text.Mathlib.TextEquality.{eq_iff}
use text.Mathlib.TextPositions.{eq_refl}
use tclaw.Base.Tests.{if◌then◌else◌, Bool-cases, Option-cases, Result, ok, err}
use tclaw.Base.Lists.{any, keep, All, any-append}

pub record Faults : Type 0 where
  pub read_ok : Bool
  pub parse_ok : Bool
  pub write_ok : Bool

pub data StoreError : Type 0 where
  read_failed parse_failed save_failed already_exists not_found : StoreError

-- Nothing is stored before the first write.
abbrev pub Stored : Type 0 → Type 0
Stored A = Option (List A)

-- No access fails.
abbrev pub NoFaults : Faults → Type 0
NoFaults f = (f.read_ok ≡ true) × (f.parse_ok ≡ true) × (f.write_ok ≡ true)

module _ {A : Type 0} where
  abbrev pub contents : Stored A → List A
  contents none = []
  contents (some xs) = xs

  abbrev decoded : Bool → Stored A → Result StoreError (List A)
  decoded parse_ok none = ok []
  decoded true (some xs) = ok xs
  decoded false (some xs) = err parse_failed

  unfoldable pub list : Faults → Stored A → Result StoreError (List A)
  list f s = if f.read_ok then decoded f.parse_ok s else err read_failed

  -- The new contents, and the error if the write fails.
  unfoldable pub save : Faults → Stored A → List A → Stored A × Option StoreError
  save f s xs = if f.write_ok then (some xs, none) else (s, some save_failed)

  abbrev pub on_change :
      Faults → Stored A → Result StoreError (List A) → Stored A × Option StoreError
  on_change f s (ok ys) = save f s ys
  on_change f s (err e) = (s, some e)

  -- A change that reads the array first.
  abbrev pub on_list :
      Faults
      → Stored A
      → (List A → Result StoreError (List A))
      → Result StoreError (List A)
      → Stored A × Option StoreError
  on_list f s change (err e) = (s, some e)
  on_list f s change (ok xs) = on_change f s (change xs)

  pub list_ok : (f : Faults) (s : Stored A) → NoFaults f → list f s ≡ ok (contents s)
  unfolding list
  list_ok f none h = ground arith
  list_ok f (some xs) h = ground arith

  pub list-contents : (f : Faults) (s : Stored A) (xs : List A) → list f s ≡ ok xs → xs ≡ contents s
  unfolding list
  list-contents f none xs e = ground arith
  list-contents f (some ys) xs e = ground arith

  pub on_list_ok :
      (f : Faults) (s : Stored A) (change : List A → Result StoreError (List A)) (ys : List A)
      → NoFaults f
      → change (contents s) ≡ ok ys
      → on_list f s change (list f s) ≡ (some ys, none)
  unfolding save
  on_list_ok f s change ys fine e = rw (list_ok f s fine) (rw (e, on_change) (rw fine.2 refl))

module _ {A : Type 0} (key : A → String) where
  abbrev pub is_key : String → A → Bool
  is_key k x = key x == k

  abbrev pub has : String → List A → Bool
  has k xs = any (is_key k) xs

  unfoldable pub first : String → List A → Option A
  first k [] = none
  first k (x ∷ xs) = let later = first k xs in if is_key k x then some x else later

  unfoldable pub update_first : (A → A) → String → List A → Option (List A)
  update_first fn k [] = none
  update_first fn k (x ∷ xs) =
      let later = update_first fn k xs in
      if is_key k x
      then some (fn x ∷ xs)
      else elim later [ none ↦ none | some rest ↦ some (x ∷ rest) ]

  unfoldable pub without : String → List A → List A
  without k xs = keep (λ x. not (is_key k x)) xs

  abbrev pub appended : A → List A → Result StoreError (List A)
  appended x xs = if has (key x) xs then err already_exists else ok (xs ++ (x ∷ []))

  abbrev pub updated : (A → A) → String → List A → Result StoreError (List A)
  updated fn k xs = elim (update_first fn k xs) [ none ↦ err not_found | some ys ↦ ok ys ]

  abbrev pub removed : String → List A → Result StoreError (List A)
  removed k xs = if has k xs then ok (without k xs) else err not_found

  -- No two entries have the same key.
  abbrev pub Distinct : List A → Type 0
  Distinct [] = Unit
  Distinct (x ∷ xs) = (has (key x) xs ≡ false) × Distinct xs

  pub without_absent : (k : String) (xs : List A) → has k xs ≡ false → without k xs ≡ xs
  unfolding without
  without_absent k [] h = refl
  without_absent k (x ∷ xs) h = elim (Bool-cases (is_key k x)) [
    | inl same ↦ absurd (ground arith)
    | inr other ↦ rw other (ap (◌∷◌ x) (without_absent k xs (ground arith)))
  ]

  pub without-append :
      (k : String) (xs ys : List A) → without k (xs ++ ys) ≡ without k xs ++ without k ys
  unfolding without
  without-append k [] ys = refl
  without-append k (x ∷ xs) ys = elim (Bool-cases (is_key k x)) [
    | inl same ↦ rw same (without-append k xs ys)
    | inr other ↦ rw other (ap (◌∷◌ x) (without-append k xs ys))
  ]

  -- The entry of that key goes, and all else stays.
  pub without_middle :
      (x : A) (before after : List A)
      → has (key x) before ≡ false
      → has (key x) after ≡ false
      → without (key x) (before ++ (x ∷ after)) ≡ before ++ after
  unfolding without
  without_middle x [] after b a = rw (eq_refl (key x)) (without_absent (key x) after a)
  without_middle x (y ∷ before) after b a = elim (Bool-cases (is_key (key x) y)) [
    | inl same ↦ absurd (ground arith)
    | inr other ↦ rw other (ap (◌∷◌ y) (without_middle x before after (ground arith) a))
  ]

  pub update_first_middle :
      (fn : A → A) (x : A) (before after : List A)
      → has (key x) before ≡ false
      → update_first fn (key x) (before ++ (x ∷ after)) ≡ some (before ++ (fn x ∷ after))
  unfolding update_first
  update_first_middle fn x [] after b = rw (eq_refl (key x)) refl
  update_first_middle fn x (y ∷ before) after b = elim (Bool-cases (is_key (key x) y)) [
    | inl same ↦ absurd (ground arith)
    | inr other ↦ rw other (rw (update_first_middle fn x before after (ground arith)) refl)
  ]

  pub has_middle : (x : A) (before after : List A) → has (key x) (before ++ (x ∷ after)) ≡ true
  has_middle x [] after = rw (eq_refl (key x)) refl
  has_middle x (y ∷ before) after = ground (arith, has_middle x before after)

  pub first_middle :
      (x : A) (before after : List A)
      → has (key x) before ≡ false
      → first (key x) (before ++ (x ∷ after)) ≡ some x
  unfolding first
  first_middle x [] after b = rw (eq_refl (key x)) refl
  first_middle x (y ∷ before) after b = elim (Bool-cases (is_key (key x) y)) [
    | inl same ↦ absurd (ground arith)
    | inr other ↦ rw other (first_middle x before after (ground arith))
  ]
