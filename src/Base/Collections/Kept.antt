-- ===== src/Base/Collections/Kept.antt =====
-- What the operations on a stored collection keep: that keys are not repeated, and what holds of
-- every entry.
use Prim.Native.String.{String}
use mathlib.Core.Path.{◌≡◌, refl, ap, ◌∙◌}
use mathlib.Core.Logic.{inl, inr}
use mathlib.Core.Bool.{false, ◌||◌}
use mathlib.Core.Option.{some}
use mathlib.Core.List.{List, [], ◌∷◌, ◌++◌}
use native.Mathlib.Omega.{arith}
use text.Mathlib.Text.{◌==◌}
use text.Mathlib.TextEquality.{eq_iff}
use tclaw.Base.Tests.{Bool-cases, Option-cases, Result, ok, err}
use tclaw.Base.Lists.{All, All-append, any-append}
use tclaw.Base.Collections.{
  Faults, StoreError, Stored, contents, list, save, on_change, on_list, list-contents, is_key, has,
  update_first, without, appended, updated, removed, Distinct,
}

module _ {A : Type 0} (key : A → String) (P : A → Type 0) where
  -- No two entries have the same key, and each is as it should be.
  abbrev pub Kept : List A → Type 0
  Kept xs = Distinct key xs × All P xs

  Distinct-append :
      (xs : List A) (x : A)
      → Distinct key xs
      → has key (key x) xs ≡ false
      → Distinct key (xs ++ (x ∷ []))
  Distinct-append [] x d absent = (refl, tt)
  Distinct-append (y ∷ xs) x d absent = (
    any-append (is_key key (key y)) xs (x ∷ [])
        ∙ ground (arith, d.0, absent, eq_iff (key x) (key y), eq_iff (key y) (key x)),
    Distinct-append xs x d.1 (ground arith),
  )

  has-without :
      (k j : String) (xs : List A) → has key k xs ≡ false → has key k (without key j xs) ≡ false
  unfolding without
  has-without k j [] h = refl
  has-without k j (x ∷ xs) h = ground (arith, has-without k j xs)

  without-Kept : (k : String) (xs : List A) → Kept xs → Kept (without key k xs)
  unfolding without
  without-Kept k [] h = (tt, tt)
  without-Kept k (x ∷ xs) h = elim (Bool-cases (is_key key k x)) [
    | inl gone ↦ rw gone (without-Kept k xs (h.0.1, h.1.1))
    | inr stays ↦
        let rest = without-Kept k xs (h.0.1, h.1.1) in
        rw stays ((has-without (key x) k xs h.0.0, rest.0), (h.1.0, rest.1))
  ]

  module _ (fn : A → A) (same_key : (x : A) → key (fn x) ≡ key x)
      (same : (x : A) → P x → P (fn x)) where
    has-update_first :
        (k j : String) (xs ys : List A)
        → update_first key fn k xs ≡ some ys
        → has key j ys ≡ has key j xs
    unfolding update_first
    has-update_first k j [] ys e = cc
    has-update_first k j (x ∷ xs) ys e = elim (Bool-cases (is_key key k x)) [
      | inl hit ↦ ground (arith, same_key x)
      | inr miss ↦ elim (Option-cases (update_first key fn k xs)) [
        | inl nothing ↦ absurd (ground arith)
        | inr (rest, found) ↦
            let shape : ys ≡ x ∷ rest = ground arith in
            rw shape (ap (λ b. key x == j || b) (has-update_first k j xs rest found))
      ]
    ]

    update_first-Kept :
        (k : String) (xs ys : List A) → update_first key fn k xs ≡ some ys → Kept xs → Kept ys
    unfolding update_first
    update_first-Kept k [] ys e h = cc
    update_first-Kept k (x ∷ xs) ys e h = elim (Bool-cases (is_key key k x)) [
      | inl hit ↦
          let shape : ys ≡ fn x ∷ xs = ground arith in
          rw shape (rw (same_key x) (h.0.0, h.0.1), (same x h.1.0, h.1.1))
      | inr miss ↦ elim (Option-cases (update_first key fn k xs)) [
        | inl nothing ↦ absurd (ground arith)
        | inr (rest, found) ↦
            let shape : ys ≡ x ∷ rest = ground arith in
            let kept = update_first-Kept k xs rest found (h.0.1, h.1.1) in
            rw shape ((has-update_first k (key x) xs rest found ∙ h.0.0, kept.0), (h.1.0, kept.1))
      ]
    ]

  on_change-Kept :
      (f : Faults) (s : Stored A) (r : Result StoreError (List A))
      → ((ys : List A) → r ≡ ok ys → Kept ys)
      → Kept (contents s)
      → Kept (contents (on_change f s r).0)
  unfolding save
  on_change-Kept f s (err e) h kept = kept
  on_change-Kept f s (ok ys) h kept = elim (Bool-cases f.write_ok) [
    | inl wrote ↦ rw wrote (h ys refl)
    | inr lost ↦ rw lost kept
  ]

  -- Whatever fails, a change of the array that keeps this keeps it in the store.
  on_list-Kept :
      (f : Faults) (s : Stored A) (change : List A → Result StoreError (List A))
      → ((ys : List A) → change (contents s) ≡ ok ys → Kept ys)
      → Kept (contents s)
      → Kept (contents (on_list f s change (list f s)).0)
  on_list-Kept f s change step kept = by_read (list f s) (list-contents f s)
    where
      by_read :
          (r : Result StoreError (List A))
          → ((xs : List A) → r ≡ ok xs → xs ≡ contents s)
          → Kept (contents (on_list f s change r).0)
      by_read (err e) h = kept
      by_read (ok xs) h = rw (h xs refl) (on_change-Kept f s (change (contents s)) step kept)

  pub add-Kept :
      (f : Faults) (s : Stored A) (x : A)
      → P x
      → Kept (contents s)
      → Kept (contents (on_list f s (appended key x) (list f s)).0)
  add-Kept f s x p kept = on_list-Kept f s (appended key x) (by_has (contents s) kept) kept
    where
      by_has : (xs : List A) → Kept xs → (ys : List A) → appended key x xs ≡ ok ys → Kept ys
      by_has xs k ys e = elim (Bool-cases (has key (key x) xs)) [
        | inl there ↦ absurd (ground arith)
        | inr new ↦
            let shape : ys ≡ xs ++ (x ∷ []) = ground arith in
            rw shape (Distinct-append xs x k.0 new, All-append P xs (x ∷ []) k.1 (p, tt))
      ]

  pub remove-Kept :
      (f : Faults) (s : Stored A) (k : String)
      → Kept (contents s)
      → Kept (contents (on_list f s (removed key k) (list f s)).0)
  remove-Kept f s k kept = on_list-Kept f s (removed key k) (by_has (contents s) kept) kept
    where
      by_has : (xs : List A) → Kept xs → (ys : List A) → removed key k xs ≡ ok ys → Kept ys
      by_has xs h ys e =
          let shape : ys ≡ without key k xs = ground arith in rw shape (without-Kept k xs h)

  pub update-Kept :
      (f : Faults) (s : Stored A) (fn : A → A) (k : String)
      → ((x : A) → key (fn x) ≡ key x)
      → ((x : A) → P x → P (fn x))
      → Kept (contents s)
      → Kept (contents (on_list f s (updated key fn k) (list f s)).0)
  update-Kept f s fn k same_key same kept =
      on_list-Kept f s (updated key fn k) (by_found (contents s) kept) kept
    where
      by_found : (xs : List A) → Kept xs → (ys : List A) → updated key fn k xs ≡ ok ys → Kept ys
      by_found xs h ys e = elim (Option-cases (update_first key fn k xs)) [
        | inl nothing ↦ absurd (ground arith)
        | inr (zs, found) ↦
            let shape : ys ≡ zs = ground arith in
            rw shape (update_first-Kept fn same_key same k xs zs found h)
      ]
