-- ===== src/Base/Lists.antt =====
-- Lists measured by native numbers, and the searches and filters by a Boolean test that the
-- source writes as `for … range` loops.
use Prim.Native.Nat.{ℕ, zero, suc, ◌+◌, ◌-◌, ◌≤◌}
use mathlib.Core.Path.{◌≡◌, refl, ap}
use mathlib.Core.Logic.{inl, inr}
use mathlib.Core.Bool.{Bool, true, false, ◌||◌}
use mathlib.Core.Option
use mathlib.Core.Option.{Option, none, some}
use mathlib.Core.List.{List, [], ◌∷◌, ◌++◌}
use native.Mathlib.Omega.{arith}
use tclaw.Base.Tests.{if◌then◌else◌, Bool-cases}

module _ {ℓ} {A : Type ℓ} where
  abbrev pub length : List A → ℕ
  length [] = 0
  length (x ∷ xs) = suc (length xs)

  pub length-append : (xs ys : List A) → length (xs ++ ys) ≡ length xs + length ys
  length-append [] ys = omega arith
  length-append (x ∷ xs) ys = omega (arith, length-append xs ys)

  abbrev pub get_elem? : List A → ℕ → Option A
  get_elem? [] i = none
  get_elem? (x ∷ xs) zero = some x
  get_elem? (x ∷ xs) (suc i) = get_elem? xs i

  -- `append(xs[:i], xs[i+1:]...)`
  abbrev pub erase_index : List A → ℕ → List A
  erase_index [] i = []
  erase_index (x ∷ xs) zero = xs
  erase_index (x ∷ xs) (suc i) = x ∷ erase_index xs i

  -- The elements that pass a test, in order.
  abbrev pub keep : (A → Bool) → List A → List A
  keep p [] = []
  keep p (x ∷ xs) = let rest = keep p xs in if p x then x ∷ rest else rest

  abbrev pub any : (A → Bool) → List A → Bool
  any p [] = false
  any p (x ∷ xs) = p x || any p xs

  -- Every element passes, as a tuple that the tactics read.
  abbrev pub All {κ} : (A → Type κ) → List A → Type κ
  All P [] = Unit
  All P (x ∷ xs) = P x × All P xs

  pub All-append {κ} : (P : A → Type κ) (xs ys : List A) → All P xs → All P ys → All P (xs ++ ys)
  All-append P [] ys a b = b
  All-append P (x ∷ xs) ys a b = (a.0, All-append P xs ys a.1 b)

  pub keep-append : (p : A → Bool) (xs ys : List A) → keep p (xs ++ ys) ≡ keep p xs ++ keep p ys
  keep-append p [] ys = refl
  keep-append p (x ∷ xs) ys = ground (arith, keep-append p xs ys)

  pub any-append : (p : A → Bool) (xs ys : List A) → any p (xs ++ ys) ≡ (any p xs || any p ys)
  any-append p [] ys = refl
  any-append p (x ∷ xs) ys = ground (arith, any-append p xs ys)

  pub length-keep-le : (p : A → Bool) (xs : List A) → length (keep p xs) ≤ length xs
  length-keep-le p [] = omega arith
  length-keep-le p (x ∷ xs) = ground (arith, length-keep-le p xs)

  -- The first index whose element passes, as a loop with an early return finds it.
  pub keep-All : (p : A → Bool) (xs : List A) → All (λ x. p x ≡ true) (keep p xs)
  keep-All p [] = tt
  keep-All p (x ∷ xs) = elim (Bool-cases (p x)) [
    | inl hit ↦ rw hit (hit, keep-All p xs)
    | inr miss ↦ rw miss (keep-All p xs)
  ]

  unfoldable pub drop : ℕ → List A → List A
  drop zero xs = xs
  drop (suc n) [] = []
  drop (suc n) (x ∷ xs) = drop n xs

  pub length-drop : (k : ℕ) (xs : List A) → length (drop k xs) ≡ length xs - k
  unfolding drop
  length-drop zero xs = omega arith
  length-drop (suc k) [] = omega arith
  length-drop (suc k) (x ∷ xs) = omega (arith, length-drop k xs)

  pub All-drop {κ} : (P : A → Type κ) (k : ℕ) (xs : List A) → All P xs → All P (drop k xs)
  unfolding drop
  All-drop P zero xs all = all
  All-drop P (suc k) [] all = tt
  All-drop P (suc k) (x ∷ xs) all = All-drop P k xs all.1

  unfoldable pub find_index : (A → Bool) → List A → Option ℕ
  find_index p [] = none
  find_index p (x ∷ xs) = let rest = find_index p xs in if p x then some 0 else Option.map suc rest

-- The lists are equally long, and their elements related one by one.
abbrev pub AllPairs {ℓ} : {A B : Type ℓ} → (A → B → Type 0) → List A → List B → Type 0
AllPairs R [] [] = Unit
AllPairs R [] (y ∷ ys) = ⊥
AllPairs R (x ∷ xs) [] = ⊥
AllPairs R (x ∷ xs) (y ∷ ys) = R x y × AllPairs R xs ys

-- What a search by index finds: nothing, and then no element passes; or the first that passes.
pub data Finds {ℓ} {A : Type ℓ} (p : A → Bool) (xs : List A) : Option ℕ → Type ℓ where
  missing : All (λ x. p x ≡ false) xs → Finds p xs none
  found :
      (before : List A) (m : A) (after : List A) (i : ℕ)
      → xs ≡ before ++ (m ∷ after)
      → All (λ x. p x ≡ false) before
      → p m ≡ true
      → get_elem? xs i ≡ some m
      → erase_index xs i ≡ before ++ after
      → Finds p xs (some i)

Finds-cons {ℓ} :
    {A : Type ℓ} (p : A → Bool) (x : A) (xs : List A) {o : Option ℕ}
    → p x ≡ false
    → Finds p xs o
    → Finds p (x ∷ xs) (Option.map suc o)
Finds-cons p x xs e (missing none_pass) = missing (e, none_pass)
Finds-cons p x xs e (found before m after i split misses hit at erased) =
    found (x ∷ before) m after (suc i) (ap (◌∷◌ x) split) (e, misses) hit at (ap (◌∷◌ x) erased)

pub find_index-Finds {ℓ} : {A : Type ℓ} (p : A → Bool) (xs : List A) → Finds p xs (find_index p xs)
unfolding find_index
find_index-Finds p [] = missing tt
find_index-Finds p (x ∷ xs) = elim (Bool-cases (p x)) [
  | inl hit ↦ rw hit (found [] x xs 0 refl tt hit refl refl)
  | inr miss ↦ rw miss (Finds-cons p x xs miss (find_index-Finds p xs))
]
