-- ===== src/Base/Dicts.antt =====
-- Go maps with string keys, as association lists.
use Prim.Native.String.{String}
use mathlib.Core.Path.{◌≡◌, refl}
use mathlib.Core.Option.{Option, none, some}
use mathlib.Core.List.{List, [], ◌∷◌}
use native.Mathlib.Omega.{arith}
use text.Mathlib.Text.{◌==◌}
use text.Mathlib.TextEquality.{eq_iff}
use tclaw.Base.Tests.{if◌then◌else◌}

-- `map[string]V`
abbrev pub Dict {ℓ} : Type ℓ → Type ℓ
Dict V = List (String × V)

module _ {ℓ} {V : Type ℓ} where
  -- `v, ok := dict[key]`
  unfoldable pub lookup : (key : String) (dict : Dict V) → Option V
  lookup key [] = none
  lookup key (first ∷ others) =
      let found = lookup key others in if first.0 == key then some first.1 else found

  -- `dict[key] = value`
  unfoldable pub insert : (key : String) (value : V) (dict : Dict V) → Dict V
  insert key value [] = (key, value) ∷ []
  insert key value (first ∷ others) =
      let deeper = insert key value others in
      if first.0 == key then (key, value) ∷ others else first ∷ deeper

  -- `delete(dict, key)`
  unfoldable pub remove : (key : String) (dict : Dict V) → Dict V
  remove key [] = []
  remove key (first ∷ others) =
      let rest = remove key others in if first.0 == key then rest else first ∷ rest

  pub lookup-insert :
      (written read : String) (value : V) (dict : Dict V)
      → lookup read (insert written value dict)
        ≡ (if written == read then some value else lookup read dict)
  unfolding lookup insert
  lookup-insert written read value [] = refl
  lookup-insert written read value (first ∷ others) = ground (
    arith,
    lookup-insert written read value others,
    eq_iff first.0 written,
    eq_iff first.0 read,
    eq_iff written read,
  )

  pub lookup-remove :
      (gone read : String) (dict : Dict V)
      → lookup read (remove gone dict) ≡ (if gone == read then none else lookup read dict)
  unfolding lookup remove
  lookup-remove gone read [] = ground arith
  lookup-remove gone read (first ∷ others) = ground (
    arith,
    lookup-remove gone read others,
    eq_iff first.0 gone,
    eq_iff first.0 read,
    eq_iff gone read,
  )
