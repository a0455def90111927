-- ===== src/RemoteMcpStore/Names.antt =====
-- internal/remotemcpstore/remotemcpstore.go: the names of the registrations.
use tclaw.Base.{
  ◌≡◌, refl, ap, ◌∙◌, sym, String, Bool, false, ◌||◌, Option, none, some, List, [], ◌∷◌, ◌++◌, ok,
  any, keep, map, ◌==◌, eq_iff, arith, Bool-cases, Option-cases, inl, inr,
}
use tclaw.RemoteMcpStore.{RemoteMcp, Manager, Faults}
use tclaw.RemoteMcpStore.Operations.{load, save, is_named, update_first, prune}
use tclaw.RemoteMcpStore.Pruning.{listed}

abbrev pub names : List RemoteMcp → List String
names mcps = map (λ (x : RemoteMcp). x.name) mcps

abbrev pub Unrepeated : List String → Type 0
Unrepeated [] = Unit
Unrepeated (n ∷ ns) = (listed n ns ≡ false) × Unrepeated ns

abbrev pub stored_list : Option (List RemoteMcp) → List RemoteMcp
stored_list none = []
stored_list (some mcps) = mcps

-- No two registrations in the store have the same name.
abbrev pub NamesUnique : Manager → Type 0
NamesUnique m = Unrepeated (names (stored_list m.store))

listed-append :
    (n x : String) (ns : List String) → listed n (ns ++ (x ∷ [])) ≡ (listed n ns || x == n)
listed-append n x [] = ground arith
listed-append n x (y ∷ ns) = ground (arith, listed-append n x ns)

pub Unrepeated-append :
    (ns : List String) (n : String)
    → Unrepeated ns
    → listed n ns ≡ false
    → Unrepeated (ns ++ (n ∷ []))
Unrepeated-append [] n u l = (refl, tt)
Unrepeated-append (x ∷ ns) n u l = (
  listed-append x n ns ∙ ground (arith, u.0, l, eq_iff n x, eq_iff x n),
  Unrepeated-append ns n u.1 (ground arith),
)

pub names-append :
    (mcps : List RemoteMcp) (mcp : RemoteMcp)
    → names (mcps ++ (mcp ∷ [])) ≡ names mcps ++ (mcp.name ∷ [])
names-append [] mcp = refl
names-append (x ∷ mcps) mcp = ap (◌∷◌ x.name) (names-append mcps mcp)

pub listed-names :
    (n : String) (mcps : List RemoteMcp) → listed n (names mcps) ≡ any (is_named n) mcps
listed-names n [] = refl
listed-names n (x ∷ mcps) = ap (λ b. x.name == n || b) (listed-names n mcps)

listed-keep :
    (n : String) (p : RemoteMcp → Bool) (mcps : List RemoteMcp)
    → listed n (names mcps) ≡ false
    → listed n (names (keep p mcps)) ≡ false
listed-keep n p [] h = refl
listed-keep n p (x ∷ mcps) h = ground (arith, listed-keep n p mcps)

pub Unrepeated-keep :
    (p : RemoteMcp → Bool) (mcps : List RemoteMcp)
    → Unrepeated (names mcps)
    → Unrepeated (names (keep p mcps))
Unrepeated-keep p [] u = tt
Unrepeated-keep p (x ∷ mcps) u = elim (Bool-cases (p x)) [
  | inl kept ↦ rw kept (listed-keep x.name p mcps u.0, Unrepeated-keep p mcps u.1)
  | inr gone ↦ rw gone (Unrepeated-keep p mcps u.1)
]

-- A change that keeps names.
abbrev pub KeepsName : (RemoteMcp → RemoteMcp) → Type 0
KeepsName fn = (mcp : RemoteMcp) → (fn mcp).name ≡ mcp.name

pub update_first-names :
    (fn : RemoteMcp → RemoteMcp) (name : String) (mcps after : List RemoteMcp)
    → KeepsName fn
    → update_first fn name mcps ≡ some after
    → names after ≡ names mcps
unfolding update_first
update_first-names fn name [] after k e = cc
update_first-names fn name (x ∷ mcps) after k e = elim (Bool-cases (is_named name x)) [
  | inl hit ↦
      let same : fn x ∷ mcps ≡ after = ground arith in
      ap names (sym same) ∙ ap (λ n. n ∷ names mcps) (k x)
  | inr differs ↦ elim (Option-cases (update_first fn name mcps)) [
    | inl nothing ↦ absurd (ground arith)
    | inr (rest, later) ↦
        let same : x ∷ rest ≡ after = ground arith in
        ap names (sym same) ∙ ap (◌∷◌ x.name) (update_first-names fn name mcps rest k later)
  ]
]

pub prune-names :
    (channel : String) (mcps : List RemoteMcp) → names (prune channel mcps).0 ≡ names mcps
unfolding prune
prune-names channel [] = refl
prune-names channel (x ∷ mcps) = ground (arith, prune-names channel mcps)

pub loaded-stored :
    (f : Faults) (m : Manager) (mcps : List RemoteMcp)
    → load f m ≡ ok mcps
    → stored_list m.store ≡ mcps
unfolding load
loaded-stored f m mcps e = ground (arith, e)

pub save-NamesUnique :
    (f : Faults) (m : Manager) (mcps : List RemoteMcp)
    → NamesUnique m
    → Unrepeated (names mcps)
    → NamesUnique (save f m mcps).0
unfolding save
save-NamesUnique f m mcps u v = elim (Bool-cases f.write_ok) [
  | inl written ↦ rw written v
  | inr failed ↦ rw failed u
]
