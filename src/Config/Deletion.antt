-- ===== src/Config/Deletion.antt =====
-- internal/config: what the deletion of a channel leaves of the names, the channels and the links that
-- validation looks at.
use tclaw.Base.{
  ◌≡◌, refl, ap, String, Bool, true, false, not, ◌||◌, none, some, List, [], ◌∷◌, keep, ok, ◌==◌,
  eq_iff, arith, Bool-cases, Option-cases, inl, inr,
}
use tclaw.Config.{Vocabulary, Link, Channel}
use tclaw.Config.Checks.{
  or_error, listed, names, check_channel, check_channels, check_links, check_all_links,
}
use tclaw.Config.Writer.{is_named, unlink, unlinked, without_first, removed}

-- The channels after the deletion of the first one of that name.
pub data Deleted (name : String) : List Channel → List Channel → Type 0 where
  here :
      (ch : Channel) (channels : List Channel)
      → is_named name ch ≡ true
      → Deleted name (ch ∷ channels) (unlinked name channels)
  there :
      (ch : Channel) {channels rest : List Channel}
      → is_named name ch ≡ false
      → Deleted name channels rest
      → Deleted name (ch ∷ channels) (unlink name ch ∷ rest)

without_first-Deleted :
    (name : String) (channels rest : List Channel)
    → without_first name channels ≡ some rest
    → Deleted name channels (unlinked name rest)
unfolding without_first
without_first-Deleted name [] rest e = cc
without_first-Deleted name (ch ∷ channels) rest e = elim (Bool-cases (is_named name ch)) [
  | inl hit ↦ let same : rest ≡ channels = ground arith in rw same (here ch channels hit)
  | inr miss ↦ elim (Option-cases (without_first name channels)) [
    | inl nothing ↦ absurd (ground arith)
    | inr (later, found) ↦
        let same : rest ≡ ch ∷ later = ground arith in
        rw same (there ch miss (without_first-Deleted name channels later found))
  ]
]

pub removed-Deleted :
    (name : String) (channels rest : List Channel)
    → removed name channels ≡ ok rest
    → Deleted name channels rest
unfolding removed
removed-Deleted name channels rest e = elim (Option-cases (without_first name channels)) [
  | inl nothing ↦ absurd (ground arith)
  | inr (later, found) ↦
      let same : rest ≡ unlinked name later = ground arith in
      rw same (without_first-Deleted name channels later found)
]

-- Everything in the first list is in the second.
abbrev pub Within : List String → List String → Type 0
Within xs ys = (n : String) → listed n ys ≡ false → listed n xs ≡ false

Within-cons : (n : String) (xs ys : List String) → Within xs ys → Within (n ∷ xs) (n ∷ ys)
Within-cons n xs ys h m e = ground (arith, h m)

pub names-unlinked :
    (name : String) (channels : List Channel) → names (unlinked name channels) ≡ names channels
names-unlinked name [] = refl
names-unlinked name (ch ∷ channels) = ap (◌∷◌ ch.name) (names-unlinked name channels)

-- Another name stays.
pub listed-Deleted :
    (name n : String) {channels rest : List Channel}
    → Deleted name channels rest
    → (n == name) ≡ false
    → listed n (names rest) ≡ listed n (names channels)
listed-Deleted name n (here ch channels hit) other =
    rw (names-unlinked name channels)
      (ground (arith, eq_iff ch.name name, eq_iff ch.name n, eq_iff n name))
listed-Deleted name n (there ch miss d) other =
    ap (λ b. ch.name == n || b) (listed-Deleted name n d other)

-- A deletion adds no name.
pub unlisted-Deleted :
    (name n : String) {channels rest : List Channel}
    → Deleted name channels rest
    → listed n (names channels) ≡ false
    → listed n (names rest) ≡ false
unlisted-Deleted name n (here ch channels hit) h = rw (names-unlinked name channels) (ground arith)
unlisted-Deleted name n (there ch miss d) h = ground (arith, unlisted-Deleted name n d)

module _ (v : Vocabulary) (telegram name : String) where
  check_channel-unlink :
      (d : Bool) (ch : Channel)
      → check_channel v telegram d ch ≡ none
      → (d ≡ false) × (check_channel v telegram false (unlink name ch) ≡ none)
  unfolding check_channel
  check_channel-unlink true ch e = absurd (ground arith)
  check_channel-unlink false ch e = (refl, e)

  check_channels-unlinked :
      (seen seen' : List String) (channels : List Channel)
      → Within seen' seen
      → check_channels v telegram seen channels ≡ none
      → check_channels v telegram seen' (unlinked name channels) ≡ none
  unfolding check_channels
  check_channels-unlinked seen seen' [] w e = refl
  check_channels-unlinked seen seen' (ch ∷ channels) w e =
      let first : check_channel v telegram (listed ch.name seen) ch ≡ none = ground arith in
      let one = check_channel-unlink (listed ch.name seen) ch first in
      rw (w ch.name one.0) (
        rw (one.1, or_error)
          (check_channels-unlinked (ch.name ∷ seen) (ch.name ∷ seen') channels
            (Within-cons ch.name seen' seen w) (ground arith)))

  pub check_channels-Deleted :
      {channels rest : List Channel} (seen seen' : List String)
      → Deleted name channels rest
      → Within seen' seen
      → check_channels v telegram seen channels ≡ none
      → check_channels v telegram seen' rest ≡ none
  unfolding check_channels
  check_channels-Deleted seen seen' (here ch channels hit) w e =
      check_channels-unlinked (ch.name ∷ seen) seen' channels (λ n h. w n (ground arith))
        (ground arith)
  check_channels-Deleted seen seen' (there ch miss d) w e =
      let first : check_channel v telegram (listed ch.name seen) ch ≡ none = ground arith in
      let one = check_channel-unlink (listed ch.name seen) ch first in
      rw (w ch.name one.0) (
        rw (one.1, or_error)
          (check_channels-Deleted (ch.name ∷ seen) (ch.name ∷ seen') d
            (Within-cons ch.name seen' seen w) (ground arith)))

module _ (name : String) (known known' : List String)
    (stays : (n : String)
      → listed n known ≡ true
      → (n == name) ≡ false
      → listed n known' ≡ true) where
  check_links-unlink :
      (from : String) (targets targets' : List String) (links : List Link)
      → Within targets' targets
      → check_links known from targets links ≡ none
      → check_links known' from targets' (keep (λ link. not (link.target == name)) links) ≡ none
  unfolding check_links
  check_links-unlink from targets targets' [] w e = refl
  check_links-unlink from targets targets' (link ∷ links) w e =
      elim (Bool-cases (link.target == name)) [
        | inl gone ↦ rw gone (
            check_links-unlink from (link.target ∷ targets) targets' links
              (λ n h. w n (ground arith)) (ground arith))
        | inr kept ↦
            let there' = stays link.target (ground arith) kept in
            let fresh = w link.target (ground arith) in
            let rest =
              check_links-unlink from (link.target ∷ targets) (link.target ∷ targets') links
                (Within-cons link.target targets' targets w) (ground arith) in
            rw kept (ground arith)
      ]

  check_all_links-unlinked :
      (channels : List Channel)
      → check_all_links known channels ≡ none
      → check_all_links known' (unlinked name channels) ≡ none
  unfolding check_all_links
  check_all_links-unlinked [] e = refl
  check_all_links-unlinked (ch ∷ channels) e =
      let one = check_links-unlink ch.name [] [] ch.links (λ n h. h) (ground arith) in
      rw (one, or_error) (check_all_links-unlinked channels (ground arith))

  pub check_all_links-Deleted :
      {channels rest : List Channel}
      → Deleted name channels rest
      → check_all_links known channels ≡ none
      → check_all_links known' rest ≡ none
  unfolding check_all_links
  check_all_links-Deleted (here ch channels hit) e =
      check_all_links-unlinked channels (ground arith)
  check_all_links-Deleted (there ch miss d) e =
      let one = check_links-unlink ch.name [] [] ch.links (λ n h. h) (ground arith) in
      rw (one, or_error) (check_all_links-Deleted d (ground arith))
