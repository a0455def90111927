-- ===== src/Config/Scoping.antt =====
-- internal/config: the names that repositories refer to, before and after the deletion of a channel.
use tclaw.Base.{
  ◌≡◌, refl, ap, ◌∙◌, subst, String, false, not, List, [], ◌∷◌, any, All, ok, ◌==◌, eq_iff, arith,
  Result-cases, inl, inr,
}
use tclaw.Config.{Vocabulary, Channel, RepoConfig}
use tclaw.Config.Validation.{normalize, check_repo, check_repos, cons_ok, if_none}
use tclaw.Config.Checks.{listed, names, dedupe}
use tclaw.Config.Writer.{unlinked}
use tclaw.Config.Deletion.{Deleted, here, there, unlisted-Deleted, names-unlinked}

-- No two channels have the same name.
abbrev pub Unrepeated : List Channel → Type 0
Unrepeated [] = Unit
Unrepeated (ch ∷ channels) = (listed ch.name (names channels) ≡ false) × Unrepeated channels

-- No repository is restricted to the channel, be it with others.
abbrev pub Unscoped : String → List RepoConfig → Type 0
Unscoped name repos = All (λ r. listed name r.visible_to_channels ≡ false) repos

Unrepeated-unlinked :
    (name : String) (channels : List Channel)
    → Unrepeated channels
    → Unrepeated (unlinked name channels)
Unrepeated-unlinked name [] u = tt
Unrepeated-unlinked name (ch ∷ channels) u =
    (rw (names-unlinked name channels) u.0, Unrepeated-unlinked name channels u.1)

pub Unrepeated-Deleted :
    (name : String) {channels rest : List Channel}
    → Deleted name channels rest
    → Unrepeated channels
    → Unrepeated rest
Unrepeated-Deleted name (here ch channels hit) u = Unrepeated-unlinked name channels u.1
Unrepeated-Deleted name (there ch miss d) u =
    (unlisted-Deleted name ch.name d u.0, Unrepeated-Deleted name d u.1)

-- The name itself is gone.
pub gone-Deleted :
    (name : String) {channels rest : List Channel}
    → Deleted name channels rest
    → Unrepeated channels
    → listed name (names rest) ≡ false
gone-Deleted name (here ch channels hit) u =
    rw (names-unlinked name channels)
      (subst (λ n. listed n (names channels) ≡ false) ((eq_iff ch.name name).0 hit) u.0)
gone-Deleted name (there ch miss d) u = ground (arith, gone-Deleted name d u.1)

dedupe_of_Unrepeated :
    (seen : List String) (channels : List Channel)
    → All (λ ch. listed ch.name seen ≡ false) channels
    → Unrepeated channels
    → dedupe seen channels ≡ channels
unfolding dedupe
dedupe_of_Unrepeated seen [] apart u = refl
dedupe_of_Unrepeated seen (ch ∷ channels) apart u =
    rw apart.0 (
      ap (◌∷◌ ch) (dedupe_of_Unrepeated (ch.name ∷ seen) channels (still channels apart.1 u.0) u.1))
  where
    still :
        (cs : List Channel)
        → All (λ c. listed c.name seen ≡ false) cs
        → listed ch.name (names cs) ≡ false
        → All (λ c. listed c.name (ch.name ∷ seen) ≡ false) cs
    still [] a h = tt
    still (c ∷ cs) a h =
        (ground (arith, eq_iff c.name ch.name, eq_iff ch.name c.name), still cs a.1 (ground arith))

pub dedupe_all : (channels : List Channel) → Unrepeated channels → dedupe [] channels ≡ channels
dedupe_all channels u = dedupe_of_Unrepeated [] channels (nothing channels) u
  where
    nothing : (cs : List Channel) → All (λ ch. listed ch.name [] ≡ false) cs
    nothing [] = tt
    nothing (c ∷ cs) = (refl, nothing cs)

normalize-visible :
    (v : Vocabulary) (r r' : RepoConfig)
    → normalize v r ≡ ok r'
    → r'.visible_to_channels ≡ r.visible_to_channels
unfolding normalize
normalize-visible v r r' e = ground arith

any_unlisted-Deleted :
    (name : String) (known known' : List String) (visible : List String)
    → ((n : String) → (n == name) ≡ false → listed n known' ≡ listed n known)
    → listed name visible ≡ false
    → any (λ n. not (listed n known')) visible ≡ any (λ n. not (listed n known)) visible
any_unlisted-Deleted name known known' [] same h = refl
any_unlisted-Deleted name known known' (n ∷ visible) same h =
    ground (arith, same n, any_unlisted-Deleted name known known' visible same)

-- The repositories that are restricted to other channels alone are checked as before.
pub check_repos-Unscoped :
    (v : Vocabulary) (name : String) (known known' labels seen : List String)
    (repos : List RepoConfig)
    → ((n : String) → (n == name) ≡ false → listed n known' ≡ listed n known)
    → Unscoped name repos
    → check_repos v known' labels seen repos ≡ check_repos v known labels seen repos
unfolding check_repos check_repo
check_repos-Unscoped v name known known' labels seen [] same u = refl
check_repos-Unscoped v name known known' labels seen (r ∷ repos) same u =
    elim (Result-cases (normalize v r)) [
      | inr (e, bad) ↦ rw (bad, check_repos) refl
      | inl (r', good) ↦
          let visible =
            any_unlisted-Deleted name known known' r'.visible_to_channels same
              (rw (normalize-visible v r r' good) u.0) in
          let rest =
            check_repos-Unscoped v name known known' labels (r'.name ∷ seen) repos same u.1 in
          let same_repo : check_repo known' labels seen r' ≡ check_repo known labels seen r' =
            rw visible refl in
          let later' = check_repos v known' labels (r'.name ∷ seen) repos in
          rw (good, check_repos)
            (ap (λ k. if_none k (cons_ok r' later')) same_repo
              ∙ ap (λ x. if_none (check_repo known labels seen r') (cons_ok r' x)) rest)
    ]

-- Where the repositories pass, each is restricted to known channels alone.
pub check_repos-Known :
    (v : Vocabulary) (known labels seen : List String) (repos done : List RepoConfig)
    → check_repos v known labels seen repos ≡ ok done
    → All (λ r. any (λ n. not (listed n known)) r.visible_to_channels ≡ false) repos
unfolding check_repos check_repo
check_repos-Known v known labels seen [] done e = tt
check_repos-Known v known labels seen (r ∷ repos) done e = elim (Result-cases (normalize v r)) [
  | inr (e', bad) ↦ absurd (ground arith)
  | inl (r', good) ↦ elim (Result-cases (check_repos v known labels (r'.name ∷ seen) repos)) [
    | inr (e', bad) ↦ absurd (ground arith)
    | inl (done', passed) ↦ (
      subst (λ l. any (λ n. not (listed n known)) l ≡ false) (normalize-visible v r r' good)
          (ground arith),
      check_repos-Known v known labels (r'.name ∷ seen) repos done' passed,
    )
  ]
]

-- What is restricted to known channels alone is not restricted to an unknown one.
known_only :
    (name : String) (known visible : List String)
    → listed name known ≡ false
    → any (λ n. not (listed n known)) visible ≡ false
    → listed name visible ≡ false
known_only name known [] gone h = refl
known_only name known (n ∷ visible) gone h =
    ground (arith, eq_iff n name, known_only name known visible)

pub Known-Unscoped :
    (name : String) (known : List String) (repos : List RepoConfig)
    → listed name known ≡ false
    → All (λ r. any (λ n. not (listed n known)) r.visible_to_channels ≡ false) repos
    → Unscoped name repos
Known-Unscoped name known [] gone h = tt
Known-Unscoped name known (r ∷ repos) gone h =
    (known_only name known r.visible_to_channels gone h.0, Known-Unscoped name known repos gone h.1)
