-- ===== src/Sessions/Transcripts.antt =====
-- internal/router/session_cleanup.go: the transcripts of an active session stay.
use tclaw.Base.{
  ℕ, ◌≡◌, refl, ap, ◌∙◌, sym, subst, String, Bool, true, false, not, ◌||◌, ◌&&◌, Option, none, some,
  List, [], ◌∷◌, ◌++◌, keep, All, ◌==◌, eq_iff, arith, Bool-cases, inl, inr,
}
use tclaw.Sessions.Cleanup.{
  File, Project, session_of, listed, is_data, remove_data, deletes, clean_transcript, clean_files,
  wiped, cleaned, clean_project, clean_projects,
}

abbrev pub is_of : String → Option String → Bool
is_of sid none = false
is_of sid (some t) = t == sid

abbrev pub is_transcript : String → File → Bool
is_transcript sid f = is_of sid (session_of f.name)

abbrev pub files_of : Option (List File) → List File
files_of none = []
files_of (some files) = files

abbrev pub of_session : String → List File → List File
of_session sid files = keep (is_transcript sid) files

-- The transcripts of a session that the projects hold.
abbrev pub transcripts : String → List Project → List File
transcripts sid [] = []
transcripts sid (p ∷ projects) = of_session sid (files_of p.files) ++ transcripts sid projects

abbrev pub transcripts_in : String → Option (List Project) → List File
transcripts_in sid none = []
transcripts_in sid (some projects) = transcripts sid projects

-- An id that stands for the directory itself or for its parent.
abbrev pub is_path : Option String → Bool
is_path none = false
is_path (some sid) = sid == "" || sid == "." || sid == ".."

-- No directory bears the name of a transcript of the session.
abbrev pub IsPlain : String → File → Type 0
IsPlain sid f = is_transcript sid f ≡ true → f.is_dir ≡ false

-- The entry's name is not `.jsonl`, `..jsonl` or `...jsonl`.
abbrev pub IsProper : File → Type 0
IsProper f = is_path (session_of f.name) ≡ false

-- Nothing in the projects is named so that the clean-up of other sessions deletes transcripts of this one.
abbrev pub Harmless : String → List Project → Type 0
Harmless sid projects =
    All (λ (p : Project). All IsProper (files_of p.files) × All (IsPlain sid) (files_of p.files))
      projects

module _ (active : List String) (now : ℕ) (sid : String)
    (is_active : listed sid active ≡ true) where
  -- Transcripts of the session stay under a test that they pass.
  keep-of_session :
      (test : File → Bool) (files : List File)
      → ((f : File) → IsPlain sid f → is_transcript sid f ≡ true → test f ≡ true)
      → All (IsPlain sid) files
      → of_session sid (keep test files) ≡ of_session sid files
  keep-of_session test [] passes plain = refl
  keep-of_session test (f ∷ files) passes plain =
      let ih = keep-of_session test files passes plain.1 in
      elim (Bool-cases (is_transcript sid f)) [
        | inl mine ↦ rw (passes f plain.0 mine) (rw mine (ap (◌∷◌ f) ih))
        | inr other ↦ elim (Bool-cases (test f)) [
          | inl kept ↦ rw kept (rw other ih)
          | inr gone ↦ rw gone (rw other ih)
        ]
      ]

  keep-IsPlain :
      (test : File → Bool) (files : List File)
      → All (IsPlain sid) files
      → All (IsPlain sid) (keep test files)
  keep-IsPlain test [] plain = tt
  keep-IsPlain test (f ∷ files) plain = elim (Bool-cases (test f)) [
    | inl kept ↦ rw kept (plain.0, keep-IsPlain test files plain.1)
    | inr gone ↦ rw gone (keep-IsPlain test files plain.1)
  ]

  -- What a turn leaves: the transcripts of the session, and the other projects.
  abbrev Spared : List File → List File × Bool → Type 0
  Spared files (files', all) =
      (of_session sid files' ≡ of_session sid files) × All (IsPlain sid) files' × (all ≡ false)

  remove_data-Spared :
      (t : String) (files : List File)
      → is_path (some t) ≡ false
      → All (IsPlain sid) files
      → Spared files (remove_data t files)
  unfolding remove_data
  remove_data-Spared t files proper plain =
      let here : (t == "" || t == ".") ≡ false = ground (arith, proper) in
      let parent : (t == "..") ≡ false = ground (arith, proper) in
      let test = λ (f : File). not (is_data t f) in
      let stays =
        keep-of_session test files
          (λ f p mine. rw (p mine) (no_data (f.name == t) f.tree_removable)) plain in
      rw here (rw parent (stays, keep-IsPlain test files plain, refl))
    where
      no_data : (a b : Bool) → not (a && false && b) ≡ true
      no_data true b = refl
      no_data false b = refl

  clean_transcript-Spared :
      (f : File) (files : List File) (o : Option String)
      → session_of f.name ≡ o
      → is_path o ≡ false
      → All (IsPlain sid) files
      → Spared files (clean_transcript active now f files o)
  clean_transcript-Spared f files none e proper plain = (refl, plain, refl)
  clean_transcript-Spared f files (some t) e proper plain =
      elim (Bool-cases (deletes active now f t files)) [
        | inr stays ↦ rw stays (refl, plain, refl)
        | inl gone ↦
            let inactive : listed t active ≡ false = ground (arith, gone) in
            let test = λ (k : File). not (k.name == f.name) in
            let without = keep-of_session test files (λ k p mine. another k inactive mine) plain in
            let both =
              remove_data-Spared t (keep test files) proper (keep-IsPlain test files plain) in
            rw gone (both.0 ∙ without, both.1, both.2)
      ]
    where
      another :
          (k : File)
          → listed t active ≡ false
          → is_transcript sid k ≡ true
          → not (k.name == f.name) ≡ true
      another k inactive mine = elim (Bool-cases (k.name == f.name)) [
        | inr other ↦ rw other refl
        | inl same ↦
            let of_f : is_of sid (session_of f.name) ≡ true =
              subst (λ n. is_of sid (session_of n) ≡ true) ((eq_iff k.name f.name).0 same) mine in
            let hit : (t == sid) ≡ true = subst (λ o. is_of sid o ≡ true) e of_f in
            let found : listed t active ≡ true =
              subst (λ x. listed x active ≡ true) (sym ((eq_iff t sid).0 hit)) is_active in
            absurd (ground (arith, found, inactive))
      ]

  clean_files-Spared :
      (entries files : List File)
      → All IsProper entries
      → All (IsPlain sid) files
      → Spared files (clean_files active now entries files)
  unfolding clean_files
  clean_files-Spared [] files proper plain = (refl, plain, refl)
  clean_files-Spared (f ∷ entries) files proper plain =
      let first = clean_transcript-Spared f files (session_of f.name) refl proper.0 plain in
      let rest =
        clean_files-Spared entries (clean_transcript active now f files (session_of f.name)).0
          proper.1 first.1 in
      (rest.0 ∙ first.0, rest.1, rw first.2 rest.2)

  clean_project-Spared :
      (p : Project)
      → All IsProper (files_of p.files)
      → All (IsPlain sid) (files_of p.files)
      → let (files, all) = clean_project active now p in
        (of_session sid (files_of files) ≡ of_session sid (files_of p.files)) × (all ≡ false)
  clean_project-Spared p proper plain = elim (Bool-cases p.is_dir) [
    | inr file ↦ rw file (refl, refl)
    | inl dir ↦ rw dir (by_files p.files proper plain)
  ]
    where
      by_files :
          (o : Option (List File))
          → All IsProper (files_of o)
          → All (IsPlain sid) (files_of o)
          → (of_session sid (files_of (cleaned active now o).0) ≡ of_session sid (files_of o))
            × ((cleaned active now o).1 ≡ false)
      by_files none proper plain = (refl, refl)
      by_files (some files) proper plain =
          let spared = clean_files-Spared files files proper plain in (spared.0, spared.2)

  wiped-none : (o : Option (List File)) → wiped false o ≡ o
  wiped-none none = refl
  wiped-none (some files) = refl

  pub clean_projects-transcripts :
      (projects : List Project)
      → Harmless sid projects
      → let (after, all) = clean_projects active now false projects in
        (transcripts sid after ≡ transcripts sid projects) × (all ≡ false)
  unfolding clean_projects
  clean_projects-transcripts [] harmless = (refl, refl)
  clean_projects-transcripts (p ∷ projects) harmless =
      let first = clean_project-Spared p harmless.0.0 harmless.0.1 in
      let rest = clean_projects-transcripts projects harmless.1 in
      let files = (clean_project active now p).0 in
      rw (wiped-none p.files) (
        rw first.1 (
          rw rest.1 (
            ap
                  (λ o.
                    of_session sid (files_of o)
                    ++ transcripts sid (clean_projects active now false projects).0)
                  (wiped-none files)
                ∙ ap (λ l. l ++ transcripts sid (clean_projects active now false projects).0)
                    first.0
                ∙ ap (λ l. of_session sid (files_of p.files) ++ l) rest.0,
            refl,
          )))
