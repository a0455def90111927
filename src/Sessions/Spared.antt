-- ===== src/Sessions/Spared.antt =====
-- internal/router/session_cleanup.go: the clean-up loses no current session.
use tclaw.Base.{
  ℕ, ◌≡◌, refl, sym, ap, ◌∙◌, subst, String, Bool, true, false, not, ◌||◌, Option, none, some, List,
  [], ◌∷◌, any-append, keep, lookup, length, eqb, if◌then◌else◌, Result, ok, err, ◌==◌, eq_iff,
  eq_refl, arith, Bool-cases, inl, inr,
}
use tclaw.Base.Collections.{Faults, StoreError}
use tclaw.Sessions.{
  SessionRecord, Store, valid_session_id, encoded, load, current_of, current_id, if_loaded, current,
}
use tclaw.Sessions.Current.{
  current_in, current_in-encoded, insert-current_in, load-current_in, load-current_of, current_ok,
}
use tclaw.Sessions.Latest.{null-invalid}
use tclaw.Sessions.Cleanup.{
  Project, listed, noted, collect_from, collect_active_session_ids, stays, pruned_in, prune_from,
  prune_session_store_records, cleanup_stale_sessions,
}
use tclaw.Sessions.Transcripts.{Harmless, transcripts_in, clean_projects-transcripts}

module _ (lower : String → String) (null : lower "null" ≡ "null") (faults : String → Faults)
    (now : ℕ) where
  id_of :
      (cleared valid : Bool) (sid : String)
      → ((if cleared then "" else if not valid then "" else sid) == "") ≡ false
      → (if cleared then "" else if not valid then "" else sid) ≡ sid
  id_of true valid sid named = cc
  id_of false false sid named = cc
  id_of false true sid named = refl

  current_id-named :
      (r : SessionRecord) → (current_id lower r == "") ≡ false → current_id lower r ≡ r.session_id
  current_id-named r named =
      id_of r.cleared (valid_session_id lower r.session_id) r.session_id named

  behind :
      (r : SessionRecord) (kept : List SessionRecord) (sid : String)
      → current_of lower kept ≡ sid
      → (sid == "") ≡ false
      → current_of lower (r ∷ kept) ≡ sid
  unfolding current_of
  behind r [] sid e named = absurd (ground (arith, e, named, eq_iff sid ""))
  behind r (q ∷ kept) sid e named = e

  -- What is pruned is not the last record, if that is an active session's.
  keep-current_of :
      (active : List String) (records : List SessionRecord)
      → (current_of lower records == "") ≡ false
      → listed (current_of lower records) active ≡ true
      → current_of lower (keep (stays active now) records) ≡ current_of lower records
  unfolding current_of
  keep-current_of active [] named found = refl
  keep-current_of active (r ∷ []) named found =
      let there : listed r.session_id active ≡ true =
        subst (λ sid. listed sid active ≡ true) (current_id-named r named) found in
      rw there refl
  keep-current_of active (r ∷ q ∷ records) named found =
      let ih = keep-current_of active (q ∷ records) named found in
      elim (Bool-cases (stays active now r)) [
        | inl kept ↦ rw kept (
            behind r (keep (stays active now) (q ∷ records)) (current_of lower (q ∷ records)) ih
              named)
        | inr pruned ↦ rw pruned ih
      ]

  current-keeps :
      (f : Faults) (key k : String) (s : Store)
      → current_in lower (lookup k (current lower f now key s).0) ≡ current_in lower (lookup k s)
  unfolding current
  current-keeps f key k s = by_load (load lower f now key s) (load-current_in lower f now key k s)
    where
      by_load :
          (r : Store × Result StoreError (List SessionRecord))
          → current_in lower (lookup k r.0) ≡ current_in lower (lookup k s)
          → current_in lower (lookup k (if_loaded (current_of lower) r).0)
            ≡ current_in lower (lookup k s)
      by_load (s', err x) h = h
      by_load (s', ok records) h = h

  noted-store : (r : Store × Result StoreError String) → (noted r).1 ≡ r.0
  noted-store (s, err e) = refl
  noted-store (s, ok sid) = refl

  noted-listed :
      (sid : String) (r : Store × Result StoreError String)
      → r.1 ≡ ok sid
      → (sid == "") ≡ false
      → listed sid (noted r).0 ≡ true
  noted-listed sid (s, err e) h named = cc
  noted-listed sid (s, ok found) h named =
      let same : found ≡ sid = ground arith in ground (arith, same, named, eq_refl sid)

  collect-keeps :
      (k : String) (keys : List String) (s : Store)
      → current_in lower (lookup k (collect_from lower faults now keys s).1)
        ≡ current_in lower (lookup k s)
  unfolding collect_from
  collect-keeps k [] s = refl
  collect-keeps k (key ∷ keys) s =
      let r = current lower (faults key) now key s in
      collect-keeps k keys (noted r).1
      ∙ ap (λ t. current_in lower (lookup k t)) (noted-store r)
      ∙ current-keeps (faults key) key k s

  or-true : (b : Bool) → (b || true) ≡ true
  or-true true = refl
  or-true false = refl

  collect-listed :
      (k : String) (keys : List String) (s : Store)
      → (faults k).read_ok ≡ true
      → (faults k).parse_ok ≡ true
      → listed k keys ≡ true
      → (current_in lower (lookup k s) == "") ≡ false
      → listed (current_in lower (lookup k s)) (collect_from lower faults now keys s).0 ≡ true
  unfolding collect_from
  collect-listed k [] s reads parses there named = cc
  collect-listed k (key ∷ keys) s reads parses there named = elim (Bool-cases (key == k)) [
    | inl same ↦
        let e : k ≡ key = sym ((eq_iff key k).0 same) in
        let r = current lower (faults key) now key s in
        let returned : r.1 ≡ ok (current_in lower (lookup k s)) =
          current_ok lower (faults key) now key s (subst (λ x. (faults x).read_ok ≡ true) e reads)
            (subst (λ x. (faults x).parse_ok ≡ true) e parses)
          ∙ ap (λ x. ok (current_in lower (lookup x s))) (sym e) in
        any-append (λ x. x == current_in lower (lookup k s)) (noted r).0
          (collect_from lower faults now keys (noted r).1).0
        ∙ rw (noted-listed (current_in lower (lookup k s)) r returned named) refl
    | inr other ↦
        let r = current lower (faults key) now key s in
        let keeps : current_in lower (lookup k (noted r).1) ≡ current_in lower (lookup k s) =
          ap (λ t. current_in lower (lookup k t)) (noted-store r)
          ∙ current-keeps (faults key) key k s in
        let later : listed (current_in lower (lookup k s))
              (collect_from lower faults now keys (noted r).1).0
            ≡ true =
          subst (λ sid. listed sid (collect_from lower faults now keys (noted r).1).0 ≡ true) keeps
            (collect-listed k keys (noted r).1 reads parses (ground (arith, other, there))
              (subst (λ sid. (sid == "") ≡ false) (sym keeps) named)) in
        any-append (λ x. x == current_in lower (lookup k s)) (noted r).0
          (collect_from lower faults now keys (noted r).1).0
        ∙ rw later (or-true (listed (current_in lower (lookup k s)) (noted r).0))
  ]

  module _ (active : List String) (k : String) where
    pruned_in-keeps :
        (f : Faults) (key : String) (s : Store) (r : Store × Result StoreError (List SessionRecord))
        → current_in lower (lookup k r.0) ≡ current_in lower (lookup k s)
        → ((records : List SessionRecord)
            → r.1 ≡ ok records
            → current_of lower records ≡ current_in lower (lookup key s))
        → (current_in lower (lookup k s) == "") ≡ false
        → listed (current_in lower (lookup k s)) active ≡ true
        → current_in lower (lookup k (pruned_in f active now key r)) ≡ current_in lower (lookup k s)
    pruned_in-keeps f key s (s', err x) h loads named found = h
    pruned_in-keeps f key s (s', ok records) h loads named found =
        let kept = keep (stays active now) records in
        elim (Bool-cases (eqb (length records) (length kept))) [
          | inl all ↦ rw all h
          | inr fewer ↦ elim (Bool-cases f.write_ok) [
            | inr unwritten ↦ rw fewer (rw unwritten h)
            | inl written ↦ rw fewer (
                rw written (
                  insert-current_in lower key k (encoded kept) s' ∙ elim (Bool-cases (key == k)) [
                    | inr other ↦ rw other h
                    | inl same ↦
                        let e : current_of lower records ≡ current_in lower (lookup k s) =
                          loads records refl
                          ∙ ap (λ x. current_in lower (lookup x s)) ((eq_iff key k).0 same) in
                        rw same (
                          current_in-encoded lower kept (null-invalid lower null)
                          ∙ keep-current_of active records
                              (subst (λ sid. (sid == "") ≡ false) (sym e) named)
                              (subst (λ sid. listed sid active ≡ true) (sym e) found)
                          ∙ e)
                  ]))
          ]
        ]

    prune_from-keeps :
        (keys : List String) (s : Store)
        → (current_in lower (lookup k s) == "") ≡ false
        → listed (current_in lower (lookup k s)) active ≡ true
        → current_in lower (lookup k (prune_from lower faults active now keys s))
          ≡ current_in lower (lookup k s)
    unfolding prune_from
    prune_from-keeps [] s named found = refl
    prune_from-keeps (key ∷ keys) s named found =
        let r = load lower (faults key) now key s in
        let e : current_in lower (lookup k (pruned_in (faults key) active now key r))
            ≡ current_in lower (lookup k s) =
          pruned_in-keeps (faults key) key s r (load-current_in lower (faults key) now key k s)
            (load-current_of lower (faults key) now key s) named found in
        prune_from-keeps keys (pruned_in (faults key) active now key r)
          (subst (λ sid. (sid == "") ≡ false) (sym e) named)
          (subst (λ sid. listed sid active ≡ true) (sym e) found)
        ∙ e

-- The same of the projects' directory, which need not be readable.
abbrev pub HarmlessIn : String → Option (List Project) → Type 0
HarmlessIn sid none = Unit
HarmlessIn sid (some projects) = Harmless sid projects

-- The clean-up loses no current session: if the directory of sessions can be read and names a
-- channel whose entry can be read and decoded, no entry of a project's directory is named `.jsonl`,
-- `..jsonl` or `...jsonl`, and no directory is named as a transcript of the channel's current
-- session, then that channel has the same current session afterwards, and every transcript of it is
-- still there, however old it is and whatever else fails.
pub cleanup-Spares :
    (lower : String → String) (faults : String → Faults) (now : ℕ) (keys : List String)
    (projects : Option (List Project)) (s : Store) (k : String)
    → lower "null" ≡ "null"
    → (faults k).read_ok ≡ true
    → (faults k).parse_ok ≡ true
    → listed k keys ≡ true
    → (current_in lower (lookup k s) == "") ≡ false
    → HarmlessIn (current_in lower (lookup k s)) projects
    → let sid = current_in lower (lookup k s) in
      let after = cleanup_stale_sessions lower faults now (some keys) projects s in
      (current_in lower (lookup k after.1) ≡ sid)
      × (transcripts_in sid after.0 ≡ transcripts_in sid projects)
unfolding cleanup_stale_sessions collect_active_session_ids prune_session_store_records
cleanup-Spares lower faults now keys none s k null reads parses there named harmless = (refl, refl)
cleanup-Spares lower faults now keys (some projects) s k null reads parses there named harmless =
    let (active, s') = collect_from lower faults now keys s in
    let keeps = collect-keeps lower null faults now k keys s in
    let found = collect-listed lower null faults now k keys s reads parses there named in
    (
      prune_from-keeps lower null faults now active k keys s'
            (subst (λ sid. (sid == "") ≡ false) (sym keeps) named)
            (subst (λ sid. listed sid active ≡ true) (sym keeps) found)
          ∙ keeps,
      (clean_projects-transcripts active now (current_in lower (lookup k s)) found projects
          harmless).0,
    )
