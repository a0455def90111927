-- ===== src/Sessions/Tests.antt =====
-- Two channels, one of them with a session of the old format, under a case mapping that changes nothing.
use tclaw.Base.{
  ◌≡◌, refl, String, false, true, some, [], ◌∷◌, lookup, ok, if◌then◌else◌, ◌==◌, runes, arith,
}
use tclaw.Base.Collections.{Faults}
use tclaw.Sessions.{
  Store, history, legacy, fresh, valid_session_id, current_of, current, set_current,
}
use tclaw.Sessions.Current.{current_in}
use tclaw.Sessions.Register.{current-set_current}
use tclaw.Sessions.Latest.{registered}
use tclaw.Sessions.Cleanup.{
  File, Project, session_of, remove_data, after_cutoff, clean_files, cleanup_stale_sessions,
}
use tclaw.Sessions.Spared.{HarmlessIn, cleanup-Spares}
use tclaw.Sessions.Transcripts.{transcripts_in}

abbrev lower : String → String
lower s = s

abbrev fine : Faults
fine = record { read_ok = true; parse_ok = true; write_ok = true }

abbrev store : Store
store = ("main", history (fresh 1 "a" ∷ fresh 5 "b" ∷ [])) ∷ ("dev", legacy "c") ∷ []

current-set_current_example :
    (current lower fine 9 "main" (set_current lower fine 8 "main" "" store).0).1
    ≡ ok (
        if "main" == "main"
        then registered lower "" (current_in lower (lookup "main" store))
        else current_in lower (lookup "main" store))
current-set_current_example =
    current-set_current lower fine fine 8 9 "main" "" "main" store refl (refl, refl, refl)
      (refl, refl, refl)

abbrev old : String → File
old name = record {
  name = name;
  is_dir = false;
  mod_time = some 1;
  removable = true;
  tree_removable = true;
}

-- Three transcripts, and the data of the first session.
abbrev project : Project
project = record {
  is_dir = true;
  files =
      some
        (old "a.jsonl" ∷ record (old "a") { is_dir = true } ∷ old "b.jsonl" ∷ old "c.jsonl" ∷ []);
}

has_session : (current_in lower (lookup "main" store) == "") ≡ false
unfolding current_of valid_session_id lookup runes
has_session = refl

harmless : HarmlessIn (current_in lower (lookup "main" store)) (some (project ∷ []))
unfolding session_of current_of valid_session_id lookup runes
harmless = (
  (
    (refl, (refl, (refl, (refl, tt)))),
    ((λ h. refl), ((λ h. absurd (ground arith)), ((λ h. refl), ((λ h. refl), tt)))),
  ),
  tt,
)

-- A stale file named `.jsonl` takes the whole directory with it, the transcript of an active session
-- included.
nameless_transcript :
    clean_files
      ("b" ∷ [])
      900_000_000_000_000
      (old "b.jsonl" ∷ old ".jsonl" ∷ [])
      (old "b.jsonl" ∷ old ".jsonl" ∷ [])
    ≡ ([], false)
unfolding clean_files remove_data session_of after_cutoff
nameless_transcript = refl

cleanup-Spares_example :
    let sid = current_in lower (lookup "main" store) in
    let after =
      cleanup_stale_sessions lower
        (λ key. fine)
        900_000_000_000_000
        (some ("dev" ∷ "main" ∷ []))
        (some (project ∷ []))
        store in
    (current_in lower (lookup "main" after.1) ≡ sid)
    × (transcripts_in sid after.0 ≡ transcripts_in sid (some (project ∷ [])))
cleanup-Spares_example =
    cleanup-Spares lower (λ key. fine) 900_000_000_000_000 ("dev" ∷ "main" ∷ [])
      (some (project ∷ [])) store "main" refl refl refl refl has_session harmless
