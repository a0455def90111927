-- ===== src/Sessions/Cleanup.antt =====
-- internal/router/session_cleanup.go: `cleanupStaleSessions`, over the transcripts that the projects'
-- directories hold and the records of sessions.
use Prim.Native.String.{len, slice}
use tclaw.Base.{
  ℕ, ◌+◌, ◌-◌, String, Bool, true, false, not, ◌||◌, ◌&&◌, Option, none, some, List, [], ◌∷◌, ◌++◌,
  any, keep, insert, length, eqb, ltb, if◌then◌else◌, Result, ok, err, ◌==◌,
}
use tclaw.Base.Collections.{Faults, StoreError}
use tclaw.Sessions.{SessionRecord, Store, encoded, load, current}

-- An entry of a project's directory: whether it is a directory, the time of the last change if that
-- can be read, and whether it can be deleted, by itself and with all that it holds.
pub record File : Type 0 where
  pub name : String
  pub is_dir : Bool
  pub mod_time : Option ℕ
  pub removable : Bool
  pub tree_removable : Bool

-- An entry of the projects' directory; a directory that cannot be read holds none.
pub record Project : Type 0 where
  pub is_dir : Bool
  pub files : Option (List File)

-- The id of the session whose transcript has this name: `<id>.jsonl`.
unfoldable pub session_of : String → Option String
session_of name =
    let n = len name - 6 in
    if not (ltb (len name) 6) && slice name n (len name) == ".jsonl"
    then some (slice name 0 n)
    else none

-- Seven days.
abbrev pub session_retention : ℕ
session_retention = 604_800_000_000_000

-- The cutoff is `now` less the retention.
unfoldable pub after_cutoff : ℕ → ℕ → Bool
after_cutoff now t = ltb now (t + session_retention)

abbrev pub listed : String → List String → Bool
listed sid active = any (λ x. x == sid) active

abbrev pub noted : Store × Result StoreError String → List String × Store
noted (s, err e) = ([], s)
noted (s, ok sid) = (if sid == "" then [] else sid ∷ [], s)

-- The current sessions of the channels whose keys are given; one that cannot be loaded is passed over.
unfoldable pub collect_from :
    (String → String) → (String → Faults) → ℕ → List String → Store → List String × Store
collect_from lower faults now [] s = ([], s)
collect_from lower faults now (key ∷ keys) s =
    let (first, s') = noted (current lower (faults key) now key s) in
    let (later, s'') = collect_from lower faults now keys s' in (first ++ later, s'')

-- A directory of sessions that cannot be read names no session.
unfoldable pub collect_active_session_ids :
    (String → String) → (String → Faults) → ℕ → Option (List String) → Store → List String × Store
collect_active_session_ids lower faults now none s = ([], s)
collect_active_session_ids lower faults now (some keys) s = collect_from lower faults now keys s

abbrev pub is_stale : ℕ → Option ℕ → Bool
is_stale now none = false
is_stale now (some t) = not (after_cutoff now t)

abbrev pub is_there : String → List File → Bool
is_there name files = any (λ (f : File). f.name == name) files

-- What the deletion of a whole project's directory leaves of its files.
abbrev pub survivors : List File → List File
survivors files = keep (λ (f : File). not f.tree_removable) files

-- The directory of a session's data, if it can be deleted.
abbrev pub is_data : String → File → Bool
is_data sid f = f.name == sid && f.is_dir && f.tree_removable

-- The deletion of `filepath.Join(projectPath, sessionID)`: the project's own directory for an id that
-- names it, and the directory of all projects, which is the flag, for the id that names its parent.
unfoldable pub remove_data : String → List File → List File × Bool
remove_data sid files =
    if sid == "" || sid == "."
    then (survivors files, false)
    else if sid == ".."
    then (survivors files, true)
    else (keep (λ f. not (is_data sid f)) files, false)

abbrev pub deletes : List String → ℕ → File → String → List File → Bool
deletes active now f sid files =
    not (listed sid active) && is_there f.name files && is_stale now f.mod_time && f.removable

abbrev pub clean_transcript : List String → ℕ → File → List File → Option String → List File × Bool
clean_transcript active now f files none = (files, false)
clean_transcript active now f files (some sid) =
    if deletes active now f sid files
    then remove_data sid (keep (λ (e : File). not (e.name == f.name)) files)
    else (files, false)

-- The loop over the entries that were read, and the files that are there.
unfoldable pub clean_files : List String → ℕ → List File → List File → List File × Bool
clean_files active now [] files = (files, false)
clean_files active now (f ∷ entries) files =
    let (files', all) = clean_transcript active now f files (session_of f.name) in
    let (files'', all') = clean_files active now entries files' in (files'', all || all')

-- A project after the deletion of all of them, if that happened.
abbrev pub wiped : Bool → Option (List File) → Option (List File)
wiped all none = none
wiped all (some files) = some (if all then survivors files else files)

abbrev pub cleaned : List String → ℕ → Option (List File) → Option (List File) × Bool
cleaned active now none = (none, false)
cleaned active now (some files) =
    let (files', all) = clean_files active now files files in (some files', all)

abbrev pub clean_project : List String → ℕ → Project → Option (List File) × Bool
clean_project active now p = if p.is_dir then cleaned active now p.files else (p.files, false)

-- The loop over the projects that were read; the flags say whether all projects were deleted before it
-- and in it.
unfoldable pub clean_projects : List String → ℕ → Bool → List Project → List Project × Bool
clean_projects active now before [] = ([], false)
clean_projects active now before (p ∷ projects) =
    let (files, all) = clean_project active now (record p { files = wiped before p.files }) in
    let (later, all') = clean_projects active now (before || all) projects in
    (record p { files = wiped all' files } ∷ later, all || all')

abbrev pub stays : List String → ℕ → SessionRecord → Bool
stays active now r = listed r.session_id active || after_cutoff now r.started_at

abbrev pub pruned_in :
    Faults → List String → ℕ → String → Store × Result StoreError (List SessionRecord) → Store
pruned_in f active now key (s, err e) = s
pruned_in f active now key (s, ok records) =
    let kept = keep (stays active now) records in
    if eqb (length records) (length kept)
    then s
    else if f.write_ok
    then insert key (encoded kept) s
    else s

unfoldable pub prune_from :
    (String → String) → (String → Faults) → List String → ℕ → List String → Store → Store
prune_from lower faults active now [] s = s
prune_from lower faults active now (key ∷ keys) s =
    prune_from lower faults active now keys
      (pruned_in (faults key) active now key (load lower (faults key) now key s))

unfoldable pub prune_session_store_records :
    (String → String) → (String → Faults) → List String → ℕ → Option (List String) → Store → Store
prune_session_store_records lower faults active now none s = s
prune_session_store_records lower faults active now (some keys) s =
    prune_from lower faults active now keys s

-- The projects' directory may be unreadable, then nothing happens.
unfoldable pub cleanup_stale_sessions :
    (String → String)
    → (String → Faults)
    → (now : ℕ) → (sessions_dir : Option (List String)) → Option (List Project)
    → Store
    → Option (List Project) × Store
cleanup_stale_sessions lower faults now dir none s = (none, s)
cleanup_stale_sessions lower faults now dir (some projects) s =
    let (active, s') = collect_active_session_ids lower faults now dir s in
    (
      some (clean_projects active now false projects).0,
      prune_session_store_records lower faults active now dir s',
    )
