-- ===== src/Sessions.antt =====
-- internal/channel/session_store.go: the sessions of each channel over time. A store holds, for each
-- channel, decoded records, or the plain text of the old format; Faults says which accesses fail.
mod Current
mod Latest
mod Register
mod Cleanup
mod Transcripts
mod Spared
mod Tests
use Prim.Native.String.{len}
use tclaw.Base.{
  ℕ, ◌-◌, String, Bool, true, false, not, ◌||◌, ◌&&◌, Option, none, some, List, [], ◌∷◌, any, Dict,
  lookup, insert, if◌then◌else◌, ltb, eqb, Result, ok, err, ◌==◌, runes,
}
use tclaw.Base.Collections.{Faults, StoreError, read_failed, parse_failed, save_failed}

-- A zero time of last use is none.
pub record SessionRecord : Type 0 where
  pub session_id : String
  pub started_at : ℕ
  pub last_used_at : Option ℕ
  pub cleared : Bool

unfoldable pub last_activity : SessionRecord → ℕ
last_activity r = elim r.last_used_at [ none ↦ r.started_at | some at ↦ at ]

-- What is stored for a channel: an array of records, or any other text.
pub data Entry : Type 0 where
  history : List SessionRecord → Entry
  legacy : String → Entry

abbrev pub Store : Type 0
Store = Dict Entry

abbrev pub is_control : ℕ → Bool
is_control c = ltb c 32 || eqb c 127

-- The case mapping is an argument.
unfoldable pub valid_session_id : (lower : String → String) → String → Bool
valid_session_id lower sid =
    not (sid == "")
    && (not (ltb 256 (len sid))
        && (not (any (λ w. w == lower sid) ("null" ∷ "undefined" ∷ "<nil>" ∷ "nil" ∷ []))
            && not (any is_control (runes sid))))

-- A nil slice is encoded as null.
abbrev pub encoded : List SessionRecord → Entry
encoded [] = legacy "null"
encoded (r ∷ records) = history (r ∷ records)

unfoldable pub save : Faults → String → List SessionRecord → Store → Store × Option StoreError
save f key records s =
    if f.write_ok then (insert key (encoded records) s, none) else (s, some save_failed)

abbrev pub fresh : ℕ → String → SessionRecord
fresh now sid = record {
  session_id = sid;
  started_at = now;
  last_used_at = some now;
  cleared = false;
}

-- The old format is migrated, and the records are returned whether or not they could be saved.
abbrev pub loaded :
    (String → String)
    → Faults
    → ℕ
    → String
    → Store
    → Option Entry
    → Store × Result StoreError (List SessionRecord)
loaded lower f now key s none = (s, ok [])
loaded lower f now key s (some (history records)) =
    (s, if f.parse_ok then ok records else err parse_failed)
loaded lower f now key s (some (legacy sid)) =
    if valid_session_id lower sid
    then ((save f key (fresh now sid ∷ []) s).0, ok (fresh now sid ∷ []))
    else (s, ok [])

unfoldable pub load :
    (String → String) → Faults → ℕ → String → Store → Store × Result StoreError (List SessionRecord)
load lower f now key s =
    if f.read_ok then loaded lower f now key s (lookup key s) else (s, err read_failed)

-- The id of the last record, unless that was cleared or is malformed.
abbrev pub current_id : (String → String) → SessionRecord → String
current_id lower r =
    if r.cleared then "" else if not (valid_session_id lower r.session_id) then "" else r.session_id

unfoldable pub current_of : (String → String) → List SessionRecord → String
current_of lower [] = ""
current_of lower (r ∷ records) = elim records [
  | [] ↦ current_id lower r
  | q ∷ rest ↦ current_of lower records
]

abbrev pub if_loaded :
    {A : Type 0}
    → (List SessionRecord → A)
    → Store × Result StoreError (List SessionRecord)
    → Store × Result StoreError A
if_loaded read (s, err e) = (s, err e)
if_loaded read (s, ok records) = (s, ok (read records))

unfoldable pub current :
    (String → String) → Faults → ℕ → String → Store → Store × Result StoreError String
current lower f now key s = if_loaded (current_of lower) (load lower f now key s)

-- The latest record that is not cleared is marked; none if there is no such.
unfoldable pub clear_latest : List SessionRecord → Option (List SessionRecord)
clear_latest [] = none
clear_latest (r ∷ records) = elim (clear_latest records) [
  | some rest ↦ some (r ∷ rest)
  | none ↦ if r.cleared then none else some (record r { cleared = true } ∷ records)
]

abbrev pub or_same : List SessionRecord → Option (List SessionRecord) → List SessionRecord
or_same records none = records
or_same records (some changed) = changed

-- The last record is used again if it is that session's, or a new one follows it.
unfoldable pub used : ℕ → String → List SessionRecord → List SessionRecord
used now sid [] = fresh now sid ∷ []
used now sid (r ∷ records) = elim records [
  | [] ↦
      if r.session_id == sid && not r.cleared
      then record r { last_used_at = some now } ∷ []
      else r ∷ fresh now sid ∷ []
  | q ∷ rest ↦ r ∷ used now sid records
]

abbrev pub changed : ℕ → String → List SessionRecord → List SessionRecord
changed now sid records =
    if sid == "" then or_same records (clear_latest records) else used now sid records

abbrev pub set_in :
    Faults
    → ℕ
    → (key sid : String) → Store × Result StoreError (List SessionRecord)
    → Store × Option StoreError
set_in f now key sid (s, err e) = (s, some e)
set_in f now key sid (s, ok records) = save f key (changed now sid records) s

-- A malformed id is not stored, and that is no error.
unfoldable pub set_current :
    (String → String) → Faults → ℕ → (key sid : String) → Store → Store × Option StoreError
set_current lower f now key sid s =
    if not (sid == "") && not (valid_session_id lower sid)
    then (s, none)
    else set_in f now key sid (load lower f now key s)

-- The current session, and whether one is left out because it has been idle for too long.
abbrev pub within : (String → String) → (now max_age : ℕ) → SessionRecord → String × Bool
within lower now max_age r =
    if r.cleared
    then ("", false)
    else if not (valid_session_id lower r.session_id)
    then ("", false)
    else if ltb 0 max_age && ltb max_age (now - last_activity r)
    then ("", true)
    else (r.session_id, false)

unfoldable pub within_of :
    (String → String) → (now max_age : ℕ) → List SessionRecord → String × Bool
within_of lower now max_age [] = ("", false)
within_of lower now max_age (r ∷ records) = elim records [
  | [] ↦ within lower now max_age r
  | q ∷ rest ↦ within_of lower now max_age records
]

unfoldable pub current_within_detailed :
    (String → String)
    → Faults
    → (now : ℕ) → String
    → (max_age : ℕ) → Store
    → Store × Result StoreError (String × Bool)
current_within_detailed lower f now key max_age s =
    if_loaded (within_of lower now max_age) (load lower f now key s)
