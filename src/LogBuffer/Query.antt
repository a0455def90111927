-- ===== src/LogBuffer/Query.antt =====
-- internal/libraries/logbuffer/logbuffer.go: Query and its filters. The case mappings of Go's Unicode
-- tables and its parser of times are arguments, and a time is a number.
pub mod Isolation
use tclaw.Base.{
  ℕ, zero, suc, ◌-◌, Bool, true, false, ◌||◌, ◌&&◌, not, Option, none, some, List, [], ◌++◌, ◌∷◌,
  map, ltb, leb, eqb, if◌then◌else◌, length, keep, drop, Bytes, bytes, same_bytes, cut,
}
use tclaw.LogBuffer.{Entry, Buffer, is_nil}

-- `strings.ToLower`, `strings.ToUpper`, and `time.Parse` with the layout RFC3339Nano.
pub record TextFunctions : Type 0 where
  pub to_lower : Bytes → Bytes
  pub to_upper : Bytes → Bytes
  pub parse_time : Bytes → Option ℕ

-- No time stands for the zero value, and 0 for a cap that is not positive.
pub record QueryParams : Type 0 where
  pub user_id : Bytes
  pub include_system : Bool
  pub level : Bytes
  pub contains : Bytes
  pub since : Option ℕ
  pub max_lines : ℕ

-- `strings.Contains`
unfoldable pub occurs : Bytes → Bytes → Bool
occurs part s = elim (cut part s) [ none ↦ false | some split ↦ true ]

-- The text up to the next space.
abbrev pub to_space : Bytes → Bytes
to_space s = elim (cut (32 ∷ []) s) [ none ↦ s | some (word, rest) ↦ word ]

unfoldable pub extract_time : TextFunctions → Bytes → Option ℕ
extract_time lib line = elim (cut (bytes "time=") line) [
  | none ↦ none
  | some (before, rest) ↦ lib.parse_time (to_space rest)
]

unfoldable pub user_field : Bytes
user_field = bytes "user="

abbrev pub ends_field : Bytes → Bool
ends_field [] = true
ends_field (c ∷ rest) = eqb c 32 || (eqb c 9 || eqb c 10)

-- The first occurrence alone is looked at.
unfoldable pub matches_user : Bytes → Bytes → Bool
matches_user line user_id = elim (cut (user_field ++ user_id) line) [
  | none ↦ false
  | some (before, rest) ↦ ends_field rest
]

unfoldable pub extract_level : Bytes → Bytes
extract_level line = elim (cut (bytes "level=") line) [
  | none ↦ []
  | some (before, rest) ↦ to_space rest
]

-- The number is one more than the code's, which gives -1 to an unknown level.
unfoldable pub level_ord : TextFunctions → Bytes → ℕ
level_ord lib level =
    let name = lib.to_upper level in
    if same_bytes name (bytes "DEBUG")
    then 1
    else if same_bytes name (bytes "INFO")
    then 2
    else if same_bytes name (bytes "WARN") || same_bytes name (bytes "WARNING")
    then 3
    else if same_bytes name (bytes "ERROR")
    then 4
    else 0

unfoldable pub matches_level : TextFunctions → Bytes → Bytes → Bool
matches_level lib line min_level =
    leb (level_ord lib min_level) (level_ord lib (extract_level line))

-- The first test of `matchesEntry`.
unfoldable pub hides_user : Bytes → QueryParams → Bool
hides_user line p =
    if is_nil p.user_id
    then false
    else if occurs user_field line
    then not (matches_user line p.user_id)
    else not p.include_system

unfoldable pub too_old : TextFunctions → Bytes → Option ℕ → Bool
too_old lib line none = false
too_old lib line (some since) = elim (extract_time lib line) [ none ↦ true | some t ↦ ltb t since ]

unfoldable pub matches_entry : TextFunctions → Bytes → QueryParams → Bytes → Bool
matches_entry lib line p contains_lower =
    if hides_user line p
    then false
    else if not (is_nil p.level) && not (matches_level lib line p.level)
    then false
    else if not (is_nil contains_lower) && not (occurs contains_lower (lib.to_lower line))
    then false
    else not (too_old lib line p.since)

-- `result[len(result)-p.MaxLines:]`, if there are more lines than that.
unfoldable pub cap : ℕ → List Bytes → List Bytes
cap max_lines result =
    if ltb 0 max_lines && ltb max_lines (length result)
    then drop (length result - max_lines) result
    else result

unfoldable pub query : TextFunctions → Buffer → QueryParams → List Bytes
query lib b p =
    cap p.max_lines (
      keep (λ line. matches_entry lib line p (lib.to_lower p.contains)) (map (λ e. e.text) b.lines))
