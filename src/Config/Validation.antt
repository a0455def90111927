-- ===== src/Config/Validation.antt =====
-- internal/config/config.go: `validate`. The checks stand in the order of the code, and an error is
-- the first that fails; the messages' texts and indices are left out.
use tclaw.Base.{
  ℕ, String, Bool, true, false, not, ◌&&◌, ◌||◌, Option, none, some, List, [], ◌∷◌, ◌++◌, any,
  length, ltb, eqb, if◌then◌else◌, Result, ok, err, Bytes, bytes, runes, has_prefix, strip_prefix,
}
use tclaw.Repo.{Access, unset, read_only, pull_requests_only, full_write, unknown}
use tclaw.Config.{Vocabulary, Channel, RepoConfig, User, Config}
use tclaw.Confirmation.Interception.{is_space, trim_left, trim_right}
use tclaw.Config.Checks.{
  ConfigError, no_users, missing_id, duplicate_user, unknown_model, unknown_permission_mode,
  bad_turn_settings, unknown_tool, bad_debounce, no_channels, repo_without_name, invalid_repo_name,
  repo_without_url, unknown_access, bad_lifecycle, duplicate_repo, dangling_visibility,
  unknown_credential, empty, listed, all_pass, valid_repo_name, names, validate_credential_slots,
  git_slot_labels, dedupe, unknown_listed, unparsed, check_channels, check_all_links,
}

abbrev pub is_blank : List ℕ → Bool
is_blank s = all_pass is_space s

abbrev pub valid_access : Access → Bool
valid_access unset = false
valid_access read_only = true
valid_access pull_requests_only = true
valid_access full_write = true
valid_access (unknown s) = false

abbrev pub or_read_only : Access → Access
or_read_only unset = read_only
or_read_only a = a

abbrev pub trim_prefix : Bytes → Bytes → Bytes
trim_prefix prefix s = elim (strip_prefix prefix s) [ none ↦ s | some rest ↦ rest ]

-- `strings.TrimSuffix(s, "/")`
abbrev pub trim_slash : Bytes → Bytes
trim_slash [] = []
trim_slash (c ∷ s) = elim s [ [] ↦ if eqb c 47 then [] else c ∷ [] | d ∷ rest ↦ c ∷ trim_slash s ]

unfoldable pub normalize_repo_url : Bytes → Bytes
normalize_repo_url repo =
    let trimmed = trim_right (trim_left repo) in
    if has_prefix (bytes "http://") trimmed || has_prefix (bytes "https://") trimmed
    then trimmed
    else bytes "https://github.com/" ++ trim_slash (trim_prefix (bytes "/") trimmed)

abbrev pub lifecycle_parses : Vocabulary → RepoConfig → Bool
lifecycle_parses v r =
    not (unparsed v.duration_parses r.fetch_every)
    && (not (unparsed v.duration_parses r.drop_clone_if_unused_for)
        && not (unparsed v.time_parses r.drop_to_read_only_at))

unfoldable pub normalize : Vocabulary → RepoConfig → Result ConfigError RepoConfig
normalize v r =
    let access = or_read_only r.access in
    if is_blank (runes r.name)
    then err repo_without_name
    else if not (valid_repo_name (runes r.name)) || ltb 64 (length (runes r.name))
    then err invalid_repo_name
    else if is_blank r.repo
    then err repo_without_url
    else if not (valid_access access)
    then err unknown_access
    else if not (lifecycle_parses v r)
    then err bad_lifecycle
    else ok (record r {
      branch = if empty r.branch then "main" else r.branch;
      access = access;
      repo = normalize_repo_url r.repo;
    })

-- The checks of a normalized repository against the rest of the configuration; its place of mounting
-- is set by the knowledge section alone.
unfoldable pub check_repo :
    (channel_names labels seen : List String) → RepoConfig → Option ConfigError
check_repo channel_names labels seen r =
    if listed r.name seen
    then some duplicate_repo
    else if any (λ n. not (listed n channel_names)) r.visible_to_channels
    then some dangling_visibility
    else if not (empty r.credential) && not (listed r.credential labels)
    then some unknown_credential
    else none

abbrev pub cons_ok :
    RepoConfig → Result ConfigError (List RepoConfig) → Result ConfigError (List RepoConfig)
cons_ok r (ok rs) = ok (r ∷ rs)
cons_ok r (err e) = err e

abbrev pub if_none : {A : Type 0} → Option ConfigError → Result ConfigError A → Result ConfigError A
if_none none r = r
if_none (some e) r = err e

unfoldable pub check_repos :
    Vocabulary
    → (channel_names labels seen : List String) → List RepoConfig
    → Result ConfigError (List RepoConfig)
check_repos v channel_names labels seen [] = ok []
check_repos v channel_names labels seen (r ∷ repos) = elim (normalize v r) [
  | err e ↦ err e
  | ok r' ↦
      if_none (check_repo channel_names labels seen r')
        (cons_ok r' (check_repos v channel_names labels (r'.name ∷ seen) repos))
]

abbrev pub no_channel : List Channel → Bool
no_channel [] = true
no_channel (ch ∷ channels) = false

-- The checks of a user before the channels are deduplicated.
unfoldable pub check_user : Vocabulary → (duplicate : Bool) → User → Option ConfigError
check_user v duplicate u =
    if empty u.id
    then some missing_id
    else if duplicate
    then some duplicate_user
    else if unparsed v.valid_model u.model
    then some unknown_model
    else if unparsed v.valid_permission_mode u.permission_mode
    then some unknown_permission_mode
    else if not (v.valid_turn_settings u.turn_settings)
    then some bad_turn_settings
    else if unknown_listed v u.allowed_tools || unknown_listed v u.disallowed_tools
    then some unknown_tool
    else if unparsed v.duration_parses u.message_debounce
    then some bad_debounce
    else if no_channel u.channels
    then some no_channels
    else none

abbrev pub with_repos :
    User → List Channel → Result ConfigError (List RepoConfig) → Result ConfigError User
with_repos u channels (ok repos) = ok (record u { channels = channels; repos = repos })
with_repos u channels (err e) = err e

-- One round of the loop over the users: the user with deduplicated channels and normalized repos.
unfoldable pub validate_user :
    Vocabulary → (labels : List String) (duplicate : Bool) → User → Result ConfigError User
validate_user v labels duplicate u =
    let channels = dedupe [] u.channels in
    if_none (check_user v duplicate u) (
      if_none (check_channels v u.telegram_user_id [] channels) (
        if_none (check_all_links (names channels) channels)
          (with_repos u channels (check_repos v (names channels) labels [] u.repos))))

abbrev pub cons_user : User → Result ConfigError (List User) → Result ConfigError (List User)
cons_user u (ok us) = ok (u ∷ us)
cons_user u (err e) = err e

unfoldable pub validate_users :
    Vocabulary → (labels seen : List String) → List User → Result ConfigError (List User)
validate_users v labels seen [] = ok []
validate_users v labels seen (u ∷ users) = elim (validate_user v labels (listed u.id seen) u) [
  | err e ↦ err e
  | ok u' ↦ cons_user u' (validate_users v labels (u.id ∷ seen) users)
]

abbrev pub with_users : Config → Result ConfigError (List User) → Result ConfigError Config
with_users cfg (ok users) = ok (record cfg { users = users })
with_users cfg (err e) = err e

unfoldable pub validate : Vocabulary → Config → Result ConfigError Config
validate v cfg = elim cfg.users [
  | [] ↦ err no_users
  | u ∷ users ↦
      if_none (validate_credential_slots cfg)
        (with_users cfg (validate_users v (git_slot_labels cfg.credential_slots) [] (u ∷ users)))
]
