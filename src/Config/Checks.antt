-- ===== src/Config/Checks.antt =====
-- internal/config/config.go: the checks of names, credential slots, channels and links in `validate`.
use tclaw.Base.{
  ℕ, String, str_append, Bool, true, false, not, ◌&&◌, ◌||◌, Option, none, some, List, [], ◌∷◌,
  ◌++◌, map, keep, any, leb, eqb, if◌then◌else◌, ◌==◌, runes,
}
use tclaw.Config.{Vocabulary, Link, Channel, User, CredentialSlot, Config}

pub data ConfigError : Type 0 where
  no_users missing_id duplicate_user unknown_model unknown_permission_mode : ConfigError
  bad_turn_settings unknown_tool bad_debounce no_channels : ConfigError
  missing_name invalid_name duplicate_channel missing_description negative_max_turns : ConfigError
  bad_idle_timeout bad_session_timeout bad_created_at : ConfigError
  telegram_without_user missing_type unknown_type : ConfigError
  link_without_target link_without_description self_link duplicate_link dangling_link : ConfigError
  repo_without_name invalid_repo_name repo_without_url unknown_access bad_lifecycle : ConfigError
  duplicate_repo dangling_visibility unknown_credential : ConfigError
  bad_slot_type bad_slot_label duplicate_slot dangling_slot : ConfigError

abbrev pub empty : String → Bool
empty s = s == ""

-- The next check, unless one failed before.
abbrev pub or_error : Option ConfigError → Option ConfigError → Option ConfigError
or_error (some e) later = some e
or_error none later = later

abbrev pub listed : String → List String → Bool
listed n names = any (λ x. x == n) names

abbrev is_digit : ℕ → Bool
is_digit c = leb 48 c && leb c 57

abbrev is_lower : ℕ → Bool
is_lower c = leb 97 c && leb c 122

abbrev is_upper : ℕ → Bool
is_upper c = leb 65 c && leb c 90

abbrev name_start : ℕ → Bool
name_start c = is_lower c || (is_upper c || is_digit c)

abbrev pub all_pass : (ℕ → Bool) → List ℕ → Bool
all_pass p [] = true
all_pass p (c ∷ s) = p c && all_pass p s

-- `^[a-zA-Z0-9][a-zA-Z0-9_-]*$`
unfoldable pub channel_name_pattern : List ℕ → Bool
channel_name_pattern [] = false
channel_name_pattern (c ∷ s) =
    name_start c && all_pass (λ d. name_start d || (eqb d 95 || eqb d 45)) s

-- `^[a-zA-Z0-9][a-zA-Z0-9-]*$`
unfoldable pub valid_repo_name : List ℕ → Bool
valid_repo_name [] = false
valid_repo_name (c ∷ s) = name_start c && all_pass (λ d. name_start d || eqb d 45) s

-- `^[a-z0-9][a-z0-9_-]*$`
unfoldable pub slot_name_pattern : List ℕ → Bool
slot_name_pattern [] = false
slot_name_pattern (c ∷ s) =
    (is_lower c || is_digit c)
    && all_pass (λ d. is_lower d || (is_digit d || (eqb d 95 || eqb d 45))) s

unfoldable pub slot_id : CredentialSlot → String
slot_id slot = str_append (str_append slot.type "/") slot.label

-- The loop over the slots, with the ids seen so far.
unfoldable pub check_slots :
    (channel_names : List String) (seen : List String) → List CredentialSlot → Option ConfigError
check_slots channel_names seen [] = none
check_slots channel_names seen (slot ∷ slots) =
    let later = check_slots channel_names (slot_id slot ∷ seen) slots in
    if not (slot_name_pattern (runes slot.type))
    then some bad_slot_type
    else if not (slot_name_pattern (runes slot.label))
    then some bad_slot_label
    else if listed (slot_id slot) seen
    then some duplicate_slot
    else if not (empty slot.channel) && not (listed slot.channel channel_names)
    then some dangling_slot
    else later

abbrev pub name_of : Channel → String
name_of ch = ch.name

abbrev pub names : List Channel → List String
names channels = map (λ (ch : Channel). ch.name) channels

abbrev pub all_names : List User → List String
all_names [] = []
all_names (u ∷ users) = names u.channels ++ all_names users

unfoldable pub validate_credential_slots : Config → Option ConfigError
validate_credential_slots cfg = check_slots (all_names cfg.users) [] cfg.credential_slots

unfoldable pub git_slot_labels : List CredentialSlot → List String
git_slot_labels slots = map (λ (s : CredentialSlot). s.label) (keep (λ s. s.type == "git") slots)

-- The channels without those whose name stood before.
unfoldable pub dedupe : (seen : List String) → List Channel → List Channel
dedupe seen [] = []
dedupe seen (ch ∷ channels) =
    let repeated = dedupe seen channels in
    let later = dedupe (ch.name ∷ seen) channels in
    if listed ch.name seen then repeated else ch ∷ later

abbrev pub unknown_listed : Vocabulary → List String → Bool
unknown_listed v tools = any (λ t. not (v.valid_tool t)) tools

abbrev pub unparsed : (String → Bool) → String → Bool
unparsed parses s = not (empty s) && not (parses s)

unfoldable pub check_type : String → String → Option ConfigError
check_type telegram_user_id type =
    if type == "socket" || type == "stdio"
    then none
    else if type == "telegram"
    then (if empty telegram_user_id then some telegram_without_user else none)
    else if empty type
    then some missing_type
    else some unknown_type

-- The checks of one channel; a user without a telegram section has no telegram user.
unfoldable pub check_channel :
    Vocabulary → String → (duplicate : Bool) → Channel → Option ConfigError
check_channel v telegram_user_id duplicate ch =
    if empty ch.name
    then some missing_name
    else if not (channel_name_pattern (runes ch.name))
    then some invalid_name
    else if duplicate
    then some duplicate_channel
    else if empty ch.description
    then some missing_description
    else if unparsed v.valid_model ch.model
    then some unknown_model
    else if ch.negative_turns
    then some negative_max_turns
    else if not (v.valid_turn_settings ch.turn_settings)
    then some bad_turn_settings
    else if unknown_listed v ch.allowed_tools || unknown_listed v ch.disallowed_tools
    then some unknown_tool
    else if unparsed v.duration_parses ch.ephemeral_idle_timeout
    then some bad_idle_timeout
    else if unparsed v.duration_parses ch.claude_session_timeout
    then some bad_session_timeout
    else if unparsed v.time_parses ch.created_at
    then some bad_created_at
    else check_type telegram_user_id ch.type

unfoldable pub check_channels :
    Vocabulary → String → (seen : List String) → List Channel → Option ConfigError
check_channels v telegram_user_id seen [] = none
check_channels v telegram_user_id seen (ch ∷ channels) =
    or_error (check_channel v telegram_user_id (listed ch.name seen) ch)
      (check_channels v telegram_user_id (ch.name ∷ seen) channels)

-- The links of one channel, with the targets seen so far.
unfoldable pub check_links :
    (channel_names : List String) (name : String) (targets : List String)
    → List Link
    → Option ConfigError
check_links channel_names name targets [] = none
check_links channel_names name targets (link ∷ links) =
    let later = check_links channel_names name (link.target ∷ targets) links in
    if empty link.target
    then some link_without_target
    else if empty link.description
    then some link_without_description
    else if link.target == name
    then some self_link
    else if listed link.target targets
    then some duplicate_link
    else if not (listed link.target channel_names)
    then some dangling_link
    else later

unfoldable pub check_all_links : (channel_names : List String) → List Channel → Option ConfigError
check_all_links channel_names [] = none
check_all_links channel_names (ch ∷ channels) =
    or_error (check_links channel_names ch.name [] ch.links)
      (check_all_links channel_names channels)
