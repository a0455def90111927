-- ===== src/Config.antt =====
-- internal/config/config.go: the configuration of one environment, as it is decoded, without the
-- knowledge section. Vocabulary stands for the names that the command line tool knows and for Go's
-- parsers of durations and times.
pub mod Checks
pub mod Validation
pub mod Writer
pub mod Deletion
pub mod Scoping
pub mod Reload
pub mod Samples
mod Tests
use tclaw.Base.{String, Bool, List, Bytes}
use tclaw.Repo.{Access}

pub record Vocabulary : Type 0 where
  pub valid_model : String → Bool
  pub valid_permission_mode : String → Bool
  pub valid_tool : String → Bool
  pub valid_turn_settings : String → Bool
  pub duration_parses : String → Bool
  pub time_parses : String → Bool

pub record Link : Type 0 where
  pub target : String
  pub description : String

-- `negative_turns` says that `max_turns` is below zero.
pub record Channel : Type 0 where
  pub type : String
  pub name : String
  pub description : String
  pub model : String
  pub negative_turns : Bool
  pub turn_settings : String
  pub allowed_tools : List String
  pub disallowed_tools : List String
  pub links : List Link
  pub ephemeral : Bool
  pub ephemeral_idle_timeout : String
  pub parent : String
  pub created_at : String
  pub claude_session_timeout : String

pub record RepoConfig : Type 0 where
  pub name : String
  pub repo : Bytes
  pub branch : String
  pub visible_to_channels : List String
  pub access : Access
  pub credential : String
  pub fetch_every : String
  pub drop_to_read_only_at : String
  pub drop_clone_if_unused_for : String

pub record User : Type 0 where
  pub id : String
  pub model : String
  pub permission_mode : String
  pub turn_settings : String
  pub message_debounce : String
  pub allowed_tools : List String
  pub disallowed_tools : List String
  pub repos : List RepoConfig
  pub telegram_user_id : String
  pub channels : List Channel

pub record CredentialSlot : Type 0 where
  pub type : String
  pub label : String
  pub channel : String

pub record Config : Type 0 where
  pub credential_slots : List CredentialSlot
  pub users : List User
