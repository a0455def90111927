-- ===== src/Repo.antt =====
-- internal/repo/repo.go: a tracked repository and the access tier in force. Times are numbers;
-- `none` is Go's zero time.
pub mod Tier
pub mod Tests
use tclaw.Base.{ℕ, String, Bool, Option, List, Bytes}

-- `Access` is a string type in Go: unset is the empty string, and other values are possible.
pub data Access : Type 0 where
  unset : Access
  read_only : Access
  pull_requests_only : Access
  full_write : Access
  unknown : String → Access

pub record TrackedRepo : Type 0 where
  pub name : String
  pub url : String
  pub branch : Bytes
  pub last_seen_commit : String
  pub repo_dir : String
  pub managed : Bool
  pub channels : List String
  pub description : String
  pub credential : String
  pub access : Access
  pub drop_to_read_only_at : Option ℕ
  pub drop_clone_if_unused_for : ℕ
  pub fetch_every : ℕ
  pub last_used_at : Option ℕ
  pub added_at : ℕ
  pub last_synced_at : Option ℕ
