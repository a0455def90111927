-- ===== src/RemoteMcpStore.antt =====
-- internal/remotemcpstore/remotemcpstore.go: the remote MCP servers of a user and their credentials.
-- The store and the secrets hold decoded values; Faults says which accesses fail.
pub mod Operations
pub mod Names
pub mod Steps
pub mod Reading
pub mod Pruning
mod Tests
use tclaw.Base.{ℕ, String, Bool, Option, List, Dict}

pub record RemoteMcp : Type 0 where
  pub name : String
  pub url : String
  pub created_at : ℕ
  pub channels : List String
  pub url_sensitive : Bool
  pub tool_names : List String
  pub tls_pin_sha256 : String
  pub instructions : String

pub record PendingExchange : Type 0 where
  pub code_verifier : String
  pub state : String
  pub redirect_uri : String
  pub started_at : ℕ

pub record RemoteMcpAuth : Type 0 where
  pub auth_server_issuer : String
  pub authorization_endpoint : String
  pub token_endpoint : String
  pub registration_endpoint : String
  pub client_id : String
  pub client_secret : String
  pub access_token : String
  pub refresh_token : String
  pub token_expiry : Option ℕ
  pub pending_exchange : Option PendingExchange
  pub static_headers : Dict String

pub record AddParams : Type 0 where
  pub name : String
  pub url : String
  pub channels : List String
  pub url_sensitive : Bool
  pub tool_names : List String
  pub tls_pin_sha256 : String
  pub instructions : String

pub record Manager : Type 0 where
  pub store : Option (List RemoteMcp)
  pub secrets : Dict RemoteMcpAuth

-- Which of the accesses to the stores succeed, and whether what is read decodes.
pub record Faults : Type 0 where
  pub read_ok : Bool
  pub parse_ok : Bool
  pub write_ok : Bool
  pub secret_ok : Bool

pub data Error : Type 0 where
  read_failed : Error
  parse_failed : Error
  save_failed : Error
  already_exists : Error
  not_found : Error
  secret_failed : Error

pub record PruneChannelResult : Type 0 where
  pub pruned : List String
  pub left_alone : List String
