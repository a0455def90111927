-- ===== src/Runtime.antt =====
-- internal/channel/runtime_state.go and provisioner.go: the state of a channel that does not belong in
-- the configuration, its store by channel, and what the platform of a channel offers. The answers of
-- a platform are a parameter.
use text.Mathlib.TextLemmas.{append_cancel_left}
use tclaw.Base.{
  ℕ, String, str_append, Bool, true, false, not, Option, none, some, Dict, lookup, insert, remove,
  if◌then◌else◌, Result, ok, err, ◌==◌, ◌≡◌, eq_iff, arith,
}
use tclaw.Base.Collections.{Faults, StoreError, read_failed, parse_failed, save_failed}
use tclaw.Channel.{MessageSource}
use tclaw.Confirmation.{PendingAction}

-- A platform's own data, with the type of the platform; the empty type is Go's zero value.
pub record PlatformState : Type 0 where
  pub type : String
  pub raw : String

pub record TeardownState : Type 0 where
  pub type : String
  pub raw : String

unfoldable pub has_teardown_state : TeardownState → Bool
has_teardown_state t = not (t.type == "")

pub record RuntimeState : Type 0 where
  pub platform_state : PlatformState
  pub teardown_state : TeardownState
  pub pending_action : Option PendingAction
  pub last_message_at : Option ℕ
  pub last_message_source : Option MessageSource
  pub context_tokens : ℕ
  pub context_measured_at : Option ℕ

abbrev pub zero_state : RuntimeState
zero_state = record {
  platform_state = record { type = ""; raw = "" };
  teardown_state = record { type = ""; raw = "" };
  pending_action = none;
  last_message_at = none;
  last_message_source = none;
  context_tokens = 0;
  context_measured_at = none;
}

abbrev pub RuntimeStates : Type 0
RuntimeStates = Dict RuntimeState

unfoldable pub state_key : String → String
state_key name = str_append "channel_runtime/" name

pub state_key-differs : (a b : String) → (a == b) ≡ false → (state_key a == state_key b) ≡ false
unfolding state_key
state_key-differs a b other = ground (
  arith,
  other,
  eq_iff a b,
  eq_iff (state_key a) (state_key b),
  append_cancel_left "channel_runtime/" a b,
)

abbrev pub or_zero : Bool → Option RuntimeState → Result StoreError RuntimeState
or_zero parse_ok none = ok zero_state
or_zero true (some rs) = ok rs
or_zero false (some rs) = err parse_failed

unfoldable pub get : Faults → RuntimeStates → String → Result StoreError RuntimeState
get f states name =
    if f.read_ok then or_zero f.parse_ok (lookup (state_key name) states) else err read_failed

abbrev pub updated_state :
    Faults
    → RuntimeStates
    → String
    → (RuntimeState → RuntimeState)
    → Result StoreError RuntimeState
    → RuntimeStates × Option StoreError
updated_state f states name fn (err e) = (states, some e)
updated_state f states name fn (ok rs) =
    if f.write_ok
    then (insert (state_key name) (fn rs) states, none)
    else (states, some save_failed)

unfoldable pub update :
    Faults
    → RuntimeStates
    → String
    → (RuntimeState → RuntimeState)
    → RuntimeStates × Option StoreError
update f states name fn = updated_state f states name fn (get f states name)

unfoldable pub delete : Faults → RuntimeStates → String → RuntimeStates × Option StoreError
delete f states name =
    if f.write_ok then (remove (state_key name) states, none) else (states, some save_failed)

pub record ProvisionResult : Type 0 where
  pub token : String
  pub teardown_state : TeardownState
  pub platform_state : PlatformState

-- The answers of a platform's provisioner: `EphemeralProvisioner`.
pub record Provisioner : Type 0 where
  pub is_ready : String → Bool
  pub can_auto_provision : Bool
  pub provision : (name purpose : String) → Result String ProvisionResult
  pub teardown : TeardownState → Option String

-- `ProvisionerLookup`, by the type of a channel.
abbrev pub ProvisionerLookup : Type 0
ProvisionerLookup = String → Option Provisioner
