-- ===== src/Confirmation.antt =====
-- Confirmations: what the agent may do only after the user has said yes. The parts are in
-- internal/channel/runtime_state.go (the pending action), internal/channel/prompt.go (the buttons)
-- and internal/router/done.go (the interception of the answer). Texts are lists of code points.
pub mod Prompt
pub mod Interception
pub mod Consent
pub mod Standing
mod Tests
use tclaw.Base.{
  ℕ, String, Bool, true, false, ◌&&◌, not, Option, none, some, List, ltb, if◌then◌else◌, Result, ok,
  err,
}

abbrev pub Text : Type 0
Text = List ℕ

pub data PendingActionKind : Type 0 where
  channel_done : PendingActionKind
  repo_grant : PendingActionKind
  rule_write : PendingActionKind
  unknown_kind : String → PendingActionKind

-- `expires_at` is none for Go's zero time.
pub record PendingAction : Type 0 where
  pub kind : PendingActionKind
  pub payload : String
  pub requested_at : ℕ
  pub expires_at : Option ℕ
  pub prompt_id : Text

unfoldable pub expired : PendingAction → ℕ → Bool
expired p now = elim p.expires_at [ none ↦ false | some at ↦ ltb at now ]

pub data ArmError : Type 0 where
  prompt_waiting : ArmError

-- `ArmPendingAction`, on the channel's pending action.
unfoldable pub arm_pending_action :
    Option PendingAction → PendingAction → ℕ → Result ArmError (Option PendingAction)
arm_pending_action none pending now = ok (some pending)
arm_pending_action (some open_one) pending now =
    if not (expired open_one now) then err prompt_waiting else ok (some pending)

-- Thirty minutes.
abbrev pub pending_confirmation_ttl : ℕ
pending_confirmation_ttl = 1_800_000_000_000
