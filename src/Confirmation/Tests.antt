-- ===== src/Confirmation/Tests.antt =====
-- A press of the yes button on a request for access to a repository.
use tclaw.Base.{◌≡◌, ◌↔◌, ◌≢◌, refl, err, runes, true, false, none, some, [], ◌∷◌}
use tclaw.Channel.{TaggedMessage}
use tclaw.Confirmation.{PendingAction, repo_grant, expired, arm_pending_action, prompt_waiting}
use tclaw.Confirmation.Prompt.{ButtonPress, reply_yes, parse_button_press}
use tclaw.Confirmation.Interception.{Scene, performs, intercept, untouched, from_user}
use tclaw.Confirmation.Consent.{Consents, intercept-Consents}
use tclaw.Confirmation.Standing.{pending-stays}

abbrev grant : PendingAction
grant = record {
  kind = repo_grant;
  payload = "";
  requested_at = 10;
  expires_at = some 100;
  prompt_id = 65 ∷ 66 ∷ [];
}

abbrev yes_press : ButtonPress
yes_press = record { prompt_id = 65 ∷ 66 ∷ []; reply = reply_yes }

abbrev scene : Scene
scene = record {
  channel_known = true;
  stored = some (some grant);
  clear_ok = true;
  now = 20;
  agent_prompt_open = false;
  has_buttons = true;
}

abbrev typed_yes : TaggedMessage
typed_yes = record { channel_id = "main"; text = " Yes"; source_info = none }

intercept-Consents_example :
    (((intercept scene typed_yes).outcome ≡ performs repo_grant)
      ↔ Consents scene typed_yes repo_grant)
    × ((intercept scene typed_yes).outcome ≡ performs repo_grant
        → (intercept scene typed_yes).disarmed ≡ true)
intercept-Consents_example = intercept-Consents scene typed_yes repo_grant refl

pending-stays_example :
    ((q : PendingAction) → arm_pending_action (some grant) q 20 ≡ err prompt_waiting)
    × (from_user typed_yes.source_info ≡ false → intercept scene typed_yes ≡ untouched)
    × ((press : ButtonPress)
        → parse_button_press (runes typed_yes.text) ≡ some press
        → press.prompt_id ≢ grant.prompt_id
        → intercept scene typed_yes ≡ untouched)
unfolding expired
pending-stays_example = pending-stays scene typed_yes grant refl refl
