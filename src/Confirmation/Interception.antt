-- ===== src/Confirmation/Interception.antt =====
-- internal/router/done.go: `interceptPendingConfirmation`. Scene is what it finds: the channel, the
-- pending action (none if the state cannot be read), and whether the state takes a write.
use tclaw.Base.{
  ℕ, ◌+◌, Bool, true, false, ◌&&◌, ◌||◌, not, Option, none, some, List, [], ◌∷◌, leb, eqb,
  if◌then◌else◌, same_bytes, bytes, runes,
}
use tclaw.Channel.{MessageSource, MessageSourceInfo, TaggedMessage, user}
use tclaw.Confirmation.{
  Text, PendingActionKind, channel_done, repo_grant, rule_write, unknown_kind, PendingAction,
  expired,
}
use tclaw.Confirmation.Prompt.{ButtonPress, parse_button_press, reply_yes}

pub record Scene : Type 0 where
  pub channel_known : Bool
  pub stored : Option (Option PendingAction)
  pub clear_ok : Bool
  pub now : ℕ
  pub agent_prompt_open : Bool
  pub has_buttons : Bool

pub data Notice : Type 0 where
  declined : Notice
  two_prompts_wait : PendingActionKind → Notice
  approved_one_of_two : PendingActionKind → Notice

-- What happens to the message: it goes on to the agent, it is consumed, or the action of the
-- confirmation is performed, whose handler then consumes it.
pub data Outcome : Type 0 where
  goes_on : Outcome
  consumed : Outcome
  performs : PendingActionKind → Outcome

-- `disarmed` says that the pending action was taken off the stored state.
pub record Intercepted : Type 0 where
  pub outcome : Outcome
  pub disarmed : Bool
  pub notices : List Notice

abbrev pub is_user : MessageSource → Bool
is_user user = true
is_user _ = false

abbrev pub from_user : Option MessageSourceInfo → Bool
from_user none = true
from_user (some info) = is_user info.source

-- `unicode.IsSpace`
abbrev pub is_space : ℕ → Bool
is_space c =
    leb 9 c && leb c 13
    || eqb c 32
    || eqb c 133
    || eqb c 160
    || eqb c 5760
    || leb 8192 c && leb c 8202
    || eqb c 8232
    || eqb c 8233
    || eqb c 8239
    || eqb c 8287
    || eqb c 12288

unfoldable pub trim_left : Text → Text
trim_left [] = []
trim_left (c ∷ s) = let rest = trim_left s in if is_space c then rest else c ∷ s

unfoldable pub trim_right : Text → Text
trim_right [] = []
trim_right (c ∷ s) = elim (trim_right s) [
  | [] ↦ if is_space c then [] else c ∷ []
  | d ∷ rest ↦ c ∷ d ∷ rest
]

-- `strings.ToLower`, as far as a yes goes: no code point outside ASCII is lowered to y, e or s.
unfoldable pub to_lower : Text → Text
to_lower [] = []
to_lower (c ∷ s) = (if leb 65 c && leb c 90 then c + 32 else c) ∷ to_lower s

unfoldable pub is_yes : Text → Bool
is_yes text =
    let answer = trim_right (trim_left (to_lower text)) in
    same_bytes answer (bytes "yes") || same_bytes answer (bytes "y")

abbrev pub untouched : Intercepted
untouched = record { outcome = goes_on; disarmed = false; notices = [] }

abbrev pub outcome_of_kind : PendingActionKind → Outcome
outcome_of_kind channel_done = performs channel_done
outcome_of_kind repo_grant = performs repo_grant
outcome_of_kind rule_write = performs rule_write
outcome_of_kind (unknown_kind s) = goes_on

abbrev pub confirmed : Scene → PendingAction → List Notice → Intercepted
confirmed s p notices = record {
  outcome = outcome_of_kind p.kind;
  disarmed = s.clear_ok;
  notices = notices;
}

-- An answer, by whether it is a press.
abbrev pub by_press : Scene → PendingAction → Text → Option ButtonPress → Intercepted
by_press s p text (some press) =
    if not (same_bytes press.prompt_id p.prompt_id)
    then untouched
    else if not (same_bytes press.reply reply_yes)
    then record { outcome = consumed; disarmed = s.clear_ok; notices = declined ∷ [] }
    else confirmed s p []
by_press s p text none =
    let both_open = is_yes text && s.agent_prompt_open in
    if both_open && s.has_buttons
    then record { outcome = consumed; disarmed = false; notices = two_prompts_wait p.kind ∷ [] }
    else if not (is_yes text)
    then record { outcome = goes_on; disarmed = s.clear_ok; notices = [] }
    else confirmed s p (if both_open then approved_one_of_two p.kind ∷ [] else [])

unfoldable pub answer : Scene → PendingAction → TaggedMessage → Intercepted
answer s p msg =
    if not (from_user msg.source_info)
    then untouched
    else if expired p s.now
    then record { outcome = goes_on; disarmed = s.clear_ok; notices = [] }
    else by_press s p (runes msg.text) (parse_button_press (runes msg.text))

abbrev pub if_pending : Scene → TaggedMessage → Option (Option PendingAction) → Intercepted
if_pending s msg none = untouched
if_pending s msg (some none) = untouched
if_pending s msg (some (some p)) = answer s p msg

unfoldable pub intercept : Scene → TaggedMessage → Intercepted
intercept s msg = if not s.channel_known then untouched else if_pending s msg s.stored
