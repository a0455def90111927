-- ===== src/Confirmation/Standing.antt =====
-- internal/router/done.go and internal/channel/runtime_state.go: what leaves a question standing.
use tclaw.Base.{
  ◌≡◌, ◌≢◌, refl, ap, ◌∙◌, false, some, Bool-cases, inl, inr, same_bytes, same_bytes→≡, runes, err,
}
use tclaw.Channel.{TaggedMessage}
use tclaw.Confirmation.{Text, PendingAction, expired, arm_pending_action, prompt_waiting}
use tclaw.Confirmation.Prompt.{ButtonPress, parse_button_press}
use tclaw.Confirmation.Interception.{
  Scene, from_user, untouched, by_press, answer, if_pending, intercept,
}

intercept_of_pending :
    (s : Scene) (msg : TaggedMessage) (p : PendingAction)
    → s.stored ≡ some (some p)
    → answer s p msg ≡ untouched
    → intercept s msg ≡ untouched
unfolding intercept answer
intercept_of_pending s msg p pending stays = elim (Bool-cases s.channel_known) [
  | inr unknown ↦ rw (unknown, intercept) refl
  | inl known ↦ rw (known, intercept) (ap (if_pending s msg) pending ∙ stays)
]

other_press :
    (s : Scene) (p : PendingAction) (text : Text) (press : ButtonPress)
    → parse_button_press text ≡ some press
    → press.prompt_id ≢ p.prompt_id
    → by_press s p text (parse_button_press text) ≡ untouched
other_press s p text press here other = elim (Bool-cases (same_bytes press.prompt_id p.prompt_id)) [
  | inl same ↦ absurd (other (same_bytes→≡ press.prompt_id p.prompt_id same))
  | inr differs ↦ rw here (rw differs refl)
]

-- A question stands until it is answered: while an action is pending and not expired, no other
-- action can be armed in its place, and neither a message that is not the user's own nor a press
-- of another prompt's button disarms it, performs it or is consumed.
pub pending-stays :
    (s : Scene) (msg : TaggedMessage) (p : PendingAction)
    → s.stored ≡ some (some p)
    → expired p s.now ≡ false
    → ((q : PendingAction) → arm_pending_action (some p) q s.now ≡ err prompt_waiting)
      × (from_user msg.source_info ≡ false → intercept s msg ≡ untouched)
      × ((press : ButtonPress)
          → parse_button_press (runes msg.text) ≡ some press
          → press.prompt_id ≢ p.prompt_id
          → intercept s msg ≡ untouched)
unfolding arm_pending_action answer
pending-stays s msg p pending in_time = (
  λ q. rw (in_time, arm_pending_action) refl,
  λ automatic. intercept_of_pending s msg p pending (rw (automatic, answer) refl),
  λ press here other.
      intercept_of_pending s msg p pending (elim (Bool-cases (from_user msg.source_info)) [
        | inr automatic ↦ rw (automatic, answer) refl
        | inl typed ↦
            rw (typed, answer) (rw in_time (other_press s p (runes msg.text) press here other))
      ]),
)
