-- ===== src/Confirmation/Consent.antt =====
-- internal/router/done.go: when an action is performed.
use tclaw.Base.{
  ◌≡◌, ◌↔◌, ◌⊎◌, inl, inr, refl, ap, ◌∙◌, sym, subst, true, false, ◌&&◌, Option, none, some, arith,
  Bool-cases, same_bytes, same_bytes→≡, same_bytes_refl, runes,
}
use tclaw.Channel.{TaggedMessage}
use tclaw.Confirmation.{
  Text, PendingActionKind, channel_done, repo_grant, rule_write, unknown_kind, PendingAction,
  expired,
}
use tclaw.Confirmation.Prompt.{ButtonPress, parse_button_press, reply_yes}
use tclaw.Confirmation.Interception.{
  Scene, Intercepted, performs, from_user, is_yes, outcome_of_kind, by_press, answer, if_pending,
  intercept,
}

-- A button of the prompt, or a typed yes that no other prompt with buttons competes for.
abbrev pub SaysYes : Scene → PendingAction → Text → Type 0
SaysYes s p text =
    ((press : ButtonPress) × (parse_button_press text ≡ some press)
      × (press.prompt_id ≡ p.prompt_id)
      × (press.reply ≡ reply_yes))
    ⊎ ((parse_button_press text ≡ none)
        × (is_yes text ≡ true)
        × ((s.agent_prompt_open && s.has_buttons) ≡ false))

-- The user's consent to an action.
pub record Consents (s : Scene) (msg : TaggedMessage) (k : PendingActionKind) : Type 0 where
  pub channel_known : s.channel_known ≡ true
  pub p : PendingAction
  pub is_pending : s.stored ≡ some (some p)
  pub same_kind : p.kind ≡ k
  pub typed_by_user : from_user msg.source_info ≡ true
  pub in_time : expired p s.now ≡ false
  pub says_yes : SaysYes s p (runes msg.text)

kind_of_outcome : (a k : PendingActionKind) → outcome_of_kind a ≡ performs k → a ≡ k
kind_of_outcome channel_done k e = ground arith
kind_of_outcome repo_grant k e = ground arith
kind_of_outcome rule_write k e = ground arith
kind_of_outcome (unknown_kind x) k e = cc

module _ (s : Scene) (p : PendingAction) (text : Text) (k : PendingActionKind) where
  by_press-SaysYes :
      (o : Option ButtonPress)
      → parse_button_press text ≡ o
      → (by_press s p text o).outcome ≡ performs k
      → (p.kind ≡ k) × SaysYes s p text
  by_press-SaysYes (some press) here e =
      elim (Bool-cases (same_bytes press.prompt_id p.prompt_id)) [
        | inr other ↦ absurd (ground arith)
        | inl same ↦ elim (Bool-cases (same_bytes press.reply reply_yes)) [
          | inr refused ↦ absurd (ground arith)
          | inl agreed ↦ (
            kind_of_outcome p.kind k (ground arith),
            inl (
              press,
              here,
              same_bytes→≡ press.prompt_id p.prompt_id same,
              same_bytes→≡ press.reply reply_yes agreed,
            ),
          )
        ]
      ]
  by_press-SaysYes none here e = elim (Bool-cases (is_yes text)) [
    | inr other ↦ absurd (ground arith)
    | inl agreed ↦ elim (Bool-cases (s.agent_prompt_open && s.has_buttons)) [
      | inl both ↦ absurd (ground arith)
      | inr clear ↦ (kind_of_outcome p.kind k (ground arith), inr (here, agreed, clear))
    ]
  ]

answer-Consents :
    (s : Scene) (msg : TaggedMessage) (p : PendingAction) (k : PendingActionKind)
    → s.channel_known ≡ true
    → s.stored ≡ some (some p)
    → (answer s p msg).outcome ≡ performs k
    → Consents s msg k
unfolding answer
answer-Consents s msg p k known pending e = elim (Bool-cases (from_user msg.source_info)) [
  | inr automatic ↦ absurd (ground arith)
  | inl typed ↦ elim (Bool-cases (expired p s.now)) [
    | inl late ↦ absurd (ground arith)
    | inr in_time ↦
        let (same, says) =
          by_press-SaysYes s p (runes msg.text) k (parse_button_press (runes msg.text)) refl
            (ground arith) in
        record {
          channel_known = known;
          p = p;
          is_pending = pending;
          same_kind = same;
          typed_by_user = typed;
          in_time = in_time;
          says_yes = says;
        }
  ]
]

if_pending-Consents :
    (s : Scene) (msg : TaggedMessage) (k : PendingActionKind) (o : Option (Option PendingAction))
    → s.channel_known ≡ true
    → s.stored ≡ o
    → (if_pending s msg o).outcome ≡ performs k
    → Consents s msg k
if_pending-Consents s msg k none known stored e = cc
if_pending-Consents s msg k (some none) known stored e = cc
if_pending-Consents s msg k (some (some p)) known stored e =
    answer-Consents s msg p k known stored e

performs-Consents :
    (s : Scene) (msg : TaggedMessage) (k : PendingActionKind)
    → (intercept s msg).outcome ≡ performs k
    → Consents s msg k
unfolding intercept
performs-Consents s msg k e = elim (Bool-cases s.channel_known) [
  | inr unknown ↦ absurd (ground arith)
  | inl known ↦ if_pending-Consents s msg k s.stored known refl (ground arith)
]

-- The outcome of an answer that says yes.
abbrev Performs : Scene → PendingAction → Intercepted → Type 0
Performs s p r = (r.outcome ≡ outcome_of_kind p.kind) × (r.disarmed ≡ s.clear_ok)

by_press-Performs :
    (s : Scene) (p : PendingAction) (text : Text)
    → SaysYes s p text
    → Performs s p (by_press s p text (parse_button_press text))
by_press-Performs s p text (inl (press, here, same, agreed)) =
    let same' : same_bytes press.prompt_id p.prompt_id ≡ true =
      subst (λ i. same_bytes i p.prompt_id ≡ true) (sym same) (same_bytes_refl p.prompt_id) in
    let agreed' : same_bytes press.reply reply_yes ≡ true =
      subst (λ i. same_bytes i reply_yes ≡ true) (sym agreed) (same_bytes_refl reply_yes) in
    rw here (rw same' (rw agreed' (refl, refl)))
by_press-Performs s p text (inr (here, agreed, clear)) = rw here (ground (arith, agreed, clear))

intercept-Performs :
    (s : Scene) (msg : TaggedMessage) (k : PendingActionKind) (c : Consents s msg k)
    → Performs s c.p (intercept s msg)
unfolding intercept answer
intercept-Performs s msg k c =
    let says = by_press-Performs s c.p (runes msg.text) c.says_yes in
    let answers : answer s c.p msg
        ≡ by_press s c.p (runes msg.text) (parse_button_press (runes msg.text)) =
      rw (c.typed_by_user, answer) (rw c.in_time refl) in
    let whole : intercept s msg ≡ answer s c.p msg =
      rw (c.channel_known, intercept) (ap (if_pending s msg) c.is_pending) in
    subst (Performs s c.p) (sym (whole ∙ answers)) says

-- The one boundary the agent cannot cross on its own: an action of one of the three kinds is
-- performed exactly when a message that is the user's own arrives on a known channel while that
-- action is pending and not expired, and the message is a press of the yes button of that
-- very prompt, or a typed yes while no prompt of the agent's competes for it on a channel
-- with buttons; and then the action is no longer pending, provided the state takes the write.
pub intercept-Consents :
    (s : Scene) (msg : TaggedMessage) (k : PendingActionKind)
    → outcome_of_kind k ≡ performs k
    → (((intercept s msg).outcome ≡ performs k) ↔ Consents s msg k)
      × ((intercept s msg).outcome ≡ performs k → (intercept s msg).disarmed ≡ s.clear_ok)
intercept-Consents s msg k known = (
  (
    performs-Consents s msg k,
    λ c. (intercept-Performs s msg k c).0 ∙ ap outcome_of_kind c.same_kind ∙ known,
  ),
  λ e. (intercept-Performs s msg k (performs-Consents s msg k e)).1,
)
