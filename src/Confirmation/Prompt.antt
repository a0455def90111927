-- ===== src/Confirmation/Prompt.antt =====
-- internal/channel/prompt.go: the texts that stand for pressed buttons.
use tclaw.Base.{
  ◌≡◌, refl, ap, ◌∙◌, sym, Option, none, some, [], ◌∷◌, ◌++◌, bytes, strip_prefix, cut, eqb,
  if◌then◌else◌, ◌⊎◌, inl, inr,
}
use tclaw.Confirmation.{Text}

-- A reply is the text of its button.
pub record ButtonPress : Type 0 where
  pub prompt_id : Text
  pub reply : Text

unfoldable pub reply_yes : Text
reply_yes = bytes "yes"

unfoldable pub reply_no : Text
reply_no = bytes "no"

-- A record button and a space.
abbrev pub button_press_prefix : Text
button_press_prefix = 128280 ∷ 32 ∷ []

unfoldable pub prompt_part : Text
prompt_part = bytes " (prompt "

unfoldable pub button_press_text : ButtonPress → Text
button_press_text p =
    button_press_prefix ++ (p.reply ++ (prompt_part ++ (p.prompt_id ++ (41 ∷ []))))

-- `strings.HasSuffix(id, ")")` and then `strings.TrimSuffix(id, ")")`.
unfoldable pub cut_paren : Text → Option Text
cut_paren [] = none
cut_paren (c ∷ s) = elim s [
  | [] ↦ if eqb c 41 then some [] else none
  | d ∷ s' ↦ elim (cut_paren s) [ none ↦ none | some id ↦ some (c ∷ id) ]
]

abbrev pub press_of : Text → Option Text → Option ButtonPress
press_of reply none = none
press_of reply (some id) = some (record { prompt_id = id; reply = reply })

abbrev pub parse_rest : Option (Text × Text) → Option ButtonPress
parse_rest none = none
parse_rest (some (reply, id)) = press_of reply (cut_paren id)

unfoldable pub parse_button_press : Text → Option ButtonPress
parse_button_press text = elim (strip_prefix button_press_prefix text) [
  | none ↦ none
  | some rest ↦ parse_rest (cut prompt_part rest)
]

cut_paren-append : (id : Text) → cut_paren (id ++ (41 ∷ [])) ≡ some id
unfolding cut_paren
cut_paren-append [] = refl
cut_paren-append (c ∷ []) = refl
cut_paren-append (c ∷ d ∷ id) = rw (cut_paren-append (d ∷ id)) refl

-- One of the two replies that the prompts offer.
abbrev pub IsOffered : Text → Type 0
IsOffered reply = (reply ≡ reply_yes) ⊎ (reply ≡ reply_no)

cut_of_yes : (s : Text) → cut prompt_part (reply_yes ++ (prompt_part ++ s)) ≡ some (reply_yes, s)
unfolding cut prompt_part reply_yes bytes strip_prefix
cut_of_yes s = refl

cut_of_no : (s : Text) → cut prompt_part (reply_no ++ (prompt_part ++ s)) ≡ some (reply_no, s)
unfolding cut prompt_part reply_no bytes strip_prefix
cut_of_no s = refl

cut_of_offered :
    (reply s : Text)
    → IsOffered reply
    → cut prompt_part (reply ++ (prompt_part ++ s)) ≡ some (reply, s)
cut_of_offered reply s (inl e) =
    ap (λ r. cut prompt_part (r ++ (prompt_part ++ s))) e
    ∙ cut_of_yes s
    ∙ ap (λ r. some (r, s)) (sym e)
cut_of_offered reply s (inr e) =
    ap (λ r. cut prompt_part (r ++ (prompt_part ++ s))) e
    ∙ cut_of_no s
    ∙ ap (λ r. some (r, s)) (sym e)

-- A press reads back as it was made: for a button that the prompts offer and any prompt id, the text
-- that a transport delivers is parsed as a press of that very button of that very prompt.
pub parse-button_press_text :
    (p : ButtonPress) → IsOffered p.reply → parse_button_press (button_press_text p) ≡ some p
unfolding parse_button_press button_press_text strip_prefix
parse-button_press_text p h =
    ap parse_rest (cut_of_offered p.reply (p.prompt_id ++ (41 ∷ [])) h)
    ∙ ap (press_of p.reply) (cut_paren-append p.prompt_id)
