-- ===== src/GitProxy/Encoding.antt =====
-- internal/gitproxy/refs.go against git's own side of the protocol: the ref commands of a push as
-- git writes them, read by the proxy's parser.
use tclaw.Base.{
  ℕ, ◌+◌, ◌≤◌, ◌<◌, ◌≡◌, refl, ap, ◌∙◌, false, List, [], ◌∷◌, ◌++◌, eqb, ok, length, Bytes, arith,
  All, All-append,
}
use tclaw.GitProxy.Commands.{
  RefCommand, command_section_limit, fields, before_nul, trim_right_newlines, command_of,
  parse_ref_command, parse_ref_commands,
}
use tclaw.GitProxy.Lines.{Section, ended, line}
use tclaw.GitProxy.Acceptance.{parse_ref_commands-Section}
use tclaw.GitProxy.Words.{
  pkt_length, parse_pkt_length-pkt_length, IsWord, no_newline, fields-word, fields-last,
}

-- The text of a command.
abbrev pub command_text : RefCommand → Bytes
command_text c = c.old_oid ++ (32 ∷ (c.new_oid ++ (32 ∷ c.ref)))

pub record IsCommand (c : RefCommand) : Type 0 where
  pub old_word : IsWord c.old_oid
  pub new_word : IsWord c.new_oid
  pub ref_word : IsWord c.ref

fields-command_text : (c : RefCommand) → IsCommand c → command_of (fields (command_text c)) ≡ ok c
unfolding fields
fields-command_text c h = ap command_of (
    fields-word c.old_oid (c.new_oid ++ (32 ∷ c.ref)) h.old_word
    ∙ ap (◌∷◌ c.old_oid) (
        fields-word c.new_oid c.ref h.new_word ∙ ap (◌∷◌ c.new_oid) (fields-last c.ref h.ref_word)))

-- Bytes that neither the cut at a NUL nor the trimming of newlines takes away.
abbrev Stays : ℕ → Type 0
Stays b = (eqb b 0 ≡ false) × (eqb b 10 ≡ false)

word-Stays : (word : Bytes) → IsWord word → All Stays word
word-Stays word w = both word w.no_nul (no_newline word w.unbroken)
  where
    both :
        (bs : Bytes) → All (λ b. eqb b 0 ≡ false) bs → All (λ b. eqb b 10 ≡ false) bs → All Stays bs
    both [] h k = tt
    both (b ∷ bs) h k = ((h.0, k.0), both bs h.1 k.1)

command_text-Stays : (c : RefCommand) → IsCommand c → All Stays (command_text c)
command_text-Stays c h =
    All-append Stays c.old_oid (32 ∷ (c.new_oid ++ (32 ∷ c.ref))) (word-Stays c.old_oid h.old_word)
      (
        (refl, refl),
        All-append Stays c.new_oid (32 ∷ c.ref) (word-Stays c.new_oid h.new_word)
            ((refl, refl), word-Stays c.ref h.ref_word),
      )

before_nul-append :
    (text tail : Bytes) → All Stays text → before_nul (text ++ tail) ≡ text ++ before_nul tail
unfolding before_nul
before_nul-append [] tail h = refl
before_nul-append (b ∷ text) tail h = rw (h.0.0) (ap (◌∷◌ b) (before_nul-append text tail h.1))

trim-append :
    (text tail : Bytes)
    → All Stays text
    → trim_right_newlines tail ≡ []
    → trim_right_newlines (text ++ tail) ≡ text
unfolding trim_right_newlines
trim-append [] tail h e = e
trim-append (b ∷ []) tail h e = rw (e, h.0.1) refl
trim-append (b ∷ d ∷ text) tail h e = rw (trim-append (d ∷ text) tail h.1 e) refl

-- What git puts behind a command's text: nothing, a newline, or a NUL and its capabilities.
pub data IsEnding : Bytes → Type 0 where
  bare : IsEnding []
  newline : IsEnding (10 ∷ [])
  capabilities : (caps : Bytes) → IsEnding (0 ∷ caps)

trimmed_ending : (ending : Bytes) → IsEnding ending → trim_right_newlines (before_nul ending) ≡ []
unfolding trim_right_newlines before_nul
trimmed_ending _ bare = refl
trimmed_ending _ newline = refl
trimmed_ending _ (capabilities caps) = refl

parse-command_text :
    (c : RefCommand) (ending : Bytes)
    → IsCommand c
    → IsEnding ending
    → parse_ref_command (command_text c ++ ending) ≡ ok c
unfolding parse_ref_command
parse-command_text c ending h e =
    let stays = command_text-Stays c h in
    let text = command_text c in
    let cut : trim_right_newlines (before_nul (text ++ ending)) ≡ text =
      ap trim_right_newlines (before_nul-append text ending stays)
      ∙ trim-append text (before_nul ending) stays (trimmed_ending ending e) in
    ap (λ t. command_of (fields t)) cut ∙ fields-command_text c h

-- The lines of a push, each command with what follows its text, and the flush packet.
abbrev pub encode : List (RefCommand × Bytes) → Bytes
encode [] = pkt_length 0
encode ((c, ending) ∷ pushes) =
    (pkt_length (4 + length (command_text c ++ ending)) ++ (command_text c ++ ending))
    ++ encode pushes

abbrev pub commands_of : List (RefCommand × Bytes) → List RefCommand
commands_of [] = []
commands_of ((c, ending) ∷ pushes) = c ∷ commands_of pushes

-- A push that git can write: words without white space, endings of git's, and lines whose length
-- four digits can say.
abbrev pub AllWritable : List (RefCommand × Bytes) → Type 0
AllWritable [] = Unit
AllWritable ((c, ending) ∷ pushes) =
    (IsCommand c × IsEnding ending × (4 + length (command_text c ++ ending) < 65536))
    × AllWritable pushes

pub encode-Section :
    (pushes : List (RefCommand × Bytes))
    → AllWritable pushes
    → Section (commands_of pushes) (encode pushes)
encode-Section [] h = ended (pkt_length 0) (parse_pkt_length-pkt_length 0 (omega arith))
encode-Section ((c, ending) ∷ pushes) h =
    let here = h.0 in
    let payload = command_text c ++ ending in
    line (pkt_length (4 + length payload)) payload c (commands_of pushes) (encode pushes)
      (parse_pkt_length-pkt_length (4 + length payload) here.2)
      (parse-command_text c ending here.0 here.1) (encode-Section pushes h.1)

-- What git writes is what the proxy reads: of a push whose words are not empty and hold no white
-- space, ASCII or encoded in UTF-8, and no NUL, and whose lines are short enough to be written, if its
-- command section is at most 64 KiB long, the parser returns the very commands and consumes the
-- section and nothing of the packfile behind it.
pub parse_ref_commands-encode :
    (pushes : List (RefCommand × Bytes)) (packfile : Bytes)
    → AllWritable pushes
    → length (encode pushes) ≤ command_section_limit
    → parse_ref_commands (encode pushes ++ packfile) ≡ ok (commands_of pushes, encode pushes)
parse_ref_commands-encode pushes packfile h small =
    (parse_ref_commands-Section (encode pushes ++ packfile) (commands_of pushes) (encode pushes)).1
      (encode-Section pushes h, small, (packfile, refl))
