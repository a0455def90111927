-- ===== src/GitProxy/Words.antt =====
-- internal/gitproxy/refs.go: how the fields of a written line are read back.
use mathlib.Core.List.{append_assoc, append-nil}
use tclaw.Base.{
  ℕ, ◌+◌, ◌/◌, ◌%◌, ◌<◌, ◌≡◌, ◌≢◌, refl, ap, ◌∙◌, sym, false, some, List, [], ◌∷◌, ◌++◌, ltb, eqb,
  if◌then◌else◌, Bytes, arith, All, subst,
}
use tclaw.GitProxy.Commands.{hex_digit, parse_pkt_length, space_width, end_field, fields_from}

-- A hexadecimal digit in lower case.
abbrev pub hex_char : ℕ → ℕ
hex_char d = if ltb d 10 then d + 48 else d + 87

-- Four hexadecimal digits.
abbrev pub pkt_length : ℕ → Bytes
pkt_length n =
    hex_char (n / 4096 % 16)
    ∷ hex_char (n / 256 % 16)
    ∷ hex_char (n / 16 % 16)
    ∷ hex_char (n % 16)
    ∷ []

hex_digit-hex_char : (d : ℕ) → d < 16 → hex_digit (hex_char d) ≡ some d
unfolding hex_digit
hex_digit-hex_char d h = ground arith

pub parse_pkt_length-pkt_length : (n : ℕ) → n < 65536 → parse_pkt_length (pkt_length n) ≡ some n
unfolding parse_pkt_length
parse_pkt_length-pkt_length n h =
    rw
      (
        hex_digit-hex_char (n / 4096 % 16) (omega arith),
        hex_digit-hex_char (n / 256 % 16) (omega arith),
        hex_digit-hex_char (n / 16 % 16) (omega arith),
        hex_digit-hex_char (n % 16) (omega arith),
      )
      (ap (λ k. some k) (omega arith))

-- No white space begins in the word, ASCII or not, if this text stands behind it.
abbrev pub IsUnbroken : Bytes → Bytes → Type 0
IsUnbroken [] behind = Unit
IsUnbroken (b ∷ word) behind = (space_width (b ∷ (word ++ behind)) ≡ 0) × IsUnbroken word behind

fields_from-unbroken :
    (field word behind : Bytes)
    → IsUnbroken word behind
    → fields_from 0 field (word ++ behind) ≡ fields_from 0 (field ++ word) behind
unfolding fields_from
fields_from-unbroken field [] behind h = ap (λ f. fields_from 0 f behind) (sym (append-nil field))
fields_from-unbroken field (b ∷ word) behind h =
    let step : fields_from 0 field ((b ∷ word) ++ behind)
        ≡ fields_from 0 (field ++ (b ∷ [])) (word ++ behind) =
      rw (h.0, fields_from) refl in
    step
    ∙ fields_from-unbroken (field ++ (b ∷ [])) word behind h.1
    ∙ ap (λ f. fields_from 0 f behind) (append_assoc field (b ∷ []) word)

-- A space ends every other sequence of bytes.
width_before_space :
    (b : ℕ) (word rest : Bytes)
    → space_width (b ∷ word) ≡ 0
    → space_width (b ∷ (word ++ (32 ∷ rest))) ≡ 0
unfolding space_width
width_before_space b [] rest h = ground arith
width_before_space b (d ∷ []) rest h = ground arith
width_before_space b (d ∷ e ∷ word) rest h = ground arith

before_space-IsUnbroken : (word rest : Bytes) → IsUnbroken word [] → IsUnbroken word (32 ∷ rest)
before_space-IsUnbroken [] rest h = tt
before_space-IsUnbroken (b ∷ word) rest h = (
  width_before_space b word rest (subst (λ w. space_width (b ∷ w) ≡ 0) (append-nil word) h.0),
  before_space-IsUnbroken word rest h.1,
)

fields_from-space :
    (field s : Bytes) → fields_from 0 field (32 ∷ s) ≡ end_field field (fields_from 0 [] s)
unfolding fields_from space_width
fields_from-space field s = refl

fields_from-end : (word : Bytes) → fields_from 0 word [] ≡ end_field word []
unfolding fields_from
fields_from-end word = refl

end_field-cons :
    (word : Bytes) (later : List Bytes) → word ≢ [] → end_field word later ≡ word ∷ later
end_field-cons [] later h = absurd (h refl)
end_field-cons (b ∷ word) later h = refl

-- A word that a command is made of: it is not empty, no white space begins in it, ASCII or not, and
-- it has no NUL.
pub record IsWord (word : Bytes) : Type 0 where
  pub unbroken : IsUnbroken word []
  pub no_nul : All (λ b. eqb b 0 ≡ false) word
  pub some_byte : word ≢ []

-- Newlines are white space.
pub no_newline : (word : Bytes) → IsUnbroken word [] → All (λ b. eqb b 10 ≡ false) word
unfolding space_width
no_newline [] h = tt
no_newline (b ∷ word) h = let width = h.0 in (ground (arith, width), no_newline word h.1)

pub fields-word :
    (word s : Bytes) → IsWord word → fields_from 0 [] (word ++ (32 ∷ s)) ≡ word ∷ fields_from 0 [] s
fields-word word s w =
    fields_from-unbroken [] word (32 ∷ s) (before_space-IsUnbroken word s w.unbroken)
    ∙ fields_from-space word s
    ∙ end_field-cons word (fields_from 0 [] s) w.some_byte

pub fields-last : (word : Bytes) → IsWord word → fields_from 0 [] word ≡ word ∷ []
fields-last word w =
    ap (fields_from 0 []) (sym (append-nil word))
    ∙ fields_from-unbroken [] word [] w.unbroken
    ∙ fields_from-end word
    ∙ end_field-cons word [] w.some_byte
