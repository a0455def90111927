-- ===== src/GitProxy/Lines.antt =====
-- internal/gitproxy/refs.go: what one step of the parser takes from the body.
use mathlib.Core.List.{append_assoc}
use tclaw.Base.{
  ℕ, zero, suc, ◌+◌, ◌-◌, ◌≡◌, ◌≢◌, refl, ap, ◌∙◌, sym, Option, none, some, List, [], ◌∷◌, ◌++◌,
  ltb, Result, ok, err, length, Bytes, arith, Option-cases, Bool-cases, inl, inr,
}
use tclaw.GitProxy.Commands.{
  RefCommand, ParseError, out_of_fuel, read_full, parse_pkt_length, command_of, parse_ref_command,
  Line, broken, flush, command, parsed_line, payload_line, sized_line, read_line,
}

-- A command section: lines whose header counts header and payload, and whose payload is a command,
-- and a header that says zero at the end.
pub data Section : List RefCommand → Bytes → Type 0 where
  ended : (header : Bytes) → parse_pkt_length header ≡ some 0 → Section [] header
  line :
      (header payload : Bytes) (c : RefCommand) (commands : List RefCommand) (later : Bytes)
      → parse_pkt_length header ≡ some (4 + length payload)
      → parse_ref_command payload ≡ ok c
      → Section commands later
      → Section (c ∷ commands) ((header ++ payload) ++ later)

read_full-splits :
    (n : ℕ) (input read rest : Bytes)
    → read_full n input ≡ some (read, rest)
    → (input ≡ read ++ rest) × (length read ≡ n)
unfolding read_full
read_full-splits zero input read rest e = ground arith
read_full-splits (suc n) [] read rest e = cc
read_full-splits (suc n) (b ∷ input) read rest e = elim (Option-cases (read_full n input)) [
  | inl x ↦ absurd (ground (arith, x))
  | inr (r, x) ↦
      let (split, size) = read_full-splits n input r.0 r.1 x in
      let same_read : b ∷ r.0 ≡ read = ground arith in
      let same_rest : r.1 ≡ rest = ground arith in
      (
        ap (◌∷◌ b) split ∙ ap (λ z. z ++ r.1) same_read ∙ ap (◌++◌ read) same_rest,
        omega (arith, ap (length {0}) same_read),
      )
]

pub read_full-append :
    (read rest : Bytes) → read_full (length read) (read ++ rest) ≡ some (read, rest)
unfolding read_full
read_full-append [] rest = refl
read_full-append (b ∷ read) rest = rw (read_full-append read rest) refl

pub header-length : (header : Bytes) (n : ℕ) → parse_pkt_length header ≡ some n → length header ≡ 4
unfolding parse_pkt_length
header-length [] n e = cc
header-length (a ∷ []) n e = cc
header-length (a ∷ b ∷ []) n e = cc
header-length (a ∷ b ∷ c ∷ []) n e = cc
header-length (a ∷ b ∷ c ∷ d ∷ []) n e = refl
header-length (a ∷ b ∷ c ∷ d ∷ x ∷ xs) n e = cc

command_of-fuel : (fs : List Bytes) → command_of fs ≢ err out_of_fuel
command_of-fuel [] e = cc
command_of-fuel (a ∷ []) e = cc
command_of-fuel (a ∷ b ∷ []) e = cc
command_of-fuel (a ∷ b ∷ c ∷ []) e = cc
command_of-fuel (a ∷ b ∷ c ∷ d ∷ fs) e = cc

-- What a round finds at the front of the input.
pub data LineOf (input : Bytes) : Line → Type 0 where
  broken_line : (e : ParseError) → e ≢ out_of_fuel → LineOf input (broken e)
  flush_line :
      (raw rest : Bytes)
      → input ≡ raw ++ rest
      → parse_pkt_length raw ≡ some 0
      → LineOf input (flush raw rest)
  command_line :
      (header payload rest : Bytes) (c : RefCommand)
      → input ≡ (header ++ payload) ++ rest
      → parse_pkt_length header ≡ some (4 + length payload)
      → parse_ref_command payload ≡ ok c
      → LineOf input (command c (header ++ payload) rest)

module _ (input header rest : Bytes) (split : input ≡ header ++ rest) where
  parsed-LineOf :
      (payload after : Bytes)
      → rest ≡ payload ++ after
      → parse_pkt_length header ≡ some (4 + length payload)
      → (r : Result ParseError RefCommand) → parse_ref_command payload ≡ r
      → LineOf input (parsed_line header payload after r)
  unfolding parse_ref_command
  parsed-LineOf payload after s size (err e) x =
      broken_line e (λ same. command_of-fuel _ (x ∙ ap (λ y. err y) same))
  parsed-LineOf payload after s size (ok c) x =
      command_line header payload after c
        (split ∙ ap (◌++◌ header) s ∙ sym (append_assoc header payload after)) size x

  payload-LineOf :
      (n : ℕ) (r : Option (Bytes × Bytes))
      → read_full n rest ≡ r
      → parse_pkt_length header ≡ some (4 + n)
      → LineOf input (payload_line header r)
  payload-LineOf n none x size = broken_line _ (λ e. cc)
  payload-LineOf n (some (payload, after)) x size =
      let (s, len) = read_full-splits n rest payload after x in
      parsed-LineOf payload after s (size ∙ ap (λ k. some (4 + k)) (sym len))
        (parse_ref_command payload) refl

  sized-LineOf :
      (o : Option ℕ) → parse_pkt_length header ≡ o → LineOf input (sized_line header rest o)
  sized-LineOf none x = broken_line _ (λ e. cc)
  sized-LineOf (some zero) x = flush_line header rest split x
  sized-LineOf (some (suc n)) x = elim (Bool-cases (ltb (suc n) 4)) [
    | inl small ↦ rw small (broken_line _ (λ e. cc))
    | inr large ↦ rw large (
        payload-LineOf (suc n - 4) (read_full (suc n - 4) rest) refl
          (x ∙ ap (λ k. some k) (ground arith)))
  ]

pub read_line-LineOf : (input : Bytes) → LineOf input (read_line input)
unfolding read_line
read_line-LineOf input = elim (Option-cases (read_full 4 input)) [
  | inl e ↦ rw (e, read_line) (broken_line _ (λ x. cc))
  | inr (r, e) ↦
      rw (e, read_line)
        (sized-LineOf input r.0 r.1 (read_full-splits 4 input r.0 r.1 e).0 (parse_pkt_length r.0)
          refl)
]
