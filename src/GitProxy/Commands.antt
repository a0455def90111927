-- ===== src/GitProxy/Commands.antt =====
-- internal/gitproxy/refs.go: the ref commands at the head of a git-receive-pack body. A body is the
-- list of its bytes; what has been read is split off its front.
use tclaw.Base.{
  ℕ, zero, suc, ◌+◌, ◌-◌, ◌*◌, ◌&&◌, ◌||◌, Option, none, some, List, [], ◌∷◌, ◌++◌, ltb, leb, eqb,
  if◌then◌else◌, Result, ok, err, length, Bytes, bytes, same_bytes, has_prefix,
}

abbrev pub command_section_limit : ℕ
command_section_limit = 65536

pub record RefCommand : Type 0 where
  pub old_oid : Bytes
  pub new_oid : Bytes
  pub ref : Bytes

pub data ParseError : Type 0 where
  length_cut_short : ParseError
  malformed_length : ParseError
  below_header : ParseError
  payload_cut_short : ParseError
  malformed_command : ParseError
  out_of_fuel : ParseError

-- `io.ReadFull` of so many bytes, and what is left; `none` is an early end of the input.
unfoldable pub read_full : ℕ → Bytes → Option (Bytes × Bytes)
read_full zero input = some ([], input)
read_full (suc n) [] = none
read_full (suc n) (b ∷ input) = elim (read_full n input) [
  | none ↦ none
  | some (read, rest) ↦ some (b ∷ read, rest)
]

-- The first bytes, as `io.LimitReader` lets them through.
unfoldable pub limit_reader : ℕ → Bytes → Bytes
limit_reader zero input = []
limit_reader (suc n) [] = []
limit_reader (suc n) (b ∷ input) = b ∷ limit_reader n input

-- A digit of `hex.DecodeString`, in either case.
unfoldable pub hex_digit : ℕ → Option ℕ
hex_digit b =
    if leb 48 b && leb b 57
    then some (b - 48)
    else if leb 97 b && leb b 102
    then some (b - 87)
    else if leb 65 b && leb b 70
    then some (b - 55)
    else none

-- Two digits are a byte.
abbrev pub two_digits : Option ℕ → Option ℕ → Option ℕ
two_digits (some high) (some low) = some (high * 16 + low)
two_digits (some high) none = none
two_digits none low = none

-- Two bytes are the length, the first one shifted by eight bits.
abbrev pub big_endian : Option ℕ → Option ℕ → Option ℕ
big_endian (some first) (some second) = some (first * 256 + second)
big_endian (some first) none = none
big_endian none second = none

-- Anything but four digits is malformed.
unfoldable pub parse_pkt_length : Bytes → Option ℕ
parse_pkt_length (a ∷ b ∷ c ∷ d ∷ []) =
    big_endian (two_digits (hex_digit a) (hex_digit b)) (two_digits (hex_digit c) (hex_digit d))
parse_pkt_length _ = none

-- How many bytes the white space at the front of a text takes, as `unicode.IsSpace` decides for
-- the character decoded there; 0 if there is none.
unfoldable pub space_width : Bytes → ℕ
space_width [] = 0
space_width (a ∷ s) =
    if leb 9 a && leb a 13 || eqb a 32
    then 1
    else if eqb a 194
    then two_byte_space s
    else if eqb a 225 || eqb a 226 || eqb a 227
    then three_byte_space a s
    else 0
  where
    -- U+0085 and U+00A0
    two_byte_space : Bytes → ℕ
    two_byte_space [] = 0
    two_byte_space (b ∷ s) = if eqb b 133 || eqb b 160 then 2 else 0

    -- U+1680, U+2000 to U+200A, U+2028, U+2029, U+202F, U+205F and U+3000
    three_byte_space : ℕ → Bytes → ℕ
    three_byte_space a [] = 0
    three_byte_space a (b ∷ []) = 0
    three_byte_space a (b ∷ c ∷ s) =
        if eqb a 225 && eqb b 154 && eqb c 128
          || eqb a 226
            && (eqb b 128 && (leb 128 c && leb c 138 || eqb c 168 || eqb c 169 || eqb c 175)
                || eqb b 129 && eqb c 159)
          || eqb a 227 && eqb b 128 && eqb c 128
        then 3
        else 0

-- A field that has ended; no field begins between two spaces.
abbrev pub end_field : Bytes → List Bytes → List Bytes
end_field [] later = later
end_field (b ∷ field) later = (b ∷ field) ∷ later

-- The loop of `strings.Fields`: bytes of white space that are still to be skipped, the field so
-- far, and the rest of the text.
unfoldable pub fields_from : ℕ → Bytes → Bytes → List Bytes
fields_from skip field [] = end_field field []
fields_from (suc skip) field (b ∷ s) = fields_from skip field s
fields_from zero field (b ∷ s) =
    let within = fields_from zero (field ++ (b ∷ [])) s in
    elim (space_width (b ∷ s)) [
      | zero ↦ within
      | suc more ↦ end_field field (fields_from more [] s)
    ]

unfoldable pub fields : Bytes → List Bytes
fields s = fields_from zero [] s

-- `payload[:strings.IndexByte(payload, 0)]`, or all of it.
unfoldable pub before_nul : Bytes → Bytes
before_nul [] = []
before_nul (b ∷ s) = let rest = before_nul s in if eqb b 0 then [] else b ∷ rest

-- `strings.TrimRight(payload, "\n")`
unfoldable pub trim_right_newlines : Bytes → Bytes
trim_right_newlines [] = []
trim_right_newlines (b ∷ s) = elim (trim_right_newlines s) [
  | [] ↦ if eqb b 10 then [] else b ∷ []
  | c ∷ rest ↦ b ∷ c ∷ rest
]

abbrev pub command_of : List Bytes → Result ParseError RefCommand
command_of (old ∷ new ∷ ref ∷ []) = ok (record { old_oid = old; new_oid = new; ref = ref })
command_of _ = err malformed_command

unfoldable pub parse_ref_command : Bytes → Result ParseError RefCommand
parse_ref_command payload = command_of (fields (trim_right_newlines (before_nul payload)))

-- A round of the loop: the line at the front of the input, what it took, and what is left.
pub data Line : Type 0 where
  broken : ParseError → Line
  flush : (raw rest : Bytes) → Line
  command : (c : RefCommand) (raw rest : Bytes) → Line

abbrev pub parsed_line : Bytes → Bytes → Bytes → Result ParseError RefCommand → Line
parsed_line header payload rest (err e) = broken e
parsed_line header payload rest (ok c) = command c (header ++ payload) rest

abbrev pub payload_line : Bytes → Option (Bytes × Bytes) → Line
payload_line header none = broken payload_cut_short
payload_line header (some (payload, rest)) =
    parsed_line header payload rest (parse_ref_command payload)

abbrev pub sized_line : Bytes → Bytes → Option ℕ → Line
sized_line header rest none = broken malformed_length
sized_line header rest (some zero) = flush header rest
sized_line header rest (some (suc n)) =
    if ltb (suc n) 4 then broken below_header else payload_line header (read_full (suc n - 4) rest)

unfoldable pub read_line : Bytes → Line
read_line input = elim (read_full 4 input) [
  | none ↦ broken length_cut_short
  | some (header, rest) ↦ sized_line header rest (parse_pkt_length header)
]

-- The loop, on fuel: the commands and the bytes read so far.
unfoldable pub parse_from :
    ℕ → Bytes → List RefCommand → Bytes → Result ParseError (List RefCommand × Bytes)
parse_from zero input commands seen = err out_of_fuel
parse_from (suc n) input commands seen = elim (read_line input) [
  | broken e ↦ err e
  | flush raw rest ↦ ok (commands, seen ++ raw)
  | command c raw rest ↦ parse_from n rest (commands ++ (c ∷ [])) (seen ++ raw)
]

-- `parseRefCommands`: each round takes a byte at least, so that the length is fuel enough.
unfoldable pub parse_ref_commands : Bytes → Result ParseError (List RefCommand × Bytes)
parse_ref_commands body =
    let input = limit_reader command_section_limit body in
    parse_from (suc (length input)) input [] []

-- What `checkPullRequestsOnly` refuses.
pub data PolicyError : Type 0 where
  no_ref_updates : PolicyError
  default_branch : PolicyError
  not_a_branch : Bytes → PolicyError

unfoldable pub heads : Bytes
heads = bytes "refs/heads/"

-- The loop over the commands; `none` is no error.
unfoldable pub check_refs : Bytes → List RefCommand → Option PolicyError
check_refs default_ref [] = none
check_refs default_ref (c ∷ commands) =
    let later = check_refs default_ref commands in
    if same_bytes c.ref default_ref
    then some default_branch
    else if has_prefix heads c.ref
    then later
    else some (not_a_branch c.ref)

unfoldable pub check_pull_requests_only : List RefCommand → Bytes → Option PolicyError
check_pull_requests_only [] branch = some no_ref_updates
check_pull_requests_only (c ∷ commands) branch = check_refs (heads ++ branch) (c ∷ commands)
