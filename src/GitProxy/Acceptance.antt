-- ===== src/GitProxy/Acceptance.antt =====
-- internal/gitproxy/refs.go: the bodies that the parser of ref commands accepts are exactly those
-- that begin with a command section, within the limit.
use mathlib.Core.List.{append_assoc, append-nil}
use tclaw.Base.{
  ℕ, zero, suc, ◌+◌, ◌-◌, ◌≤◌, ◌<◌, ◌≡◌, ◌≢◌, ◌↔◌, refl, ap, ◌∙◌, sym, subst, false, some, List, [],
  ◌∷◌, ◌++◌, ltb, ok, err, length, length-append, Bytes, arith,
}
use tclaw.GitProxy.Commands.{
  RefCommand, out_of_fuel, command_section_limit, read_full, limit_reader, parse_pkt_length,
  parse_ref_command, flush, command, parsed_line, payload_line, sized_line, read_line, parse_from,
  parse_ref_commands,
}
use tclaw.GitProxy.Parsing.{parse_from-Reads, parse_from-fuel}
use tclaw.GitProxy.Lines.{Section, ended, line, read_full-append, header-length}

read_header :
    (header rest : Bytes)
    → length header ≡ 4
    → read_line (header ++ rest) ≡ sized_line header rest (parse_pkt_length header)
unfolding read_line
read_header header rest four =
    let found : read_full 4 (header ++ rest) ≡ some (header, rest) =
      subst (λ k. read_full k (header ++ rest) ≡ some (header, rest)) four
        (read_full-append header rest) in
    rw (found, read_line) refl

read_line_of_flush :
    (header rest : Bytes)
    → parse_pkt_length header ≡ some 0
    → read_line (header ++ rest) ≡ flush header rest
read_line_of_flush header rest e =
    read_header header rest (header-length header 0 e) ∙ ap (sized_line header rest) e

sized_line_of_size :
    (header rest : Bytes) (n k : ℕ)
    → n ≡ 4 + k
    → sized_line header rest (some n) ≡ payload_line header (read_full k rest)
sized_line_of_size header rest zero k e = absurd (omega arith)
sized_line_of_size header rest (suc n) k e =
    let large : ltb (suc n) 4 ≡ false = ground arith in
    let size : suc n - 4 ≡ k = omega arith in
    rw large (ap (λ j. payload_line header (read_full j rest)) size)

sized_line_of_payload :
    (header payload rest : Bytes)
    → sized_line header (payload ++ rest) (some (4 + length payload))
      ≡ parsed_line header payload rest (parse_ref_command payload)
sized_line_of_payload header payload rest =
    sized_line_of_size header (payload ++ rest) (4 + length payload) (length payload) refl
    ∙ ap (payload_line header) (read_full-append payload rest)

read_line_of_command :
    (header payload rest : Bytes) (c : RefCommand)
    → parse_pkt_length header ≡ some (4 + length payload)
    → parse_ref_command payload ≡ ok c
    → read_line (header ++ (payload ++ rest)) ≡ command c (header ++ payload) rest
read_line_of_command header payload rest c size parses =
    read_header header (payload ++ rest) (header-length header (4 + length payload) size)
    ∙ ap (sized_line header (payload ++ rest)) size
    ∙ sized_line_of_payload header payload rest
    ∙ ap (parsed_line header payload rest) parses

-- The loop reads a section to its end.
parse_from_of_Section :
    (n : ℕ) (cs : List RefCommand) (raw rest : Bytes) (before : List RefCommand) (seen : Bytes)
    → Section cs raw
    → length raw < n
    → parse_from n (raw ++ rest) before seen ≡ ok (before ++ cs, seen ++ raw)
unfolding parse_from
parse_from_of_Section zero cs raw rest before seen s h = absurd (omega arith)
parse_from_of_Section (suc n) cs raw rest before seen (ended _ e) h =
    rw (read_line_of_flush raw rest e, parse_from)
      (ap (λ l. ok (l, seen ++ raw)) (sym (append-nil before)))
parse_from_of_Section (suc n) cs raw rest before seen
      (line header payload c commands later size parses s) h =
    let next = read_line_of_command header payload (later ++ rest) c size parses in
    let shape : ((header ++ payload) ++ later) ++ rest ≡ header ++ (payload ++ (later ++ rest)) =
      append_assoc (header ++ payload) later rest ∙ append_assoc header payload (later ++ rest) in
    let shorter : length later < n = omega (
      arith,
      length-append (header ++ payload) later,
      length-append header payload,
      header-length header (4 + length payload) size,
    ) in
    rw (shape, next, parse_from)
      (parse_from_of_Section n commands later rest (before ++ (c ∷ []))
          (seen ++ (header ++ payload)) s shorter
        ∙ ap (λ l. ok (l, (seen ++ (header ++ payload)) ++ later))
            (append_assoc before (c ∷ []) commands)
        ∙ ap (λ l. ok (before ++ (c ∷ commands), l)) (append_assoc seen (header ++ payload) later))

limit_reader-splits :
    (k : ℕ) (body : Bytes)
    → (length (limit_reader k body) ≤ k) × ((rest : Bytes) × (body ≡ limit_reader k body ++ rest))
unfolding limit_reader
limit_reader-splits zero body = (omega arith, (body, refl))
limit_reader-splits (suc k) [] = (omega arith, ([], refl))
limit_reader-splits (suc k) (b ∷ body) =
    let (small, (rest, split)) = limit_reader-splits k body in
    (omega arith, (rest, ap (◌∷◌ b) split))

limit_reader-append :
    (k : ℕ) (raw rest : Bytes)
    → length raw ≤ k
    → limit_reader k (raw ++ rest) ≡ raw ++ limit_reader (k - length raw) rest
unfolding limit_reader
limit_reader-append k [] rest h = ap (λ j. limit_reader j rest) (omega arith)
limit_reader-append zero (b ∷ raw) rest h = absurd (omega arith)
limit_reader-append (suc k) (b ∷ raw) rest h =
    ap (◌∷◌ b) (limit_reader-append k raw rest (omega arith))
    ∙ ap (λ j. b ∷ (raw ++ limit_reader j rest)) (omega arith)

accepts_of_Section :
    (cs : List RefCommand) (seen rest : Bytes)
    → Section cs seen
    → length seen ≤ command_section_limit
    → parse_ref_commands (seen ++ rest) ≡ ok (cs, seen)
unfolding parse_ref_commands
accepts_of_Section cs seen rest s small =
    let cut = limit_reader-append command_section_limit seen rest small in
    rw cut (
      parse_from_of_Section
        (suc (length (seen ++ limit_reader (command_section_limit - length seen) rest))) cs seen
        (limit_reader (command_section_limit - length seen) rest) [] [] s
        (omega
          (arith, length-append seen (limit_reader (command_section_limit - length seen) rest))))

-- The parser accepts exactly the bodies that begin with a command section of at most 64 KiB, and
-- then returns that section's commands, in order, and its bytes: lines whose four-digit header
-- counts header and payload and whose payload is a command, ended by a header that says zero.
pub parse_ref_commands-Section :
    (body : Bytes) (cs : List RefCommand) (seen : Bytes)
    → (parse_ref_commands body ≡ ok (cs, seen)) ↔ (
        Section cs seen
        × (length seen ≤ command_section_limit)
        × ((rest : Bytes) × (body ≡ seen ++ rest)))
unfolding parse_ref_commands
parse_ref_commands-Section body cs seen = (
  λ accepts.
      let input = limit_reader command_section_limit body in
      let r = parse_from-Reads (suc (length input)) input [] [] cs seen accepts in
      let (small, (beyond, split)) = limit_reader-splits command_section_limit body in
      (
        subst (λ l. Section l seen) (sym r.all_commands)
            (subst (λ l. Section r.commands l) (sym r.all_taken) r.is_section),
        omega (
          arith,
          ap (length {0}) r.split,
          ap (length {0}) r.all_taken,
          length-append r.raw r.rest,
        ),
        (
          r.rest ++ beyond,
          split
              ∙ ap (λ l. l ++ beyond) (r.split ∙ ap (λ l. l ++ r.rest) (sym r.all_taken))
              ∙ append_assoc seen r.rest beyond,
        ),
      ),
  λ (s, small, (rest, split)).
      subst (λ b. parse_ref_commands b ≡ ok (cs, seen)) (sym split)
        (accepts_of_Section cs seen rest s small),
)

-- The parser ends on every body, with commands or with an error of the source: its fuel, one more
-- than the bytes that the limit lets through, does not run out.
pub parse_ref_commands-ends : (body : Bytes) → parse_ref_commands body ≢ err out_of_fuel
unfolding parse_ref_commands
parse_ref_commands-ends body =
    let input = limit_reader command_section_limit body in
    parse_from-fuel (suc (length input)) input [] [] (omega arith)
