-- ===== src/GitProxy/Parsing.antt =====
-- internal/gitproxy/refs.go: what the parser of ref commands accepts, told without its loop.
use mathlib.Core.List.{append_assoc, append-nil}
use tclaw.Base.{
  ℕ, zero, suc, ◌+◌, ◌<◌, ◌≡◌, ◌≢◌, refl, ap, ◌∙◌, sym, List, [], ◌∷◌, ◌++◌, Result, ok, err,
  length, length-append, Bytes, arith,
}
use tclaw.GitProxy.Commands.{
  RefCommand, ParseError, out_of_fuel, Line, broken, flush, command, read_line, parse_from,
}
use tclaw.GitProxy.Lines.{
  Section, ended, line, header-length, LineOf, broken_line, flush_line, command_line,
  read_line-LineOf,
}

-- What a successful run of the loop has read beyond what it was given.
pub record Reads (input : Bytes) (before : List RefCommand) (seen : Bytes) (cs : List RefCommand)
    (taken : Bytes) : Type 0 where
  pub commands : List RefCommand
  pub raw : Bytes
  pub rest : Bytes
  pub is_section : Section commands raw
  pub all_commands : cs ≡ before ++ commands
  pub all_taken : taken ≡ seen ++ raw
  pub split : input ≡ raw ++ rest

ok-fst :
    {a b : List RefCommand} {s t : Bytes}
    → Path (Result ParseError (List RefCommand × Bytes)) (ok (a, s)) (ok (b, t))
    → (a ≡ b) × (s ≡ t)
ok-fst e = ground arith

pub parse_from-Reads :
    (n : ℕ) (input : Bytes) (before : List RefCommand) (seen : Bytes) (cs : List RefCommand)
    (taken : Bytes)
    → parse_from n input before seen ≡ ok (cs, taken)
    → Reads input before seen cs taken
unfolding parse_from
parse_from-Reads zero input before seen cs taken e = cc
parse_from-Reads (suc n) input before seen cs taken e =
    by_line (λ i b s. parse_from-Reads n i b s cs taken) (read_line input) refl
      (read_line-LineOf input)
  where
    by_line :
        ((i : Bytes) (b : List RefCommand) (s : Bytes)
          → parse_from n i b s ≡ ok (cs, taken)
          → Reads i b s cs taken)
        → (l : Line) → read_line input ≡ l
        → LineOf input l
        → Reads input before seen cs taken
    by_line again (broken x) here l =
        let stops : parse_from (suc n) input before seen ≡ err x = rw (here, parse_from) refl in
        absurd (ground (arith, stops, e))
    by_line again (flush raw rest) here (flush_line _ _ s x) =
        let stops : parse_from (suc n) input before seen ≡ ok (before, seen ++ raw) =
          rw (here, parse_from) refl in
        let (same, all) = ok-fst (sym e ∙ stops) in
        record {
          commands = [];
          raw = raw;
          rest = rest;
          is_section = ended raw x;
          all_commands = same ∙ sym (append-nil before);
          all_taken = all;
          split = s;
        }
    by_line again (command c raw rest) here (command_line header payload _ _ s size x) =
        let goes_on : parse_from (suc n) input before seen
            ≡ parse_from n rest (before ++ (c ∷ [])) (seen ++ (header ++ payload)) =
          rw (here, parse_from) refl in
        let r = again rest (before ++ (c ∷ [])) (seen ++ (header ++ payload)) (sym goes_on ∙ e) in
        record {
          commands = c ∷ r.commands;
          raw = (header ++ payload) ++ r.raw;
          rest = r.rest;
          is_section = line header payload c r.commands r.raw size x r.is_section;
          all_commands = r.all_commands ∙ append_assoc before (c ∷ []) r.commands;
          all_taken = r.all_taken ∙ append_assoc seen (header ++ payload) r.raw;
          split =
              s
              ∙ ap (◌++◌ (header ++ payload)) r.split
              ∙ sym (append_assoc (header ++ payload) r.raw r.rest);
        }

-- Fuel beyond the length of the input is enough.
pub parse_from-fuel :
    (n : ℕ) (input : Bytes) (before : List RefCommand) (seen : Bytes)
    → length input < n
    → parse_from n input before seen ≢ err out_of_fuel
unfolding parse_from
parse_from-fuel zero input before seen h e = absurd (omega arith)
parse_from-fuel (suc n) input before seen h e =
    by_line (λ i b s. parse_from-fuel n i b s) (read_line input) refl (read_line-LineOf input)
  where
    by_line :
        ((i : Bytes) (b : List RefCommand) (s : Bytes)
          → length i < n
          → parse_from n i b s ≢ err out_of_fuel)
        → (l : Line) → read_line input ≡ l
        → LineOf input l
        → ⊥
    by_line again (broken x) here (broken_line _ more) =
        let stops : parse_from (suc n) input before seen ≡ err x = rw (here, parse_from) refl in
        more (ground (arith, stops, e))
    by_line again (flush raw rest) here l =
        let stops : parse_from (suc n) input before seen ≡ ok (before, seen ++ raw) =
          rw (here, parse_from) refl in
        ground (arith, stops, e)
    by_line again (command c raw rest) here (command_line header payload _ _ s size x) =
        let goes_on : parse_from (suc n) input before seen
            ≡ parse_from n rest (before ++ (c ∷ [])) (seen ++ (header ++ payload)) =
          rw (here, parse_from) refl in
        again rest (before ++ (c ∷ [])) (seen ++ (header ++ payload))
          (omega (
            arith,
            ap (length {0}) s,
            length-append (header ++ payload) rest,
            length-append header payload,
            header-length header (4 + length payload) size,
          ))
          (sym goes_on ∙ e)
