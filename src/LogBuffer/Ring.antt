-- ===== src/LogBuffer/Ring.antt =====
-- internal/libraries/logbuffer/logbuffer.go: the ring against the whole log that was ever written.
use mathlib.Core.List.{append_assoc, append-nil}
use tclaw.Base.{
  drop, length-drop, ℕ, zero, suc, ◌-◌, ◌≤◌, ◌<◌, ◌≡◌, refl, ap, ◌∙◌, sym, subst, not, Option, none,
  some, List, [], ◌∷◌, ◌++◌, eqb, leb, if◌then◌else◌, length, length-append, Bytes, arith,
  Option-cases, Bool-cases, inl, inr, map, keep,
}
use tclaw.LogBuffer.{
  Entry, Buffer, is_nil, and_then, add_line, append_locked, shift, cut_newline, take_lines, write,
}
use tclaw.LogBuffer.Chunks.{cut_newline-append, take_lines_of_none, take_lines_of_some}

-- The last so many elements.
abbrev pub latest : ℕ → List Entry → List Entry
latest n xs = drop (length xs - n) xs

drop-append : (k : ℕ) (xs ys : List Entry) → k ≤ length xs → drop k (xs ++ ys) ≡ drop k xs ++ ys
unfolding drop
drop-append zero xs ys h = refl
drop-append (suc k) [] ys h = absurd (omega arith)
drop-append (suc k) (x ∷ xs) ys h = drop-append k xs ys (omega arith)

drop-suc :
    (k : ℕ) (xs : List Entry) (x : Entry) (rest : List Entry)
    → drop k xs ≡ x ∷ rest
    → drop (suc k) xs ≡ rest
unfolding drop
drop-suc zero [] x rest e = cc
drop-suc zero (y ∷ xs) x rest e = ground arith
drop-suc (suc k) [] x rest e = cc
drop-suc (suc k) (y ∷ xs) x rest e = drop-suc k xs x rest e

-- The ring holds the latest lines of a log.
pub record Holds (b : Buffer) (log : List Entry) : Type 0 where
  pub some_room : 0 < b.max
  pub latest_lines : b.lines ≡ latest b.max log

-- What a step leaves: a buffer that holds the longer log and has the same room.
abbrev pub Follows : Buffer → List Entry → Option Buffer → Type 0
Follows b log none = ⊥
Follows b log (some b') = Holds b' log × (b'.max ≡ b.max)

shift-Follows :
    (b : Buffer) (e : Entry) (log lines : List Entry)
    → Holds b log
    → b.lines ≡ lines
    → b.max ≤ length lines
    → Follows b (log ++ (e ∷ [])) (shift e b lines)
shift-Follows b e log [] h same full = absurd (omega (arith, h.some_room))
shift-Follows b e log (oldest ∷ lines) h same full =
    let k = length log - b.max in
    let dropped : drop k log ≡ oldest ∷ lines = sym h.latest_lines ∙ same in
    let size = length-drop k log in
    let count : length (oldest ∷ lines) ≡ length log - k = ap (length {0}) (sym dropped) ∙ size in
    let more : length (log ++ (e ∷ [])) - b.max ≡ suc k =
      omega (arith, length-append log (e ∷ []), h.some_room, count) in
    (
      record {
        some_room = h.some_room;
        latest_lines = sym (
            ap (λ j. drop j (log ++ (e ∷ []))) more
            ∙ drop-append (suc k) log (e ∷ []) (omega (arith, h.some_room, count))
            ∙ ap (λ l. l ++ (e ∷ [])) (drop-suc k log oldest lines dropped));
      },
      refl,
    )

append_locked-Follows :
    (b : Buffer) (e : Entry) (log : List Entry)
    → Holds b log
    → Follows b (log ++ (e ∷ [])) (append_locked e b)
unfolding append_locked drop
append_locked-Follows b e log h = elim (Bool-cases (leb b.max (length b.lines))) [
  | inl full ↦ rw full (shift-Follows b e log b.lines h refl (ground arith))
  | inr room ↦
      let size = length-drop (length log - b.max) log in
      let count = ap (length {0}) h.latest_lines in
      let whole : length log - b.max ≡ 0 = ground (arith, size, count) in
      let more : length (log ++ (e ∷ [])) - b.max ≡ 0 =
        ground (arith, size, count, length-append log (e ∷ [])) in
      rw room (
        record {
          some_room = h.some_room;
          latest_lines =
              ap (λ l. l ++ (e ∷ [])) (h.latest_lines ∙ ap (λ j. drop j log) whole)
              ∙ sym (ap (λ j. drop j (log ++ (e ∷ []))) more);
        },
        refl,
      )
]

-- The complete lines of a text behind the beginning of a line, read byte by byte.
unfoldable pub complete_lines : Bytes → Bytes → List Bytes
complete_lines line [] = []
complete_lines line (b ∷ s) =
    let ends = complete_lines [] s in
    let goes_on = complete_lines (line ++ (b ∷ [])) s in if eqb b 10 then line ∷ ends else goes_on

abbrev pub stamped : Option ℕ → Bytes → Entry
stamped time line = record { time = time; text = line }

-- The log that a text adds: its complete lines that are not empty.
abbrev pub logged : Option ℕ → List Bytes → List Entry
logged time lines = map (stamped time) (keep (λ l. not (is_nil l)) lines)

-- The same, a line at a time.
abbrev from_cut : Bytes → Option (Bytes × Bytes) → List Bytes
from_cut begun none = []
from_cut begun (some (line, rest)) = (begun ++ line) ∷ complete_lines [] rest

complete_lines-cut :
    (begun raw : Bytes) → complete_lines begun raw ≡ from_cut begun (cut_newline raw)
unfolding cut_newline complete_lines
complete_lines-cut begun [] = refl
complete_lines-cut begun (b ∷ raw) = elim (Bool-cases (eqb b 10)) [
  | inl newline ↦ rw newline (ap (λ l. l ∷ complete_lines [] raw) (sym (append-nil begun)))
  | inr other ↦
      let ih = complete_lines-cut (begun ++ (b ∷ [])) raw in
      elim (Option-cases (cut_newline raw)) [
        | inl e ↦ rw other (rw e (ih ∙ ap (from_cut (begun ++ (b ∷ []))) e))
        | inr (r, e) ↦ rw other (
            rw e (
              ih
              ∙ ap (from_cut (begun ++ (b ∷ []))) e
              ∙ ap (λ l. l ∷ complete_lines [] r.1) (append_assoc begun (b ∷ []) r.0)))
      ]
]

add_line-Follows :
    (time : Option ℕ) (line : Bytes) (b : Buffer) (log : List Entry)
    → Holds b log
    → Follows b (log ++ logged time (line ∷ [])) (add_line time line b)
unfolding add_line
add_line-Follows time line b log h = elim (Bool-cases (is_nil line)) [
  | inl empty ↦ rw empty (subst (Holds b) (sym (append-nil log)) h, refl)
  | inr text ↦ rw text (append_locked-Follows b (stamped time line) log h)
]

-- A step, and what follows on the buffer that it leaves.
and_then-Follows :
    (b : Buffer) (log log' : List Entry) (o : Option Buffer) (f : Buffer → Option Buffer)
    → Follows b log o
    → ((b' : Buffer) → Holds b' log → Follows b' log' (f b'))
    → Follows b log' (and_then o f)
and_then-Follows b log log' none f here later = elim here [ ]
and_then-Follows b log log' (some b') f here later = same_room (f b') here.1 (later b' here.0)
  where
    same_room : (o : Option Buffer) → b'.max ≡ b.max → Follows b' log' o → Follows b log' o
    same_room none e h = h
    same_room (some b'') e h = (h.0, h.1 ∙ e)

logged-cons :
    (time : Option ℕ) (line : Bytes) (lines : List Bytes)
    → logged time (line ∷ lines) ≡ logged time (line ∷ []) ++ logged time lines
logged-cons time line lines = ground arith

no_newline-Follows :
    (n : ℕ) (time : Option ℕ) (raw : Bytes) (b : Buffer) (log : List Entry)
    → Holds b log
    → cut_newline raw ≡ none
    → Follows b (log ++ logged time (complete_lines [] raw)) (take_lines n time raw b)
no_newline-Follows n time raw b log holds e =
    let nothing : complete_lines [] raw ≡ [] = complete_lines-cut [] raw ∙ ap (from_cut []) e in
    subst (λ l. Follows b (log ++ logged time l) (take_lines n time raw b)) (sym nothing)
      (subst (Follows b (log ++ [])) (sym (take_lines_of_none n time raw b e)) (
        let same = subst (Holds b) (sym (append-nil log)) holds in
        (record { some_room = same.some_room; latest_lines = same.latest_lines }, refl)))

take_lines-Follows :
    (n : ℕ) (time : Option ℕ) (raw : Bytes) (b : Buffer) (log : List Entry)
    → length raw ≤ n
    → Holds b log
    → Follows b (log ++ logged time (complete_lines [] raw)) (take_lines n time raw b)
take_lines-Follows zero time raw b log h holds = elim (Option-cases (cut_newline raw)) [
  | inl e ↦ no_newline-Follows zero time raw b log holds e
  | inr (r, e) ↦ absurd (omega (arith, (cut_newline-append raw [] r.0 r.1 e).1))
]
take_lines-Follows (suc n) time raw b log h holds = elim (Option-cases (cut_newline raw)) [
  | inl e ↦ no_newline-Follows (suc n) time raw b log holds e
  | inr (r, e) ↦
      let here = log ++ logged time (r.0 ∷ []) in
      let there = logged time (complete_lines [] r.1) in
      let cut = complete_lines-cut [] raw ∙ ap (from_cut []) e in
      let whole : here ++ there ≡ log ++ logged time (complete_lines [] raw) =
        append_assoc log (logged time (r.0 ∷ [])) there
        ∙ ap (◌++◌ log)
            (sym (logged-cons time r.0 (complete_lines [] r.1)) ∙ ap (logged time) (sym cut)) in
      subst (λ l. Follows b l (take_lines (suc n) time raw b)) whole
        (subst (Follows b (here ++ there)) (sym (take_lines_of_some n time raw r.0 r.1 b e)) (
          and_then-Follows b here (here ++ there) (add_line time r.0 b) (take_lines n time r.1)
            (add_line-Follows time r.0 b log holds)
            (λ b' h'.
              take_lines-Follows n time r.1 b' here
                (omega (arith, (cut_newline-append raw [] r.0 r.1 e).1)) h')))
]

-- The ring is the end of the whole log: if it has room for a line at all and holds the latest lines
-- of what was written so far, then a write does not panic, keeps the room, and leaves the
-- latest lines of that log with the new text's complete, non-empty lines behind it, the first of
-- them continuing the partial line of before, all stamped with the time of the write.
pub write-Follows :
    (now : ℕ) (p : Bytes) (b : Buffer) (log : List Entry)
    → Holds b log
    → Follows b (log ++ logged (some now) (complete_lines [] (b.partial ++ p))) (write now p b)
unfolding write
write-Follows now p b log holds =
    take_lines-Follows (length (b.partial ++ p)) (some now) (b.partial ++ p) b log (omega arith)
      holds
