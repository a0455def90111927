-- ===== src/LogBuffer.antt =====
-- internal/libraries/logbuffer/logbuffer.go: the ring of the latest log lines. A line is its bytes, a
-- panic is none, and the time of a write is an argument.
pub mod Chunks
pub mod Query
pub mod Ring
mod Tests
use tclaw.Base.{
  ℕ, zero, suc, Bool, true, false, Option, none, some, List, [], ◌∷◌, ◌++◌, leb, eqb, if◌then◌else◌,
  length, Bytes,
}

pub record Entry : Type 0 where
  pub time : Option ℕ
  pub text : Bytes

pub record Buffer : Type 0 where
  pub lines : List Entry
  pub max : ℕ
  pub partial : Bytes

unfoldable pub new : ℕ → Buffer
new max_lines = record { lines = []; max = max_lines; partial = [] }

-- The lines move one place to the left, and the new one takes the last place.
abbrev pub shift : Entry → Buffer → List Entry → Option Buffer
shift e b [] = none
shift e b (oldest ∷ lines) = some (record b { lines = lines ++ (e ∷ []) })

-- `appendLocked`: a full ring loses its oldest line; one without room for any line panics.
unfoldable pub append_locked : Entry → Buffer → Option Buffer
append_locked e b =
    if leb b.max (length b.lines)
    then shift e b b.lines
    else some (record b { lines = b.lines ++ (e ∷ []) })

abbrev pub is_nil : Bytes → Bool
is_nil [] = true
is_nil (b ∷ s) = false

abbrev pub and_then {ℓ κ} : {A : Type ℓ} {B : Type κ} → Option A → (A → Option B) → Option B
and_then none f = none
and_then (some a) f = f a

-- An empty line is passed over.
unfoldable pub add_line : Option ℕ → Bytes → Buffer → Option Buffer
add_line time line b =
    if is_nil line then some b else append_locked (record { time = time; text = line }) b

unfoldable pub load : List Bytes → Buffer → Option Buffer
load [] b = some b
load (line ∷ lines) b = and_then (add_line none line b) (load lines)

-- `raw[:idx]` and `raw[idx+1:]` around the first newline.
unfoldable pub cut_newline : Bytes → Option (Bytes × Bytes)
cut_newline [] = none
cut_newline (b ∷ s) =
    let later = cut_newline s in
    if eqb b 10
    then some ([], s)
    else elim later [ none ↦ none | some (line, raw) ↦ some (b ∷ line, raw) ]

-- The loop of `Write`, on fuel; it leaves the bytes behind the last newline as the partial line.
unfoldable pub take_lines : ℕ → Option ℕ → Bytes → Buffer → Option Buffer
take_lines zero time raw b = some (record b { partial = raw })
take_lines (suc n) time raw b = elim (cut_newline raw) [
  | none ↦ some (record b { partial = raw })
  | some (line, rest) ↦ and_then (add_line time line b) (take_lines n time rest)
]

-- `Write`: each round takes a byte at least, so that the length is fuel enough.
unfoldable pub write : ℕ → Bytes → Buffer → Option Buffer
write now p b = let raw = b.partial ++ p in take_lines (length raw) (some now) raw b
