-- ===== src/LogBuffer/Query/Isolation.antt =====
-- internal/libraries/logbuffer/logbuffer.go: which lines a query on behalf of a user shows.
use tclaw.Base.{
  ℕ, ◌≡◌, ◌≢◌, refl, subst, inl, inr, ◌⊎◌, ◌≤◌, ◌-◌, Bool, true, false, ◌&&◌, none, List, [], ◌∷◌,
  ◌++◌, map, arith, ltb, length, keep, All, keep-All, All-drop, length-drop, Bool-cases,
  Option-cases, Bytes, cut, cut-splits, cut-occurs,
}
use tclaw.LogBuffer.{Buffer, is_nil}
use tclaw.LogBuffer.Query.{
  TextFunctions, QueryParams, occurs, user_field, ends_field, matches_user, hides_user,
  matches_entry, cap, query,
}

-- The user's field stands in the text of the line, ended as a field is.
abbrev pub Tagged : Bytes → Bytes → Type 0
Tagged user_id line =
    (before : Bytes) × (rest : Bytes) × (line ≡ before ++ ((user_field ++ user_id) ++ rest))
    × (ends_field rest ≡ true)

-- No field of a user stands in the text of the line.
abbrev pub Untagged : Bytes → Type 0
Untagged line = (before rest : Bytes) → line ≢ before ++ (user_field ++ rest)

abbrev pub Shown : QueryParams → Bytes → Type 0
Shown p line = Tagged p.user_id line ⊎ ((p.include_system ≡ true) × Untagged line)

matches_user-Tagged :
    (line user_id : Bytes) → matches_user line user_id ≡ true → Tagged user_id line
unfolding matches_user
matches_user-Tagged line user_id h = elim (Option-cases (cut (user_field ++ user_id) line)) [
  | inl e ↦ absurd (ground arith)
  | inr (r, e) ↦ (r.0, r.1, cut-splits (user_field ++ user_id) line r.0 r.1 e, ground arith)
]

occurs-Untagged : (line : Bytes) → occurs user_field line ≡ false → Untagged line
unfolding occurs
occurs-Untagged line h before rest e = elim (Option-cases (cut user_field line)) [
  | inl x ↦ cut-occurs user_field before rest (subst (λ l. cut user_field l ≡ none) e x)
  | inr (r, x) ↦ absurd (ground arith)
]

hides_user-Shown :
    (line : Bytes) (p : QueryParams)
    → is_nil p.user_id ≡ false
    → hides_user line p ≡ false
    → Shown p line
unfolding hides_user
hides_user-Shown line p named h = elim (Bool-cases (occurs user_field line)) [
  | inl e ↦ inl (matches_user-Tagged line p.user_id (ground arith))
  | inr e ↦ inr (ground arith, occurs-Untagged line e)
]

matches_entry-hides_user :
    (lib : TextFunctions) (line : Bytes) (p : QueryParams) (lower : Bytes)
    → matches_entry lib line p lower ≡ true
    → hides_user line p ≡ false
unfolding matches_entry
matches_entry-hides_user lib line p lower h = ground arith

matching-Shown :
    (lib : TextFunctions) (p : QueryParams) (lower : Bytes) (lines : List Bytes)
    → is_nil p.user_id ≡ false
    → All (λ l. matches_entry lib l p lower ≡ true) lines
    → All (Shown p) lines
matching-Shown lib p lower [] named all = tt
matching-Shown lib p lower (l ∷ lines) named all = (
  hides_user-Shown l p named (matches_entry-hides_user lib l p lower all.0),
  matching-Shown lib p lower lines named all.1,
)

cap-All : (P : Bytes → Type 0) (n : ℕ) (lines : List Bytes) → All P lines → All P (cap n lines)
unfolding cap
cap-All P n lines all = elim (Bool-cases (ltb 0 n && ltb n (length lines))) [
  | inl more ↦ rw more (All-drop P (length lines - n) lines all)
  | inr fits ↦ rw fits all
]

length-cap : (n : ℕ) (lines : List Bytes) → (n ≡ 0) ⊎ (length (cap n lines) ≤ n)
unfolding cap
length-cap n lines = elim (Bool-cases (ltb 0 n && ltb n (length lines))) [
  | inl more ↦ inr (rw more (grind (arith, length-drop (length lines - n) lines)))
  | inr fits ↦ rw fits (ground arith)
]

not_nil : (s : Bytes) → s ≢ [] → is_nil s ≡ false
not_nil [] h = absurd (h refl)
not_nil (b ∷ s) h = refl

-- On any buffer and for any filters, a query on behalf of a user shows at most as many lines as its
-- cap, if it has one, and only two kinds of lines: those in whose text user=<id> stands somewhere
-- with exactly that id, ended by white space or the end of the line, and, if the query includes
-- the system's lines, those in whose text user= does not stand at all.
pub query-Shown :
    (lib : TextFunctions) (b : Buffer) (p : QueryParams)
    → p.user_id ≢ []
    → All (Shown p) (query lib b p) × ((p.max_lines ≡ 0) ⊎ (length (query lib b p) ≤ p.max_lines))
unfolding query
query-Shown lib b p named =
    let lower = lib.to_lower p.contains in
    let texts = map (λ e. e.text) b.lines in
    let test : Bytes → Bool = λ line. matches_entry lib line p lower in
    (
      cap-All (Shown p) p.max_lines (keep test texts) (
          matching-Shown lib p lower (keep test texts) (not_nil p.user_id named)
            (keep-All test texts)),
      length-cap p.max_lines (keep test texts),
    )
