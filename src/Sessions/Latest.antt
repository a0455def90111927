-- ===== src/Sessions/Latest.antt =====
-- internal/channel/session_store.go: the session that a changed list of records stands for.
use tclaw.Base.{
  ℕ, ◌≡◌, refl, sym, ap, ◌∙◌, String, Bool, true, false, not, ◌&&◌, Option, none, some, List, [],
  ◌∷◌, ◌++◌, map, if◌then◌else◌, ◌==◌, eq_iff, arith, Bool-cases, Option-cases, inl, inr,
}
use tclaw.Sessions.{SessionRecord, valid_session_id, current_of, clear_latest, or_same, used}

abbrev pub ids : List SessionRecord → List String
ids records = map (λ (r : SessionRecord). r.session_id) records

abbrev is_nil : List SessionRecord → Bool
is_nil [] = true
is_nil (r ∷ records) = false

-- What the register holds after a write.
abbrev pub registered : (String → String) → (sid before : String) → String
registered lower sid before =
    if sid == "" then "" else if valid_session_id lower sid then sid else before

module _ (lower : String → String) where
  current_of-cons :
      (r : SessionRecord) (records : List SessionRecord)
      → is_nil records ≡ false
      → current_of lower (r ∷ records) ≡ current_of lower records
  unfolding current_of
  current_of-cons r [] e = cc
  current_of-cons r (q ∷ records) e = refl

  clear_latest-nonempty :
      (q : SessionRecord) (records rest : List SessionRecord)
      → clear_latest (q ∷ records) ≡ some rest
      → is_nil rest ≡ false
  unfolding clear_latest
  clear_latest-nonempty q records [] e = elim (Option-cases (clear_latest records)) [
    | inl nothing ↦ absurd (ground (arith, e, nothing))
    | inr (later, found) ↦ absurd (ground (arith, e, found))
  ]
  clear_latest-nonempty q records (r ∷ rest) e = refl

  cleared_behind :
      (r : SessionRecord) (records : List SessionRecord) (o : Option (List SessionRecord))
      → is_nil (or_same records o) ≡ false
      → current_of lower (or_same records o) ≡ ""
      → current_of lower (
          or_same (r ∷ records) (elim o [
            | some rest ↦ some (r ∷ rest)
            | none ↦ if r.cleared then none else some (record r { cleared = true } ∷ records)
          ]))
        ≡ ""
  cleared_behind r records (some rest) left e = current_of-cons r rest left ∙ e
  cleared_behind r records none left e = elim (Bool-cases r.cleared) [
    | inl cleared ↦ rw cleared (current_of-cons (record r { cleared = true }) records left ∙ e)
    | inr standing ↦ rw standing (current_of-cons (record r { cleared = true }) records left ∙ e)
  ]

  or_same-nonempty :
      (q : SessionRecord) (records : List SessionRecord)
      → is_nil (or_same (q ∷ records) (clear_latest (q ∷ records))) ≡ false
  or_same-nonempty q records = elim (Option-cases (clear_latest (q ∷ records))) [
    | inl nothing ↦ rw nothing refl
    | inr (rest, found) ↦ rw found (clear_latest-nonempty q records rest found)
  ]

  -- After a reset there is no current session.
  pub clear_latest-current_of :
      (records : List SessionRecord)
      → current_of lower (or_same records (clear_latest records)) ≡ ""
  unfolding clear_latest current_of
  clear_latest-current_of [] = refl
  clear_latest-current_of (r ∷ []) = elim (Bool-cases r.cleared) [
    | inl cleared ↦ rw cleared refl
    | inr standing ↦ rw standing refl
  ]
  clear_latest-current_of (r ∷ q ∷ records) =
      cleared_behind r (q ∷ records) (clear_latest (q ∷ records)) (or_same-nonempty q records)
        (clear_latest-current_of (q ∷ records))

  used-nonempty :
      (now : ℕ) (sid : String) (records : List SessionRecord)
      → is_nil (used now sid records) ≡ false
  unfolding used
  used-nonempty now sid [] = refl
  used-nonempty now sid (r ∷ []) = ground arith
  used-nonempty now sid (r ∷ q ∷ records) = refl

  pub used-current_of :
      (now : ℕ) (sid : String) (records : List SessionRecord)
      → valid_session_id lower sid ≡ true
      → current_of lower (used now sid records) ≡ sid
  unfolding used current_of
  used-current_of now sid [] valid = rw valid refl
  used-current_of now sid (r ∷ []) valid = ground (arith, eq_iff r.session_id sid, valid)
  used-current_of now sid (r ∷ q ∷ records) valid =
      current_of-cons r (used now sid (q ∷ records)) (used-nonempty now sid (q ∷ records))
      ∙ used-current_of now sid (q ∷ records) valid

  pub null-invalid : lower "null" ≡ "null" → valid_session_id lower "null" ≡ false
  unfolding valid_session_id
  null-invalid h = rw h refl

pub ids_of_clear :
    (records : List SessionRecord) → ids (or_same records (clear_latest records)) ≡ ids records
unfolding clear_latest
ids_of_clear [] = refl
ids_of_clear (r ∷ records) = elim (Option-cases (clear_latest records)) [
  | inl nothing ↦ rw nothing (elim (Bool-cases r.cleared) [
    | inl cleared ↦ rw cleared refl
    | inr standing ↦ rw standing refl
  ])
  | inr (later, found) ↦
      rw found (
        ap (◌∷◌ r.session_id)
          (ap (λ o. ids (or_same records o)) (sym found) ∙ ids_of_clear records))
]

pub ids_of_used :
    (now : ℕ) (sid : String) (records : List SessionRecord)
    → (more : List String) × (ids (used now sid records) ≡ ids records ++ more)
unfolding used
ids_of_used now sid [] = (sid ∷ [], refl)
ids_of_used now sid (r ∷ []) = elim (Bool-cases (r.session_id == sid && not r.cleared)) [
  | inl again ↦ rw again ([], refl)
  | inr another ↦ rw another (sid ∷ [], refl)
]
ids_of_used now sid (r ∷ q ∷ records) =
    let rest = ids_of_used now sid (q ∷ records) in (rest.0, ap (◌∷◌ r.session_id) rest.1)
