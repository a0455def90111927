-- ===== src/Sessions/Register.antt =====
-- internal/channel/session_store.go: the current session is a register that `SetCurrent` writes and
-- `Current` reads, over a history that only grows.
use mathlib.Core.List.{append-nil}
use tclaw.Base.{
  ℕ, ◌≡◌, refl, sym, ap, ◌∙◌, String, false, not, ◌&&◌, some, List, [], ◌∷◌, ◌++◌, lookup,
  lookup-insert, eq_refl, if◌then◌else◌, Result, ok, err, ◌==◌, arith, Bool-cases, inl, inr,
}
use tclaw.Base.Collections.{Faults, NoFaults, StoreError}
use tclaw.Sessions.{
  SessionRecord, Store, valid_session_id, encoded, save, load, current_of, current, changed, set_in,
  set_current,
}
use tclaw.Sessions.Current.{
  records_in, current_in, current_in-encoded, insert-current_in, load-current_in, load_ok,
  current_ok,
}
use tclaw.Sessions.Latest.{
  ids, registered, clear_latest-current_of, used-current_of, null-invalid, ids_of_clear,
  ids_of_used,
}

module _ (lower : String → String) (null : lower "null" ≡ "null") where
  set_in-current_in :
      (f : Faults) (now : ℕ) (key sid read : String) (records : List SessionRecord) (s : Store)
      → NoFaults f
      → current_in lower (lookup read (set_in f now key sid (s, ok records)).0) ≡ (
          if key == read
          then current_of lower (changed now sid records)
          else current_in lower (lookup read s))
  unfolding save
  set_in-current_in f now key sid read records s fine = rw fine.2 (
      insert-current_in lower key read (encoded (changed now sid records)) s
      ∙ rw (current_in-encoded lower (changed now sid records) (null-invalid lower null)) refl)

  changed-current_of :
      (now : ℕ) (sid : String) (records : List SessionRecord)
      → (not (sid == "") && not (valid_session_id lower sid)) ≡ false
      → current_of lower (changed now sid records) ≡ (if sid == "" then "" else sid)
  changed-current_of now sid records h = elim (Bool-cases (sid == "")) [
    | inl reset ↦ rw reset (clear_latest-current_of lower records)
    | inr given ↦ rw given (used-current_of lower now sid records (ground (arith, h, given)))
  ]

  set_current-current_in :
      (f : Faults) (now : ℕ) (key sid read : String) (s : Store)
      → NoFaults f
      → current_in lower (lookup read (set_current lower f now key sid s).0) ≡ (
          if key == read
          then registered lower sid (current_in lower (lookup read s))
          else current_in lower (lookup read s))
  unfolding set_current
  set_current-current_in f now key sid read s fine =
      elim (Bool-cases (not (sid == "") && not (valid_session_id lower sid))) [
        | inl malformed ↦ rw malformed (ground (arith, malformed))
        | inr accepted ↦ rw accepted (
            by_load accepted (load lower f now key s) (load_ok lower f now key s fine.0 fine.1)
              (load-current_in lower f now key read s))
      ]
    where
      by_load :
          (not (sid == "") && not (valid_session_id lower sid)) ≡ false
          → (r : Store × Result StoreError (List SessionRecord))
          → r.1 ≡ ok (records_in lower now (lookup key s))
          → current_in lower (lookup read r.0) ≡ current_in lower (lookup read s)
          → current_in lower (lookup read (set_in f now key sid r).0) ≡ (
              if key == read
              then registered lower sid (current_in lower (lookup read s))
              else current_in lower (lookup read s))
      by_load accepted (s', err x) h e = cc
      by_load accepted (s', ok records) h e =
          set_in-current_in f now key sid read records s' fine
          ∙ rw (changed-current_of now sid records accepted) (rw e (ground (arith, accepted)))

  -- The ids of a channel's history.
  abbrev ids_in : ℕ → String → Store → List String
  ids_in now key s = ids (records_in lower now (lookup key s))

  records_in-encoded :
      (now : ℕ) (records : List SessionRecord)
      → records_in lower now (some (encoded records)) ≡ records
  records_in-encoded now [] = rw (null-invalid lower null) refl
  records_in-encoded now (r ∷ records) = refl

  changed-ids :
      (now : ℕ) (sid : String) (records : List SessionRecord)
      → (more : List String) × (ids (changed now sid records) ≡ ids records ++ more)
  changed-ids now sid records = elim (Bool-cases (sid == "")) [
    | inl reset ↦ rw reset ([], ids_of_clear records ∙ sym (append-nil (ids records)))
    | inr given ↦ rw given (ids_of_used now sid records)
  ]

  set_in-ids :
      (f : Faults) (now : ℕ) (key sid : String) (records : List SessionRecord) (s : Store)
      → NoFaults f
      → ids_in now key (set_in f now key sid (s, ok records)).0 ≡ ids (changed now sid records)
  unfolding save
  set_in-ids f now key sid records s fine = rw fine.2 (
      rw (lookup-insert key key (encoded (changed now sid records)) s)
        (rw (eq_refl key) (ap ids (records_in-encoded now (changed now sid records)))))

  -- A channel's history keeps its ids in their order, and new ones follow.
  pub set_current-ids :
      (f : Faults) (now : ℕ) (key sid : String) (s : Store)
      → NoFaults f
      → (more : List String) × (ids_in now key (set_current lower f now key sid s).0
          ≡ ids_in now key s ++ more)
  unfolding set_current
  set_current-ids f now key sid s fine =
      elim (Bool-cases (not (sid == "") && not (valid_session_id lower sid))) [
        | inl malformed ↦ rw malformed ([], sym (append-nil (ids_in now key s)))
        | inr accepted ↦
            rw accepted (by_load (load lower f now key s) (load_ok lower f now key s fine.0 fine.1))
      ]
    where
      by_load :
          (r : Store × Result StoreError (List SessionRecord))
          → r.1 ≡ ok (records_in lower now (lookup key s))
          → (more : List String) × (ids_in now key (set_in f now key sid r).0
              ≡ ids_in now key s ++ more)
      by_load (s', err x) h = cc
      by_load (s', ok records) h =
          let same : records ≡ records_in lower now (lookup key s) = ground arith in
          let (more, e) = changed-ids now sid records in
          (more, set_in-ids f now key sid records s' fine ∙ e ∙ ap (λ rs. ids rs ++ more) same)

-- With stores that can be reached, the sessions are a register for each channel: after a call of
-- `SetCurrent`, `Current` returns for that channel no session if the given id is empty, that id if
-- it is well-formed, and what it returned before if not, and for any other channel what it
-- returned before. Go's lower case of "null" has to be "null".
pub current-set_current :
    (lower : String → String) (f g : Faults) (now later : ℕ) (key sid read : String) (s : Store)
    → lower "null" ≡ "null"
    → NoFaults f
    → NoFaults g
    → (current lower g later read (set_current lower f now key sid s).0).1
      ≡ ok (
          if key == read
          then registered lower sid (current_in lower (lookup read s))
          else current_in lower (lookup read s))
current-set_current lower f g now later key sid read s null fine fine' =
    current_ok lower g later read (set_current lower f now key sid s).0 fine'.0 fine'.1
    ∙ ap ok (set_current-current_in lower null f now key sid read s fine)
