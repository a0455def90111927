-- ===== src/Sessions/Current.antt =====
-- internal/channel/session_store.go: the current session that an entry of the store stands for.
use tclaw.Base.{
  ℕ, ◌≡◌, refl, sym, ap, ◌∙◌, String, Bool, true, false, Option, none, some, List, [], ◌∷◌, lookup,
  insert, lookup-insert, if◌then◌else◌, Result, ok, err, ◌==◌, eq_iff, arith, Bool-cases, inl, inr,
  subst,
}
use tclaw.Base.Collections.{Faults, StoreError}
use tclaw.Sessions.{
  SessionRecord, Entry, history, legacy, Store, valid_session_id, encoded, save, fresh, loaded,
  load, current_of, if_loaded, current,
}

module _ (lower : String → String) where
  -- The records that an entry stands for at a time.
  abbrev pub records_in : ℕ → Option Entry → List SessionRecord
  records_in now none = []
  records_in now (some (history records)) = records
  records_in now (some (legacy sid)) = if valid_session_id lower sid then fresh now sid ∷ [] else []

  abbrev pub current_in : Option Entry → String
  current_in e = current_of lower (records_in 0 e)

  pub current_in-records :
      (now : ℕ) (e : Option Entry) → current_of lower (records_in now e) ≡ current_in e
  unfolding current_of
  current_in-records now none = refl
  current_in-records now (some (history records)) = refl
  current_in-records now (some (legacy sid)) = elim (Bool-cases (valid_session_id lower sid)) [
    | inl valid ↦ rw valid refl
    | inr invalid ↦ rw invalid refl
  ]

  -- What a list of records is saved as stands for the same session.
  pub current_in-encoded :
      (records : List SessionRecord)
      → valid_session_id lower "null" ≡ false
      → current_in (some (encoded records)) ≡ current_of lower records
  unfolding current_of
  current_in-encoded [] h = rw h refl
  current_in-encoded (r ∷ records) h = refl

  current_of-fresh :
      (now : ℕ) (sid : String)
      → valid_session_id lower sid ≡ true
      → current_of lower (fresh now sid ∷ []) ≡ sid
  unfolding current_of
  current_of-fresh now sid valid = rw valid refl

  pub insert-current_in :
      (key read : String) (e : Entry) (s : Store)
      → current_in (lookup read (insert key e s))
        ≡ (if key == read then current_in (some e) else current_in (lookup read s))
  insert-current_in key read e s =
      ap (λ o. current_in o) (lookup-insert key read e s) ∙ pushed (key == read)
    where
      pushed :
          (b : Bool)
          → current_in (if b then some e else lookup read s)
            ≡ (if b then current_in (some e) else current_in (lookup read s))
      pushed true = refl
      pushed false = refl

  -- Loading changes no channel's current session, although it may migrate one.
  migrated-current_in :
      (now : ℕ) (key read sid : String) (s : Store)
      → lookup key s ≡ some (legacy sid)
      → valid_session_id lower sid ≡ true
      → current_in (lookup read (insert key (history (fresh now sid ∷ [])) s))
        ≡ current_in (lookup read s)
  migrated-current_in now key read sid s h valid =
      insert-current_in key read (history (fresh now sid ∷ [])) s
      ∙ elim (Bool-cases (key == read)) [
        | inr other ↦ rw other refl
        | inl same ↦
            let there : lookup read s ≡ some (legacy sid) =
              subst (λ k. lookup k s ≡ some (legacy sid)) ((eq_iff key read).0 same) h in
            rw same (
              rw there
                (rw valid (current_of-fresh now sid valid ∙ sym (current_of-fresh 0 sid valid))))
      ]

  loaded-current_in :
      (f : Faults) (now : ℕ) (key read : String) (s : Store) (e : Option Entry)
      → lookup key s ≡ e
      → current_in (lookup read (loaded lower f now key s e).0) ≡ current_in (lookup read s)
  unfolding save
  loaded-current_in f now key read s none h = refl
  loaded-current_in f now key read s (some (history records)) h = refl
  loaded-current_in f now key read s (some (legacy sid)) h =
      elim (Bool-cases (valid_session_id lower sid)) [
        | inr invalid ↦ rw invalid refl
        | inl valid ↦ elim (Bool-cases f.write_ok) [
          | inr unwritten ↦ rw valid (rw unwritten refl)
          | inl written ↦ rw valid (rw written (migrated-current_in now key read sid s h valid))
        ]
      ]

  pub load-current_in :
      (f : Faults) (now : ℕ) (key read : String) (s : Store)
      → current_in (lookup read (load lower f now key s).0) ≡ current_in (lookup read s)
  unfolding load save
  load-current_in f now key read s = elim (Bool-cases f.read_ok) [
    | inr no_read ↦ rw no_read refl
    | inl reads ↦ rw reads (loaded-current_in f now key read s (lookup key s) refl)
  ]

  -- A load that succeeds returns what the entry stands for.
  pub load_ok :
      (f : Faults) (now : ℕ) (key : String) (s : Store)
      → f.read_ok ≡ true
      → f.parse_ok ≡ true
      → (load lower f now key s).1 ≡ ok (records_in now (lookup key s))
  unfolding load save
  load_ok f now key s reads parses = rw (reads, if◌then◌else◌) (by_entry (lookup key s))
    where
      by_entry : (e : Option Entry) → (loaded lower f now key s e).1 ≡ ok (records_in now e)
      by_entry none = refl
      by_entry (some (history records)) = rw parses refl
      by_entry (some (legacy sid)) = elim (Bool-cases (valid_session_id lower sid)) [
        | inl valid ↦ rw valid refl
        | inr invalid ↦ rw invalid refl
      ]

  pub current_ok :
      (f : Faults) (now : ℕ) (key : String) (s : Store)
      → f.read_ok ≡ true
      → f.parse_ok ≡ true
      → (current lower f now key s).1 ≡ ok (current_in (lookup key s))
  unfolding current
  current_ok f now key s reads parses =
      by_load (load lower f now key s) (load_ok f now key s reads parses)
    where
      by_load :
          (r : Store × Result StoreError (List SessionRecord))
          → r.1 ≡ ok (records_in now (lookup key s))
          → (if_loaded (current_of lower) r).1 ≡ ok (current_in (lookup key s))
      by_load (s', err e) h = cc
      by_load (s', ok records) h =
          let same : records ≡ records_in now (lookup key s) = ground arith in
          ap ok (ap (current_of lower) same ∙ current_in-records now (lookup key s))

  -- Records that a load returns stand for the channel's current session.
  pub load-current_of :
      (f : Faults) (now : ℕ) (key : String) (s : Store) (records : List SessionRecord)
      → (load lower f now key s).1 ≡ ok records
      → current_of lower records ≡ current_in (lookup key s)
  unfolding load save
  load-current_of f now key s records h = elim (Bool-cases f.read_ok) [
    | inr no_read ↦ absurd (ground (arith, no_read, h))
    | inl reads ↦
        ap (current_of lower) (by_entry (lookup key s) (rw (reads, if◌then◌else◌) at h))
        ∙ current_in-records now (lookup key s)
  ]
    where
      by_entry :
          (e : Option Entry)
          → (loaded lower f now key s e).1 ≡ ok records
          → records ≡ records_in now e
      by_entry none h = ground arith
      by_entry (some (history stored)) h = ground (arith, h)
      by_entry (some (legacy sid)) h = elim (Bool-cases (valid_session_id lower sid)) [
        | inl valid ↦ ground (arith, h, valid)
        | inr invalid ↦ ground (arith, h, invalid)
      ]
