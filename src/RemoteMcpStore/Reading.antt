-- ===== src/RemoteMcpStore/Reading.antt =====
-- internal/remotemcpstore/remotemcpstore.go: what is read after a registration was added or removed.
use tclaw.Base.{
  ℕ, ◌≡◌, refl, ap, ◌∙◌, sym, String, true, false, not, Option, none, some, List, [], ◌∷◌, ◌++◌,
  if◌then◌else◌, Result, ok, any, keep, ◌==◌, eq_iff, eq_refl, arith, Bool-cases, inl, inr, lookup,
  remove, lookup-remove,
}
use tclaw.RemoteMcpStore.{RemoteMcp, AddParams, Manager, Faults, Error}
use tclaw.RemoteMcpStore.Operations.{
  load, save, is_named, first_named, found_in, get_remote_mcp, entry_of, add_to, add_remote_mcp,
  remove_in, remove_remote_mcp, get_remote_mcp_auth, auth_key,
}

-- All accesses succeed.
abbrev pub no_faults : Faults
no_faults = record { read_ok = true; parse_ok = true; write_ok = true; secret_ok = true }

first_named-append :
    (name : String) (mcps : List RemoteMcp) (mcp : RemoteMcp)
    → any (is_named mcp.name) mcps ≡ false
    → first_named name (mcps ++ (mcp ∷ []))
      ≡ (if mcp.name == name then some mcp else first_named name mcps)
unfolding first_named
first_named-append name [] mcp free = refl
first_named-append name (x ∷ mcps) mcp free = ground (
  arith,
  first_named-append name mcps mcp,
  eq_iff x.name name,
  eq_iff x.name mcp.name,
  eq_iff mcp.name name,
)

first_named-keep :
    (name gone : String) (mcps : List RemoteMcp)
    → first_named name (keep (λ mcp. not (is_named gone mcp)) mcps)
      ≡ (if gone == name then none else first_named name mcps)
unfolding first_named
first_named-keep name gone [] = ground arith
first_named-keep name gone (x ∷ mcps) = ground (
  arith,
  first_named-keep name gone mcps,
  eq_iff x.name name,
  eq_iff x.name gone,
  eq_iff gone name,
)

add_of_free :
    (m : Manager) (p : AddParams) (now : ℕ) (mcps : List RemoteMcp)
    → load no_faults m ≡ ok mcps
    → any (is_named p.name) mcps ≡ false
    → add_remote_mcp no_faults m p now
      ≡ (record m { store = some (mcps ++ (entry_of p now ∷ [])) }, ok (entry_of p now))
unfolding add_remote_mcp save
add_of_free m p now mcps reads free = ap (add_to no_faults m p now) reads ∙ rw free refl

get_of_load :
    (m : Manager) (mcps : List RemoteMcp) (name : String)
    → load no_faults m ≡ ok mcps
    → get_remote_mcp no_faults m name ≡ ok (first_named name mcps)
unfolding get_remote_mcp
get_of_load m mcps name reads = ap (found_in name) reads

get_of_store :
    (m : Manager) (mcps : List RemoteMcp) (name : String)
    → get_remote_mcp no_faults (record m { store = some mcps }) name ≡ ok (first_named name mcps)
unfolding get_remote_mcp load
get_of_store m mcps name = refl

-- A registration that is added is read back under its name and is the only one that the store
-- gains: when all accesses succeed and the name is not taken, reading the name gives the new
-- registration, and reading any other name gives what it gave before.
pub add_remote_mcp-get :
    (m : Manager) (p : AddParams) (now : ℕ) (mcps : List RemoteMcp) (name : String)
    → load no_faults m ≡ ok mcps
    → any (is_named p.name) mcps ≡ false
    → get_remote_mcp no_faults (add_remote_mcp no_faults m p now).0 name
      ≡ (if p.name == name then ok (some (entry_of p now)) else get_remote_mcp no_faults m name)
add_remote_mcp-get m p now mcps name reads free =
    let entry = entry_of p now in
    let found = first_named-append name mcps entry free in
    ap (λ (s : Manager × Result Error RemoteMcp). get_remote_mcp no_faults s.0 name)
      (add_of_free m p now mcps reads free)
    ∙ get_of_store m (mcps ++ (entry ∷ [])) name
    ∙ (elim (Bool-cases (p.name == name)) [
      | inl hit ↦ rw hit (ap (λ o. ok o) (found ∙ rw hit refl))
      | inr differs ↦
          rw differs
            (ap (λ o. ok o) (found ∙ rw differs refl) ∙ sym (get_of_load m mcps name reads))
    ])

remove_of_named :
    (m : Manager) (gone : String) (mcps : List RemoteMcp)
    → load no_faults m ≡ ok mcps
    → any (is_named gone) mcps ≡ true
    → remove_remote_mcp no_faults m gone ≡ (
      record m {
        secrets = remove (auth_key gone) m.secrets;
        store = some (keep (λ mcp. not (is_named gone mcp)) mcps);
      },
      none,
    )
unfolding remove_remote_mcp save
remove_of_named m gone mcps reads there = ap (remove_in no_faults m gone) reads ∙ rw there refl

auth_of_removed :
    (m : Manager) (gone : String) (stored : List RemoteMcp)
    → get_remote_mcp_auth no_faults
        (record m { secrets = remove (auth_key gone) m.secrets; store = some stored })
        gone
      ≡ ok none
unfolding get_remote_mcp_auth
auth_of_removed m gone stored =
    let cleared : lookup (auth_key gone) (remove (auth_key gone) m.secrets) ≡ none =
      lookup-remove (auth_key gone) (auth_key gone) m.secrets ∙ rw (eq_refl (auth_key gone)) refl in
    rw (cleared, get_remote_mcp_auth) refl

-- A removal leaves nothing behind: when all accesses succeed and the name is registered, the call
-- succeeds, afterwards the name has neither a registration nor credentials, and every other name
-- reads as it did before.
pub remove_remote_mcp-get :
    (m : Manager) (gone : String) (mcps : List RemoteMcp) (name : String)
    → load no_faults m ≡ ok mcps
    → any (is_named gone) mcps ≡ true
    → ((remove_remote_mcp no_faults m gone).1 ≡ none)
      × (get_remote_mcp_auth no_faults (remove_remote_mcp no_faults m gone).0 gone ≡ ok none)
      × (get_remote_mcp no_faults (remove_remote_mcp no_faults m gone).0 name
          ≡ (if gone == name then ok none else get_remote_mcp no_faults m name))
remove_remote_mcp-get m gone mcps name reads there =
    let stored = keep (λ mcp. not (is_named gone mcp)) mcps in
    let removed = remove_of_named m gone mcps reads there in
    let found = first_named-keep name gone mcps in
    (
      ap (λ (s : Manager × Option Error). s.1) removed,
      ap (λ (s : Manager × Option Error). get_remote_mcp_auth no_faults s.0 gone) removed
          ∙ auth_of_removed m gone stored,
      ap (λ (s : Manager × Option Error). get_remote_mcp no_faults s.0 name) removed
          ∙ get_of_store (record m { secrets = remove (auth_key gone) m.secrets }) stored name
          ∙ (elim (Bool-cases (gone == name)) [
            | inl hit ↦ rw hit (ap (λ o. ok o) (found ∙ rw hit refl))
            | inr differs ↦
                rw differs
                  (ap (λ o. ok o) (found ∙ rw differs refl) ∙ sym (get_of_load m mcps name reads))
          ]),
    )
