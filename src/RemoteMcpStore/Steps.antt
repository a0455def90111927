-- ===== src/RemoteMcpStore/Steps.antt =====
-- internal/remotemcpstore/remotemcpstore.go: the operations as steps, and the names they keep unique.
use tclaw.Base.{
  ℕ, ◌≡◌, refl, ◌∙◌, sym, subst, String, not, Option, none, some, List, [], ◌∷◌, ◌++◌, Result, ok,
  err, any, keep, arith, Bool-cases, inl, inr, remove,
}
use tclaw.RemoteMcpStore.{RemoteMcp, RemoteMcpAuth, AddParams, Manager, Faults, Error}
use tclaw.RemoteMcpStore.Operations.{
  load, save, is_named, entry_of, added, add_to, add_remote_mcp, update_first, saved_update,
  update_in, update, set_tool_names, set_instructions, set_channels, is_nil, prune, prune_in,
  pruned_saved, remove_channel_from_all, remove_in, remove_remote_mcp, set_remote_mcp_auth,
  auth_key,
}
use tclaw.RemoteMcpStore.Names.{
  names, Unrepeated, NamesUnique, KeepsName, listed-names, names-append, Unrepeated-append,
  Unrepeated-keep, update_first-names, prune-names, loaded-stored, save-NamesUnique,
}

pub data Call : Type 0 where
  adds : AddParams → ℕ → Call
  sets_tool_names : String → List String → Call
  sets_instructions : String → String → Call
  sets_channels : String → List String → Call
  prunes : String → Call
  removes : String → Call
  sets_auth : String → RemoteMcpAuth → Call

unfoldable pub step : Faults → Manager → Call → Manager
step f m (adds p now) = (add_remote_mcp f m p now).0
step f m (sets_tool_names name tools) = (set_tool_names f m name tools).0
step f m (sets_instructions name text) = (set_instructions f m name text).0
step f m (sets_channels name channels) = (set_channels f m name channels).0
step f m (prunes channel) = (remove_channel_from_all f m channel).0
step f m (removes name) = (remove_remote_mcp f m name).0
step f m (sets_auth name auth) = (set_remote_mcp_auth f m name auth).0

module _ (f : Faults) (m : Manager) (unique : NamesUnique m) where
  add-NamesUnique :
      (p : AddParams) (now : ℕ) (r : Result Error (List RemoteMcp))
      → load f m ≡ r
      → NamesUnique (add_to f m p now r).0
  add-NamesUnique p now (err e) reads = unique
  add-NamesUnique p now (ok mcps) reads = elim (Bool-cases (any (is_named p.name) mcps)) [
    | inl taken ↦ rw taken unique
    | inr free ↦
        let unique' = subst (λ l. Unrepeated (names l)) (loaded-stored f m mcps reads) unique in
        let extended =
          subst Unrepeated (sym (names-append mcps (entry_of p now)))
            (Unrepeated-append (names mcps) p.name unique' (listed-names p.name mcps ∙ free)) in
        rw free (
          of_added (save f m (mcps ++ (entry_of p now ∷ [])))
            (save-NamesUnique f m (mcps ++ (entry_of p now ∷ [])) unique extended))
  ]
    where
      of_added :
          (s : Manager × Option Error) → NamesUnique s.0 → NamesUnique (added (entry_of p now) s).0
      of_added (m', none) u = u
      of_added (m', some e) u = u

  saved_update-NamesUnique :
      (mcps : List RemoteMcp) (name : String) (fn : RemoteMcp → RemoteMcp)
      (o : Option (List RemoteMcp))
      → load f m ≡ ok mcps
      → KeepsName fn
      → update_first fn name mcps ≡ o
      → NamesUnique (saved_update f m o).0
  saved_update-NamesUnique mcps name fn none reads k e = unique
  saved_update-NamesUnique mcps name fn (some after) reads k e = save-NamesUnique f m after unique (
      subst Unrepeated (sym (update_first-names fn name mcps after k e))
        (subst (λ l. Unrepeated (names l)) (loaded-stored f m mcps reads) unique))

  update_in-NamesUnique :
      (name : String) (fn : RemoteMcp → RemoteMcp) (r : Result Error (List RemoteMcp))
      → KeepsName fn
      → load f m ≡ r
      → NamesUnique (update_in f m name fn r).0
  update_in-NamesUnique name fn (err e) k reads = unique
  update_in-NamesUnique name fn (ok mcps) k reads =
      saved_update-NamesUnique mcps name fn (update_first fn name mcps) reads k refl

  update-NamesUnique :
      (name : String) (fn : RemoteMcp → RemoteMcp)
      → KeepsName fn
      → NamesUnique (update f m name fn).0
  unfolding update
  update-NamesUnique name fn k = update_in-NamesUnique name fn (load f m) k refl

  prune_in-NamesUnique :
      (channel : String) (r : Result Error (List RemoteMcp))
      → load f m ≡ r
      → NamesUnique (prune_in f m channel r).0
  prune_in-NamesUnique channel (err e) reads = unique
  prune_in-NamesUnique channel (ok mcps) reads =
      elim (Bool-cases (is_nil (prune channel mcps).1.pruned)) [
        | inl same ↦ rw same unique
        | inr changed ↦ rw changed (
            of_pruned (save f m (prune channel mcps).0) (
              save-NamesUnique f m (prune channel mcps).0 unique (
                subst Unrepeated (sym (prune-names channel mcps))
                  (subst (λ l. Unrepeated (names l)) (loaded-stored f m mcps reads) unique))))
      ]
    where
      of_pruned :
          (s : Manager × Option Error)
          → NamesUnique s.0
          → NamesUnique (pruned_saved (prune channel mcps).1 s).0
      of_pruned (m', none) u = u
      of_pruned (m', some e) u = u

  remove_in-NamesUnique :
      (name : String) (r : Result Error (List RemoteMcp))
      → load f m ≡ r
      → NamesUnique (remove_in f m name r).0
  unfolding save
  remove_in-NamesUnique name (err e) reads = unique
  remove_in-NamesUnique name (ok mcps) reads = elim (Bool-cases (any (is_named name) mcps)) [
    | inr absent ↦ rw absent unique
    | inl there ↦ rw there (elim (Bool-cases f.secret_ok) [
      | inr failed ↦ rw failed unique
      | inl gone ↦ rw gone (
          save-NamesUnique f (record m { secrets = remove (auth_key name) m.secrets })
            (keep (λ mcp. not (is_named name mcp)) mcps) unique
            (Unrepeated-keep (λ mcp. not (is_named name mcp)) mcps
              (subst (λ l. Unrepeated (names l)) (loaded-stored f m mcps reads) unique)))
    ])
  ]

-- A name stays the name of one registration: every operation of the manager, whichever accesses
-- to the stores fail, keeps the names in the store without repetition.
pub step-NamesUnique :
    (f : Faults) (m : Manager) (c : Call) → NamesUnique m → NamesUnique (step f m c)
unfolding step add_remote_mcp set_tool_names set_instructions set_channels remove_channel_from_all
    remove_remote_mcp set_remote_mcp_auth
step-NamesUnique f m (adds p now) u = add-NamesUnique f m u p now (load f m) refl
step-NamesUnique f m (sets_tool_names name tools) u =
    update-NamesUnique f m u name (λ mcp. record mcp { tool_names = tools }) (λ mcp. refl)
step-NamesUnique f m (sets_instructions name text) u =
    update-NamesUnique f m u name (λ mcp. record mcp { instructions = text }) (λ mcp. refl)
step-NamesUnique f m (sets_channels name channels) u =
    update-NamesUnique f m u name (λ mcp. record mcp { channels = channels }) (λ mcp. refl)
step-NamesUnique f m (prunes channel) u = prune_in-NamesUnique f m u channel (load f m) refl
step-NamesUnique f m (removes name) u = remove_in-NamesUnique f m u name (load f m) refl
step-NamesUnique f m (sets_auth name auth) u = ground arith
