-- ===== src/RemoteMcpStore/Pruning.antt =====
-- internal/remotemcpstore/remotemcpstore.go: `RemoveChannelFromAll` and the channels that a server's
-- tools reach. An empty list reaches every channel.
use tclaw.Base.{
  ◌≡◌, refl, ap, ◌∙◌, sym, subst, String, Bool, true, false, not, List, [], ◌∷◌, eqb, if◌then◌else◌,
  Result, ok, err, length, length-keep-le, any, ◌==◌, eq_iff, arith, Bool-cases, inl, inr,
}
use tclaw.RemoteMcpStore.{RemoteMcp, Manager, Faults, Error, PruneChannelResult}
use tclaw.RemoteMcpStore.Operations.{
  load, save, remaining, is_nil, prune, prune_in, pruned_saved, remove_channel_from_all, decoded,
}

abbrev pub listed : String → List String → Bool
listed c channels = any (λ x. x == c) channels

-- The channels that a server's tools reach.
abbrev pub reached : String → List String → Bool
reached c [] = true
reached c (x ∷ xs) = listed c (x ∷ xs)

abbrev pub reaches : RemoteMcp → String → Bool
reaches mcp c = reached c mcp.channels

-- A registration after the deletion of a channel, against before.
pub record Narrowed (channel : String) (before after : RemoteMcp) : Type 0 where
  pub same_name : after.name ≡ before.name
  pub others : (c : String) → (c == channel) ≡ false → reaches after c ≡ reaches before c
  pub no_wider : reaches after channel ≡ true → reaches before channel ≡ true
  pub untouched :
      reaches after channel ≡ true → (after ≡ before) × (remaining channel before.channels ≡ [])

abbrev pub Pairwise : (RemoteMcp → RemoteMcp → Type 0) → List RemoteMcp → List RemoteMcp → Type 0
Pairwise R [] [] = Unit
Pairwise R [] (y ∷ ys) = ⊥
Pairwise R (x ∷ xs) [] = ⊥
Pairwise R (x ∷ xs) (y ∷ ys) = R x y × Pairwise R xs ys

listed-remaining :
    (c channel : String) (channels : List String)
    → listed c (remaining channel channels) ≡ (if c == channel then false else listed c channels)
listed-remaining c channel [] = ground arith
listed-remaining c channel (x ∷ xs) =
    ground (arith, listed-remaining c channel xs, eq_iff x channel, eq_iff x c, eq_iff c channel)

all_remain :
    (channel : String) (channels : List String)
    → length (remaining channel channels) ≡ length channels
    → listed channel channels ≡ false
all_remain channel [] e = refl
all_remain channel (x ∷ xs) e =
    ground (arith, all_remain channel xs, length-keep-le (λ c. not (c == channel)) xs)

untouched-Narrowed :
    (channel : String) (mcp : RemoteMcp)
    → (reaches mcp channel ≡ true → remaining channel mcp.channels ≡ [])
    → Narrowed channel mcp mcp
untouched-Narrowed channel mcp h = record {
  same_name = refl;
  others = λ c e. refl;
  no_wider = λ e. e;
  untouched = λ e. (refl, h e);
}

reached_of_all :
    (channel : String) (channels : List String)
    → listed channel channels ≡ false
    → reached channel channels ≡ true
    → remaining channel channels ≡ []
reached_of_all channel [] unlisted all = refl
reached_of_all channel (x ∷ xs) unlisted all = ground arith

module _ (channel : String) where
  reached_of_some :
      (stay channels : List String)
      → stay ≡ remaining channel channels
      → is_nil stay ≡ false
      → ((c : String) → (c == channel) ≡ false → reached c stay ≡ reached c channels)
        × (reached channel stay ≡ false)
  reached_of_some [] channels e n = cc
  reached_of_some (s ∷ stay) [] e n = cc
  reached_of_some (s ∷ stay) (x ∷ xs) e n = (
    λ c differs. ap (listed c) e ∙ listed-remaining c channel (x ∷ xs) ∙ rw differs refl,
    ap (listed channel) e
        ∙ listed-remaining channel channel (x ∷ xs)
        ∙ ground (arith, eq_iff channel channel),
  )

  pruned_mcp-Narrowed :
      (mcp : RemoteMcp)
      → is_nil (remaining channel mcp.channels) ≡ false
      → Narrowed channel mcp (record mcp { channels = remaining channel mcp.channels })
  pruned_mcp-Narrowed mcp n =
      let (others, gone) = reached_of_some (remaining channel mcp.channels) mcp.channels refl n in
      record {
        same_name = refl;
        others = others;
        no_wider = λ e. absurd (ground arith);
        untouched = λ e. absurd (ground arith);
      }

  prune-Narrowed : (mcps : List RemoteMcp) → Pairwise (Narrowed channel) mcps (prune channel mcps).0
  unfolding prune
  prune-Narrowed [] = tt
  prune-Narrowed (mcp ∷ mcps) =
      let ih = prune-Narrowed mcps in
      let stay = remaining channel mcp.channels in
      elim (Bool-cases (eqb (length stay) (length mcp.channels))) [
        | inl same ↦ rw same (
          untouched-Narrowed channel mcp (
              reached_of_all channel mcp.channels (all_remain channel mcp.channels (ground arith))),
          ih,
        )
        | inr fewer ↦ rw fewer (elim (Bool-cases (is_nil stay)) [
          | inl empty ↦ rw empty (untouched-Narrowed channel mcp (λ e. ground arith), ih)
          | inr some_left ↦ rw some_left (pruned_mcp-Narrowed mcp some_left, ih)
        ])
      ]

  prune-unchanged :
      (mcps : List RemoteMcp)
      → is_nil (prune channel mcps).1.pruned ≡ true
      → (prune channel mcps).0 ≡ mcps
  unfolding prune
  prune-unchanged [] e = refl
  prune-unchanged (mcp ∷ mcps) e =
      let stay = remaining channel mcp.channels in
      elim (Bool-cases (eqb (length stay) (length mcp.channels))) [
        | inl same ↦ rw same (ap (◌∷◌ mcp) (prune-unchanged mcps (rw (same, prune) at e)))
        | inr fewer ↦ elim (Bool-cases (is_nil stay)) [
          | inl empty ↦
              rw fewer
                (rw empty (ap (◌∷◌ mcp) (prune-unchanged mcps (ground (arith, fewer, empty, e)))))
          | inr some_left ↦ absurd (ground (arith, fewer, some_left, e))
        ]
      ]

-- What a store holds, when it can be read.
abbrev pub held : Manager → Result Error (List RemoteMcp)
held m = decoded true m.store

held_of_load :
    (f : Faults) (m : Manager) (mcps : List RemoteMcp) → load f m ≡ ok mcps → held m ≡ ok mcps
unfolding load
held_of_load f m mcps e = ground (arith, e)

-- What the deletion of a channel does to the registrations.
abbrev pub Prunes :
    Manager → String → List RemoteMcp → Manager × Result Error PruneChannelResult → Type 0
Prunes m channel mcps (m', ok result) =
    (after : List RemoteMcp) × (held m' ≡ ok after) × Pairwise (Narrowed channel) mcps after
Prunes m channel mcps (m', err e) = m' ≡ m

pruned_saved-Prunes :
    (f : Faults) (m : Manager) (channel : String) (mcps : List RemoteMcp)
    → Prunes m channel mcps (pruned_saved (prune channel mcps).1 (save f m (prune channel mcps).0))
unfolding save
pruned_saved-Prunes f m channel mcps = elim (Bool-cases f.write_ok) [
  | inl written ↦ rw written ((prune channel mcps).0, refl, prune-Narrowed channel mcps)
  | inr failed ↦ rw failed refl
]

-- Deleting a channel never widens what a server reaches: if the registrations can be read, then
-- either the call fails and the stores are as they were, or the same registrations are there, in
-- the same order under the same names, each of them reaching every other channel exactly as
-- before, and the deleted one only if it did before; and a registration that still reaches it
-- is untouched, because it names no channel at all or no other channel.
pub remove_channel_from_all-Prunes :
    (f : Faults) (m : Manager) (channel : String) (mcps : List RemoteMcp)
    → load f m ≡ ok mcps
    → Prunes m channel mcps (remove_channel_from_all f m channel)
unfolding remove_channel_from_all
remove_channel_from_all-Prunes f m channel mcps reads =
    subst (λ l. Prunes m channel mcps (prune_in f m channel l)) (sym reads)
      (elim (Bool-cases (is_nil (prune channel mcps).1.pruned)) [
        | inl same ↦ rw same (
          mcps,
          held_of_load f m mcps reads,
          subst (Pairwise (Narrowed channel) mcps) (prune-unchanged channel mcps same)
              (prune-Narrowed channel mcps),
        )
        | inr changed ↦ rw changed (pruned_saved-Prunes f m channel mcps)
      ])
