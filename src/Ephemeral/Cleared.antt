-- ===== src/Ephemeral/Cleared.antt =====
-- internal/router/ephemeral.go: what one turn of `cleanupOnce` makes of a channel.
use tclaw.Base.{
  ◌≡◌, ◌≢◌, ◌⊎◌, inl, inr, refl, ◌∙◌, String, true, false, ◌&&◌, Option, none, some, List, [],
  lookup, lookup-remove, ok, ◌==◌, eq_refl, Bool-cases, subst, arith,
}
use tclaw.Base.Collections.{Faults, NoFaults}
use tclaw.Config.{Channel, Config}
use tclaw.Config.Scoping.{Unrepeated, gone-Deleted}
use tclaw.Config.Writer.{WriteError, remove_channel, channels_of}
use tclaw.RemoteMcpStore.{RemoteMcp}
use tclaw.RemoteMcpStore.Operations.{load, remove_channel_from_all}
use tclaw.RemoteMcpStore.Pruning.{Prunes, remove_channel_from_all-Prunes}
use tclaw.Runtime
use tclaw.Runtime.{RuntimeStates, state_key}
use tclaw.Ephemeral.{
  State, Turn, Setting, Teardown, torn_down, unread, refused, is_idle, tear_down,
  channel_secret_key, remove_bound, cleanup_dev_sessions_for_channel, after_removal, after_teardown,
  clean,
}
use tclaw.Ephemeral.Bound.{has_channel, sessions_of}
use tclaw.Ephemeral.Removal.{Removal, remove_channel-Removal, delete_sessions_by_channel-clears}

-- The accesses of a turn that removes a channel succeed, those of the configuration file aside.
pub record Fine (f : Faults) (e : Turn) (ch : Channel) : Type 0 where
  pub dev : e.dev_store ≡ some f
  pub dev_fine : NoFaults f
  pub runtime : e.runtime_delete.write_ok ≡ true
  pub secret : e.secret_ok ≡ true
  pub named : (ch.name == "") ≡ false

-- Nothing is left of the channel in the stores, and no server reaches more than it did.
pub record Gone (id : String) (e : Turn) (ch : Channel) (mcps : List RemoteMcp)
    (before after : State) : Type 0 where
  pub config : Removal id ch.name before.config (after.config, none)
  pub absent : has_channel id ch.name after.config.users ≡ false
  pub runtime : lookup (state_key ch.name) after.runtime ≡ none
  pub secret : lookup (channel_secret_key ch.name) after.secrets ≡ none
  pub sessions : sessions_of ch.name after.sessions ≡ []
  pub servers :
      Prunes before.mcps ch.name mcps
        (after.mcps, (remove_channel_from_all e.mcps before.mcps ch.name).1)
  pub signalled : after.cleaned ≡ true

-- Everything but the errors that were logged is as before.
pub record Same (before after : State) : Type 0 where
  pub config : after.config ≡ before.config
  pub runtime : after.runtime ≡ before.runtime
  pub secrets : after.secrets ≡ before.secrets
  pub sessions : after.sessions ≡ before.sessions
  pub mcps : after.mcps ≡ before.mcps
  pub queue : after.queue ≡ before.queue
  pub cleaned : after.cleaned ≡ before.cleaned

Same-refl : (st : State) → Same st st
Same-refl st = record {
  config = refl;
  runtime = refl;
  secrets = refl;
  sessions = refl;
  mcps = refl;
  queue = refl;
  cleaned = refl;
}

Removal-absent :
    (id name : String) (before after : Config) (channels : List Channel)
    → channels_of id before.users ≡ ok channels
    → Unrepeated channels
    → Removal id name before (after, none)
    → has_channel id name after.users ≡ false
Removal-absent id name before after channels is once (channels', rest, is', left, gone) =
    let same : channels ≡ channels' = ground arith in
    rw left (gone-Deleted name gone (subst Unrepeated same once))

module _ (f : Faults) (id : String) (e : Turn) (ch : Channel) (mcps : List RemoteMcp)
    (channels : List Channel) (fine : Fine f e ch) (once : Unrepeated channels) where
  remove_bound-Gone :
      (st : State) (config : Config)
      → load e.mcps st.mcps ≡ ok mcps
      → channels_of id st.config.users ≡ ok channels
      → Removal id ch.name st.config (config, none)
      → Gone id e ch mcps st (remove_bound e ch (record st { config = config }))
  unfolding remove_bound cleanup_dev_sessions_for_channel Runtime.delete
  remove_bound-Gone st config reads is gone = rw fine.dev (
      rw fine.named (
        rw fine.runtime (
          rw fine.secret (record {
            config = gone;
            absent = Removal-absent id ch.name st.config config channels is once gone;
            runtime =
                lookup-remove (state_key ch.name) (state_key ch.name) st.runtime
                ∙ rw (eq_refl (state_key ch.name)) refl;
            secret =
                lookup-remove (channel_secret_key ch.name) (channel_secret_key ch.name) st.secrets
                ∙ rw (eq_refl (channel_secret_key ch.name)) refl;
            sessions =
                delete_sessions_by_channel-clears f st.sessions ch.name fine.dev_fine fine.named;
            servers = remove_channel_from_all-Prunes e.mcps st.mcps ch.name mcps reads;
            signalled = refl;
          }))))

  after_removal-Outcome :
      (st : State) (r : Config × Option WriteError)
      → load e.mcps st.mcps ≡ ok mcps
      → channels_of id st.config.users ≡ ok channels
      → Removal id ch.name st.config r
      → (Same st (after_removal e ch st r) × ((x : WriteError) × (r.1 ≡ some x)))
        ⊎ Gone id e ch mcps st (after_removal e ch st r)
  after_removal-Outcome st (config, some x) reads is h = inl (Same-refl st, (x, refl))
  after_removal-Outcome st (config, none) reads is h = inr (remove_bound-Gone st config reads is h)

-- The channel is in use, or its platform is not torn down, or the configuration cannot be changed.
abbrev pub Excused : Setting → Turn → Channel → State → Teardown → Type 0
Excused s e ch st t =
    ((ch.ephemeral && is_idle s e ch) ≡ false)
    ⊎ ((t ≢ torn_down)
        ⊎ ((x : WriteError) × ((remove_channel e.file st.config s.user_id ch.name).1 ≡ some x)))

-- A turn of the clean-up for a channel with a name, in which the stores can be reached, at a
-- configuration in which no two channels of the user share a name, removes the channel, unless it is
-- not ephemeral, or has not been idle for longer than its timeout, or its platform was not torn
-- down, or the configuration could not be changed; then the turn changes nothing but the errors that
-- it has logged. A removed channel was ephemeral and idle, and its platform was torn down or had
-- nothing to tear down; the user has no channel of that name any more, and no link points at it; its
-- runtime state, its secret and its dev sessions are gone, no remote MCP server reaches more
-- channels than before, and a change is signalled.
pub clean-Clears :
    (s : Setting) (f : Faults) (e : Turn) (ch : Channel) (mcps : List RemoteMcp) (st : State)
    (channels : List Channel)
    → Fine f e ch
    → load e.mcps st.mcps ≡ ok mcps
    → channels_of s.user_id st.config.users ≡ ok channels
    → Unrepeated channels
    → (Same st (clean s e ch st) × Excused s e ch st (tear_down s e st ch))
      ⊎ (((ch.ephemeral && is_idle s e ch) ≡ true)
          × (tear_down s e st ch ≡ torn_down)
          × Gone s.user_id e ch mcps st (clean s e ch st))
unfolding clean
clean-Clears s f e ch mcps st channels fine reads is once =
    elim (Bool-cases (ch.ephemeral && is_idle s e ch)) [
      | inr used ↦ rw used (inl (Same-refl st, inl refl))
      | inl idle ↦ rw idle (by_teardown (tear_down s e st ch))
    ]
  where
    by_teardown :
        (t : Teardown)
        → (Same st (after_teardown s e ch st t)
            × ((true ≡ false)
                ⊎ ((t ≢ torn_down)
                    ⊎ ((x : WriteError) × ((remove_channel e.file st.config s.user_id ch.name).1
                          ≡ some x)))))
          ⊎ ((true ≡ true)
              × (t ≡ torn_down)
              × Gone s.user_id e ch mcps st (after_teardown s e ch st t))
    by_teardown unread = inl (Same-refl st, inr (inl (λ q. cc)))
    by_teardown (refused x) = inl (
      record {
        config = refl;
        runtime = refl;
        secrets = refl;
        sessions = refl;
        mcps = refl;
        queue = refl;
        cleaned = refl;
      },
      inr (inl (λ q. cc)),
    )
    by_teardown torn_down =
        elim (after_removal-Outcome f s.user_id e ch mcps channels fine once st
          (remove_channel e.file st.config s.user_id ch.name) reads is
          (remove_channel-Removal e.file st.config s.user_id ch.name)) [
            | inl same ↦ inl (same.0, inr (inr same.1))
            | inr gone ↦ inr (refl, refl, gone)
          ]
