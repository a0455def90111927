-- ===== src/Ephemeral/Spared.antt =====
-- internal/router/ephemeral.go: a pass of `cleanupOnce` leaves the channels alone that are in use.
use tclaw.Base.{
  ◌≡◌, ◌⊎◌, inl, inr, refl, ◌∙◌, String, Bool, true, false, ◌&&◌, Option, none, some, List, [], ◌∷◌,
  Dict, lookup, remove, All, if◌then◌else◌, ok, ◌==◌, Bool-cases,
}
use tclaw.Base.Collections.{Faults}
use tclaw.Config.{Channel, Config}
use tclaw.Config.Writer.{FileFaults, WriteError, remove_channel, read_channels}
use tclaw.Runtime
use tclaw.Runtime.{state_key}
use tclaw.Ephemeral.{
  State, Turn, Setting, Teardown, torn_down, unread, refused, is_idle, tear_down,
  channel_secret_key, remove_bound, cleanup_dev_sessions_for_channel, after_removal, after_teardown,
  clean, clean_each, clean_read, cleanup_once,
}
use tclaw.Ephemeral.Bound.{
  has_channel, sessions_of, remove_channel-others, delete-others, secret-others,
  delete_sessions_by_channel-others,
}

-- What belongs to the channel `n` of the user is as it was.
pub record Untouched (id n : String) (before after : State) : Type 0 where
  pub has : has_channel id n after.config.users ≡ has_channel id n before.config.users
  pub runtime : lookup (state_key n) after.runtime ≡ lookup (state_key n) before.runtime
  pub secret :
      lookup (channel_secret_key n) after.secrets ≡ lookup (channel_secret_key n) before.secrets
  pub sessions : sessions_of n after.sessions ≡ sessions_of n before.sessions

-- The channel is not ephemeral, or has not been idle for long enough.
abbrev pub InUse : Setting → (Channel → Turn) → Channel → Type 0
InUse s turns ch = (ch.ephemeral && is_idle s (turns ch) ch) ≡ false

module _ (id n : String) where
  Untouched-refl : (st : State) → Untouched id n st st
  Untouched-refl st = record { has = refl; runtime = refl; secret = refl; sessions = refl }

  Untouched-trans : (a b c : State) → Untouched id n a b → Untouched id n b c → Untouched id n a c
  Untouched-trans a b c x y = record {
    has = y.has ∙ x.has;
    runtime = y.runtime ∙ x.runtime;
    secret = y.secret ∙ x.secret;
    sessions = y.sessions ∙ x.sessions;
  }

  module _ (e : Turn) (ch : Channel) (other : (n == ch.name) ≡ false) where
    cleanup_dev_sessions-Untouched :
        (dev : Option Faults) (st : State)
        → Untouched id n st (cleanup_dev_sessions_for_channel dev ch.name st)
    unfolding cleanup_dev_sessions_for_channel
    cleanup_dev_sessions-Untouched none st = Untouched-refl st
    cleanup_dev_sessions-Untouched (some f) st = elim (Bool-cases (ch.name == "")) [
      | inl unnamed ↦ rw unnamed (Untouched-refl st)
      | inr named ↦ rw named (record {
        has = refl;
        runtime = refl;
        secret = refl;
        sessions = delete_sessions_by_channel-others f st.sessions ch.name n other;
      })
    ]

    secret_removed-others :
        (secrets : Dict String) (b : Bool)
        → lookup
            (channel_secret_key n)
            (if b then remove (channel_secret_key ch.name) secrets else secrets)
          ≡ lookup (channel_secret_key n) secrets
    secret_removed-others secrets true = secret-others secrets ch.name n other
    secret_removed-others secrets false = refl

    remove_bound-Untouched :
        (st : State) (config : Config)
        → has_channel id n config.users ≡ has_channel id n st.config.users
        → Untouched id n st (remove_bound e ch (record st { config = config }))
    unfolding remove_bound
    remove_bound-Untouched st config h =
        let st1 = record st {
          config = config;
          runtime = (Runtime.delete e.runtime_delete st.runtime ch.name).0;
          secrets =
              if e.secret_ok then remove (channel_secret_key ch.name) st.secrets else st.secrets;
        } in
        let u =
          Untouched-trans st st1 (cleanup_dev_sessions_for_channel e.dev_store ch.name st1)
            (record {
              has = h;
              runtime = delete-others e.runtime_delete st.runtime ch.name n other;
              secret = secret_removed-others st.secrets e.secret_ok;
              sessions = refl;
            })
            (cleanup_dev_sessions-Untouched e.dev_store st1) in
        record { has = u.has; runtime = u.runtime; secret = u.secret; sessions = u.sessions }

    after_removal-Untouched :
        (st : State) (r : Config × Option WriteError)
        → has_channel id n r.0.users ≡ has_channel id n st.config.users
        → Untouched id n st (after_removal e ch st r)
    after_removal-Untouched st (config, some x) h = Untouched-refl st
    after_removal-Untouched st (config, none) h = remove_bound-Untouched st config h

    after_teardown-Untouched :
        (s : Setting) (st : State) (t : Teardown)
        → s.user_id ≡ id
        → Untouched id n st (after_teardown s e ch st t)
    after_teardown-Untouched s st unread same = Untouched-refl st
    after_teardown-Untouched s st (refused x) same = record {
      has = refl;
      runtime = refl;
      secret = refl;
      sessions = refl;
    }
    after_teardown-Untouched s st torn_down same = rw same (
        after_removal-Untouched st (remove_channel e.file st.config id ch.name)
          (remove_channel-others e.file st.config id ch.name n other))

    clean-Untouched :
        (s : Setting) (st : State) → s.user_id ≡ id → Untouched id n st (clean s e ch st)
    unfolding clean
    clean-Untouched s st same = elim (Bool-cases (ch.ephemeral && is_idle s e ch)) [
      | inl idle ↦ rw idle (after_teardown-Untouched s st (tear_down s e st ch) same)
      | inr used ↦ rw used (Untouched-refl st)
    ]

  clean_of_used :
      (s : Setting) (e : Turn) (ch : Channel) (st : State)
      → (ch.ephemeral && is_idle s e ch) ≡ false
      → clean s e ch st ≡ st
  unfolding clean
  clean_of_used s e ch st used = rw used refl

  clean_each-Untouched :
      (s : Setting) (turns : Channel → Turn) (channels : List Channel) (st : State)
      → s.user_id ≡ id
      → All (λ ch. ((n == ch.name) ≡ false) ⊎ InUse s turns ch) channels
      → Untouched id n st (clean_each s turns channels st)
  unfolding clean_each
  clean_each-Untouched s turns [] st same h = Untouched-refl st
  clean_each-Untouched s turns (ch ∷ channels) st same (inr used, h) =
      rw (clean_of_used s (turns ch) ch st used) (clean_each-Untouched s turns channels st same h)
  clean_each-Untouched s turns (ch ∷ channels) st same (inl other, h) =
      let st' = clean s (turns ch) ch st in
      Untouched-trans st st' (clean_each s turns channels st')
        (clean-Untouched (turns ch) ch other s st same)
        (clean_each-Untouched s turns channels st' same h)

-- A pass of the clean-up leaves a channel alone, with its runtime state, its secret and its dev
-- sessions, if no channel that it reads has that name, is ephemeral and has been idle for longer
-- than its timeout; whatever else it removes, and whatever fails in between.
pub cleanup_once-Spares :
    (s : Setting) (f : FileFaults) (turns : Channel → Turn) (n : String) (st : State)
    (channels : List Channel)
    → read_channels f st.config s.user_id ≡ ok channels
    → All (λ ch. ((n == ch.name) ≡ false) ⊎ InUse s turns ch) channels
    → Untouched s.user_id n st (cleanup_once s f turns st)
unfolding cleanup_once
cleanup_once-Spares s f turns n st channels read h =
    let st' = record st { cleaned = false } in
    let u = clean_each-Untouched s.user_id n s turns channels st' refl h in
    rw (read, clean_read)
      (record { has = u.has; runtime = u.runtime; secret = u.secret; sessions = u.sessions })
