-- ===== src/Ephemeral/Bound.antt =====
-- internal/router/ephemeral.go: what the stores hold of one channel, and what the removal of a channel
-- does to each of them.
use text.Mathlib.TextLemmas.{append_cancel_left, append_cancel_right}
use tclaw.Base.{
  ◌≡◌, refl, ap, ◌∙◌, String, str_append, Bool, false, not, List, [], ◌∷◌, keep, Dict, lookup,
  remove, lookup-remove, Result, ok, err, ◌==◌, eq_iff, arith, Bool-cases, inl, inr, Result-cases,
}
use tclaw.Base.Collections.{Faults, contents, list-contents}
use tclaw.Base.Collections
use tclaw.Config.{Channel, User, Config}
use tclaw.Config.Checks.{listed, names}
use tclaw.Config.Deletion.{removed-Deleted, listed-Deleted}
use tclaw.Config.Writer.{
  FileFaults, WriteError, removed, change_user, channels_of, remove_channel, mutate,
}
use tclaw.DevSessions.{
  Session, Sessions, delete_sessions_by_channel, started_from, is_nil, list_sessions,
}
use tclaw.Runtime
use tclaw.Runtime.{RuntimeState, RuntimeStates, state_key, state_key-differs}
use tclaw.Ephemeral.{channel_secret_key}

abbrev pub listed_in : String → Result WriteError (List Channel) → Bool
listed_in n (ok channels) = listed n (names channels)
listed_in n (err e) = false

-- The user has a channel of that name.
abbrev pub has_channel : (id n : String) → List User → Bool
has_channel id n users = listed_in n (channels_of id users)

-- The sessions started from a channel.
abbrev pub sessions_of : String → Sessions → Dict Session
sessions_of n s = keep (started_from n) (contents s)

-- Two keys of different channels are different.
keys-differ :
    (f : String → String)
    → ((a b : String) → f a ≡ f b → a ≡ b)
    → (a b : String) → (a == b) ≡ false
    → (f a == f b) ≡ false
keys-differ f injective a b e = ground (arith, eq_iff a b, eq_iff (f a) (f b), injective a b)

secret_key-differs :
    (a b : String) → (a == b) ≡ false → (channel_secret_key a == channel_secret_key b) ≡ false
unfolding channel_secret_key
secret_key-differs = keys-differ channel_secret_key (λ a b same.
    append_cancel_left "channel/" a b
      (append_cancel_right (str_append "channel/" a) (str_append "channel/" b) "/token" same))

-- The configuration.
change_user-channels_of :
    (id n name : String) (users users' : List User)
    → (n == name) ≡ false
    → change_user (removed name) id users ≡ ok users'
    → has_channel id n users' ≡ has_channel id n users
unfolding change_user channels_of
change_user-channels_of id n name [] users' other e = cc
change_user-channels_of id n name (u ∷ users) users' other e = elim (Bool-cases (u.id == id)) [
  | inl hit ↦ elim (Result-cases (removed name u.channels)) [
    | inr (x, failed) ↦ absurd (ground arith)
    | inl (rest, gone) ↦
        let same : users' ≡ record u { channels = rest } ∷ users = ground arith in
        rw same (rw hit (listed-Deleted name n (removed-Deleted name u.channels rest gone) other))
  ]
  | inr miss ↦ elim (Result-cases (change_user (removed name) id users)) [
    | inr (x, failed) ↦ absurd (ground arith)
    | inl (later, done) ↦
        let same : users' ≡ u ∷ later = ground arith in
        rw same (rw miss (change_user-channels_of id n name users later other done))
  ]
]

pub remove_channel-others :
    (f : FileFaults) (cfg : Config) (id name n : String)
    → (n == name) ≡ false
    → has_channel id n (remove_channel f cfg id name).0.users ≡ has_channel id n cfg.users
unfolding remove_channel mutate
remove_channel-others f cfg id name n other = elim (Bool-cases f.read_ok) [
  | inr unread ↦ rw unread refl
  | inl read ↦ elim (Result-cases (change_user (removed name) id cfg.users)) [
    | inr (x, failed) ↦ rw read (rw failed refl)
    | inl (users, done) ↦ elim (Bool-cases f.write_ok) [
      | inr unwritten ↦ rw read (rw done (rw unwritten refl))
      | inl written ↦
          rw read
            (rw done (rw written (change_user-channels_of id n name cfg.users users other done)))
    ]
  ]
]

-- The runtime states.
pub delete-others :
    (f : Faults) (states : RuntimeStates) (name n : String)
    → (n == name) ≡ false
    → lookup (state_key n) (Runtime.delete f states name).0 ≡ lookup (state_key n) states
unfolding Runtime.delete
delete-others f states name n other = elim (Bool-cases f.write_ok) [
  | inr failed ↦ rw failed refl
  | inl written ↦ rw written (
      lookup-remove (state_key name) (state_key n) states
      ∙ rw (state_key-differs name n (ground (arith, eq_iff name n, eq_iff n name))) refl)
]

-- The secrets.
pub secret-others :
    (secrets : Dict String) (name n : String)
    → (n == name) ≡ false
    → lookup (channel_secret_key n) (remove (channel_secret_key name) secrets)
      ≡ lookup (channel_secret_key n) secrets
secret-others secrets name n other =
    lookup-remove (channel_secret_key name) (channel_secret_key n) secrets
    ∙ rw (secret_key-differs name n (ground (arith, eq_iff name n, eq_iff n name))) refl

-- The dev sessions.
keep-others :
    (name n : String) (sessions : Dict Session)
    → (n == name) ≡ false
    → keep (started_from n) (keep (λ e. not (started_from name e)) sessions)
      ≡ keep (started_from n) sessions
keep-others name n [] other = refl
keep-others name n (e ∷ sessions) other = ground (
  arith,
  keep-others name n sessions other,
  eq_iff e.1.created_by_channel n,
  eq_iff e.1.created_by_channel name,
  eq_iff n name,
)

pub delete_sessions_by_channel-others :
    (f : Faults) (s : Sessions) (name n : String)
    → (n == name) ≡ false
    → sessions_of n (delete_sessions_by_channel f s name).0 ≡ sessions_of n s
unfolding delete_sessions_by_channel list_sessions Collections.save
delete_sessions_by_channel-others f s name n other = elim (Bool-cases (name == "")) [
  | inl empty ↦ rw empty refl
  | inr named ↦ elim (Result-cases (Collections.list f s)) [
    | inr (x, unread) ↦ rw named (rw unread refl)
    | inl (sessions, read) ↦ elim (Bool-cases (is_nil (keep (started_from name) sessions))) [
      | inl none_gone ↦ rw named (rw read (rw none_gone refl))
      | inr some_gone ↦ elim (Bool-cases f.write_ok) [
        | inr unwritten ↦ rw named (rw read (rw some_gone (rw unwritten refl)))
        | inl written ↦ rw named (
            rw read (
              rw some_gone (
                rw written (
                  keep-others name n sessions other
                  ∙ ap (keep (started_from n)) (list-contents f s sessions read)))))
      ]
    ]
  ]
]
