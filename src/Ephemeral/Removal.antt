-- ===== src/Ephemeral/Removal.antt =====
-- internal/router/ephemeral.go: what is left of a channel in the configuration and among the sessions.
use tclaw.Base.{
  ◌≡◌, inl, inr, refl, String, true, false, not, Option, none, some, List, [], ◌∷◌, keep, Dict, ok,
  ◌==◌, arith, Bool-cases, Result-cases,
}
use tclaw.Base.Collections
use tclaw.Base.Collections.{Faults, NoFaults, contents, list_ok}
use tclaw.Config.{Channel, User, Config}
use tclaw.Config.Deletion.{Deleted, removed-Deleted}
use tclaw.Config.Writer.{
  FileFaults, WriteError, removed, change_user, channels_of, remove_channel, mutate,
}
use tclaw.DevSessions.{
  Session, Sessions, delete_sessions_by_channel, started_from, is_nil, list_sessions,
}
use tclaw.Ephemeral.Bound.{sessions_of}

-- The user's channels without the first one of that name, and with no link to it.
abbrev pub Removal : (id name : String) → Config → Config × Option WriteError → Type 0
Removal id name before (after, some x) = after ≡ before
Removal id name before (after, none) =
    (channels : List Channel) × (rest : List Channel) × (channels_of id before.users ≡ ok channels)
    × (channels_of id after.users ≡ ok rest)
    × Deleted name channels rest

change_user-Deleted :
    (id name : String) (users users' : List User)
    → change_user (removed name) id users ≡ ok users'
    → (channels : List Channel) × (rest : List Channel) × (channels_of id users ≡ ok channels)
      × (channels_of id users' ≡ ok rest)
      × Deleted name channels rest
unfolding change_user channels_of
change_user-Deleted id name [] users' e = cc
change_user-Deleted id name (u ∷ users) users' e = elim (Bool-cases (u.id == id)) [
  | inl hit ↦ elim (Result-cases (removed name u.channels)) [
    | inr (x, failed) ↦ absurd (ground arith)
    | inl (rest, gone) ↦
        let same : users' ≡ record u { channels = rest } ∷ users = ground arith in
        rw same (rw hit (u.channels, rest, refl, refl, removed-Deleted name u.channels rest gone))
  ]
  | inr miss ↦ elim (Result-cases (change_user (removed name) id users)) [
    | inr (x, failed) ↦ absurd (ground arith)
    | inl (later, done) ↦
        let same : users' ≡ u ∷ later = ground arith in
        rw same (rw miss (change_user-Deleted id name users later done))
  ]
]

pub remove_channel-Removal :
    (f : FileFaults) (cfg : Config) (id name : String)
    → Removal id name cfg (remove_channel f cfg id name)
unfolding remove_channel mutate
remove_channel-Removal f cfg id name = elim (Bool-cases f.read_ok) [
  | inr no_read ↦ rw no_read refl
  | inl read ↦ elim (Result-cases (change_user (removed name) id cfg.users)) [
    | inr (x, failed) ↦ rw read (rw failed refl)
    | inl (users, done) ↦ elim (Bool-cases f.write_ok) [
      | inr unwritten ↦ rw read (rw done (rw unwritten refl))
      | inl written ↦
          rw read (rw done (rw written (change_user-Deleted id name cfg.users users done)))
    ]
  ]
]

-- None is left of those taken out.
keep-keep-not :
    (name : String) (sessions : Dict Session)
    → keep (started_from name) (keep (λ e. not (started_from name e)) sessions) ≡ []
keep-keep-not name [] = refl
keep-keep-not name (e ∷ sessions) = ground (arith, keep-keep-not name sessions)

keep_of_nil : (sessions : Dict Session) → is_nil sessions ≡ true → sessions ≡ []
keep_of_nil [] e = refl
keep_of_nil (x ∷ xs) e = cc

pub delete_sessions_by_channel-clears :
    (f : Faults) (s : Sessions) (name : String)
    → NoFaults f
    → (name == "") ≡ false
    → sessions_of name (delete_sessions_by_channel f s name).0 ≡ []
unfolding delete_sessions_by_channel list_sessions Collections.save
delete_sessions_by_channel-clears f s name fine named =
    elim (Bool-cases (is_nil (keep (started_from name) (contents s)))) [
      | inl none_gone ↦ rw named (
          rw (list_ok f s fine)
            (rw none_gone (keep_of_nil (keep (started_from name) (contents s)) none_gone)))
      | inr some_gone ↦
          rw named
            (rw (list_ok f s fine) (rw some_gone (rw fine.2 (keep-keep-not name (contents s)))))
    ]
