-- ===== src/DevSessions.antt =====
-- internal/dev: the dev sessions of a user by branch, and which of them a channel may act on. A map is
-- walked in the order of its list, and no key stands in it twice.
pub mod Scope
mod Tests
use tclaw.Base.{
  ℕ, String, Bool, true, false, not, ◌||◌, Option, none, some, List, [], ◌∷◌, map, Dict, lookup,
  insert, remove, keep, if◌then◌else◌, Result, ok, err, ◌==◌,
}
use tclaw.Base.Collections
use tclaw.Base.Collections.{Faults, StoreError, Stored}

pub record Session : Type 0 where
  pub branch : String
  pub worktree_dir : String
  pub repo_dir : String
  pub status : String
  pub created_at : ℕ
  pub created_by_channel : String

abbrev pub Sessions : Type 0
Sessions = Stored (String × Session)

unfoldable pub list_sessions : Faults → Sessions → Result StoreError (Dict Session)
list_sessions f s = Collections.list f s

abbrev pub found_in : String → Result StoreError (Dict Session) → Result StoreError (Option Session)
found_in branch (err e) = err e
found_in branch (ok sessions) = ok (lookup branch sessions)

unfoldable pub get_session : Faults → Sessions → String → Result StoreError (Option Session)
get_session f s branch = found_in branch (list_sessions f s)

unfoldable pub put_session : Faults → Sessions → Session → Sessions × Option StoreError
put_session f s sess =
    Collections.on_list f s (λ sessions. ok (insert sess.branch sess sessions)) (list_sessions f s)

unfoldable pub delete_session : Faults → Sessions → String → Sessions × Option StoreError
delete_session f s branch =
    Collections.on_list f s (λ sessions. ok (remove branch sessions)) (list_sessions f s)

abbrev pub started_from : String → String × Session → Bool
started_from channel entry = entry.1.created_by_channel == channel

abbrev pub is_nil {ℓ} : {A : Type ℓ} → List A → Bool
is_nil [] = true
is_nil (x ∷ xs) = false

abbrev saved_without :
    List (String × Session)
    → Sessions × Option StoreError
    → Sessions × Result StoreError (List Session)
saved_without gone (s, none) = (s, ok (map (λ (e : String × Session). e.1) gone))
saved_without gone (s, some e) = (s, err e)

abbrev pub delete_in :
    Faults
    → Sessions
    → String
    → Result StoreError (Dict Session)
    → Sessions × Result StoreError (List Session)
delete_in f s channel (err e) = (s, err e)
delete_in f s channel (ok sessions) =
    let gone = keep (started_from channel) sessions in
    if is_nil gone
    then (s, ok [])
    else saved_without gone
        (Collections.save f s (keep (λ e. not (started_from channel e)) sessions))

-- The deleted sessions, with the store after it.
unfoldable pub delete_sessions_by_channel :
    Faults → Sessions → String → Sessions × Result StoreError (List Session)
delete_sessions_by_channel f s channel =
    if channel == "" then (s, ok []) else delete_in f s channel (list_sessions f s)

pub record ResolveParams : Type 0 where
  pub session : String
  pub channel : String

-- The branches of `several` are those that the message names, which sorts them.
pub data ResolveError : Type 0 where
  unreadable : StoreError → ResolveError
  no_active no_session none_in_channel : ResolveError
  belongs_to : String → ResolveError
  several : List String → ResolveError

unfoldable pub session_in_scope : Session → String → Bool
session_in_scope sess channel =
    if channel == "" || sess.created_by_channel == ""
    then true
    else sess.created_by_channel == channel

abbrev pub scoped : String → Dict Session → Dict Session
scoped channel sessions = keep (λ e. session_in_scope e.1 channel) sessions

abbrev pub if_in_scope : String → Option Session → Result ResolveError Session
if_in_scope channel none = err no_session
if_in_scope channel (some sess) =
    if session_in_scope sess channel then ok sess else err (belongs_to sess.created_by_channel)

abbrev pub only_one : Dict Session → Result ResolveError Session
only_one [] = err none_in_channel
only_one (e ∷ []) = ok e.1
only_one (e ∷ d ∷ more) = err (several (map (λ (x : String × Session). x.0) (e ∷ d ∷ more)))

abbrev pub resolve_in :
    ResolveParams → Result StoreError (Dict Session) → Result ResolveError Session
resolve_in p (err e) = err (unreadable e)
resolve_in p (ok []) = err no_active
resolve_in p (ok (e ∷ sessions)) =
    if not (p.session == "")
    then if_in_scope p.channel (lookup p.session (e ∷ sessions))
    else only_one (scoped p.channel (e ∷ sessions))

unfoldable pub resolve_session : Faults → Sessions → ResolveParams → Result ResolveError Session
resolve_session f s p = resolve_in p (list_sessions f s)

abbrev pub scoped_in : String → Result StoreError (Dict Session) → Result StoreError (Dict Session)
scoped_in channel (err e) = err e
scoped_in channel (ok sessions) = ok (scoped channel sessions)

unfoldable pub list_sessions_for_channel :
    Faults → Sessions → String → Result StoreError (Dict Session)
list_sessions_for_channel f s channel = scoped_in channel (list_sessions f s)
