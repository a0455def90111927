-- ===== src/DevSessions/Tests.antt =====
-- Two sessions of two channels, and a call from one of them that names no branch.
use tclaw.Base.{◌≡◌, ◌↔◌, refl, true, some, [], ◌∷◌, ok, List, String}
use tclaw.Base.Collections.{Faults, list}
use tclaw.DevSessions.{Session, ResolveParams, list_sessions, resolve_session, session_in_scope}
use tclaw.DevSessions.Scope.{Meant, resolve_session-Meant}

abbrev mine : Session
mine = record {
  branch = "fix";
  worktree_dir = "/w/fix";
  repo_dir = "/r";
  status = "active";
  created_at = 1;
  created_by_channel = "dev";
}

abbrev theirs : Session
theirs = record mine { branch = "docs"; created_by_channel = "writing" }

abbrev sessions : List (String × Session)
sessions = ("docs", theirs) ∷ ("fix", mine) ∷ []

abbrev fine : Faults
fine = record { read_ok = true; parse_ok = true; write_ok = true }

abbrev here : ResolveParams
here = record { session = ""; channel = "dev" }

the_only_one : resolve_session fine (some sessions) here ≡ ok mine
unfolding resolve_session list_sessions list session_in_scope
the_only_one = refl

resolve_session-Meant_example :
    (resolve_session fine (some sessions) here ≡ ok mine) ↔ Meant sessions here mine
unfolding list_sessions list
resolve_session-Meant_example = resolve_session-Meant fine (some sessions) here sessions mine refl
