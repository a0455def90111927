-- ===== src/Ephemeral.antt =====
-- internal/router/ephemeral.go and parent_notify.go: the clean-up of ephemeral channels that have been
-- idle, over the configuration, the runtime states, the secrets, the dev sessions, the remote MCP
-- servers and the queue.
mod Bound
mod Spared
mod Removal
mod Cleared
mod Tests
use tclaw.Base.{
  ℕ, String, str_append, Bool, true, false, not, ◌&&◌, Option, none, some, List, [], ◌∷◌, ◌++◌,
  Dict, insert, remove, if◌then◌else◌, Result, ok, err, ◌==◌,
}
use tclaw.Base.Collections.{Faults, StoreError}
use tclaw.Channel.{TaggedMessage, child}
use tclaw.Channel.Activity.{Tracker, is_busy_with_timeout}
use tclaw.Config.{Channel, Config}
use tclaw.Config.Writer.{FileFaults, WriteError, read_channels, remove_channel}
use tclaw.DevSessions.{Session, Sessions, delete_sessions_by_channel}
use tclaw.Queue.{Queue, World, push}
use tclaw.RemoteMcpStore.{Manager}
use tclaw.RemoteMcpStore
use tclaw.RemoteMcpStore.Operations.{remove_channel_from_all}
use tclaw.Runtime
use tclaw.Runtime.{
  RuntimeState, RuntimeStates, TeardownState, Provisioner, ProvisionerLookup, has_teardown_state,
}
use tclaw.Schedule.Scheduler.{Channels, find_channel}

pub record State : Type 0 where
  pub config : Config
  pub runtime : RuntimeStates
  pub secrets : Dict String
  pub sessions : Sessions
  pub mcps : Manager
  pub queue : Queue
  pub last_logged_error : Dict String
  pub worktrees_removed : List String
  pub cleaned : Bool

-- What surrounds the turn of one channel. A tracker or a dev store that is nil is none.
pub record Turn : Type 0 where
  pub tracker : Option Tracker
  pub now : ℕ
  pub runtime_read : Faults
  pub file : FileFaults
  pub runtime_delete : Faults
  pub secret_ok : Bool
  pub dev_store : Option Faults
  pub mcps : RemoteMcpStore.Faults
  pub live : Channels
  pub world : World

-- What the turns have in common: the user, the platforms and Go's parser of durations, in which a
-- negative duration is 0.
pub record Setting : Type 0 where
  pub user_id : String
  pub provisioners : ProvisionerLookup
  pub parse_duration : String → Option ℕ

-- 24 hours.
abbrev pub default_ephemeral_idle_timeout : ℕ
default_ephemeral_idle_timeout = 86_400_000_000_000

abbrev pub or_default : Option ℕ → ℕ
or_default none = default_ephemeral_idle_timeout
or_default (some d) = d

unfoldable pub timeout_of : Setting → Channel → ℕ
timeout_of s ch =
    if ch.ephemeral_idle_timeout == ""
    then default_ephemeral_idle_timeout
    else or_default (s.parse_duration ch.ephemeral_idle_timeout)

-- The channel has a record of activity, and has been idle for longer than its timeout.
unfoldable pub is_idle : Setting → Turn → Channel → Bool
is_idle s e ch = elim e.tracker [
  | none ↦ true
  | some t ↦
      let (busy, known) = is_busy_with_timeout t ch.name (timeout_of s ch) e.now in
      known && not busy
]

-- What the platform makes of a channel: it may be removed, or not, with the error that is logged.
pub data Teardown : Type 0 where
  torn_down : Teardown
  unread : Teardown
  refused : String → Teardown

abbrev pub torn : Option String → Teardown
torn none = torn_down
torn (some e) = refused e

abbrev pub torn_by : String → Option Provisioner → TeardownState → Teardown
torn_by type none t = refused (str_append "no provisioner for channel type " type)
torn_by type (some p) t = torn (p.teardown t)

unfoldable pub tear_down : Setting → Turn → State → Channel → Teardown
tear_down s e st ch = elim (Runtime.get e.runtime_read st.runtime ch.name) [
  | err x ↦ unread
  | ok rs ↦
      if has_teardown_state rs.teardown_state
      then torn_by ch.type (s.provisioners ch.type) rs.teardown_state
      else torn_down
]

abbrev pub worktrees : List Session → List String
worktrees [] = []
worktrees (sess ∷ sessions) =
    let later = worktrees sessions in
    if sess.worktree_dir == "" then later else sess.worktree_dir ∷ later

abbrev pub removed_worktrees : Result StoreError (List Session) → List String
removed_worktrees (err e) = []
removed_worktrees (ok sessions) = worktrees sessions

-- `cleanupDevSessionsForChannel`
unfoldable pub cleanup_dev_sessions_for_channel : Option Faults → String → State → State
cleanup_dev_sessions_for_channel none name st = st
cleanup_dev_sessions_for_channel (some f) name st =
    if name == ""
    then st
    else (let (sessions, r) = delete_sessions_by_channel f st.sessions name in
        record st {
          sessions = sessions;
          worktrees_removed = st.worktrees_removed ++ removed_worktrees r;
        })

unfoldable pub channel_secret_key : String → String
channel_secret_key name = str_append (str_append "channel/" name) "/token"

abbrev pub notice : String → String → String → TaggedMessage
notice parent_id child_name message = record {
  channel_id = parent_id;
  text = message;
  source_info = some (record {
    source = child;
    from_channel = "";
    schedule_name = "";
    subscription_id = "";
    subscription_label = "";
    child_channel = child_name;
  });
}

abbrev pub pushed : World → String → String → Option String → Queue → Queue
pushed w child_name message none q = q
pushed w child_name message (some id) q =
    if id == "" then q else (push w q (notice id child_name message)).0

-- `notifyParent`: nothing is pushed for a parent that is not there.
unfoldable pub notify_parent : World → Channels → String → String → String → Queue → Queue
notify_parent w live child_name parent message q =
    if parent == "" then q else pushed w child_name message (find_channel live parent) q

abbrev pub cleaned_up_message : String → String
cleaned_up_message name =
    str_append (str_append "Ephemeral channel \"" name) "\" cleaned up (idle timeout)."

-- What goes with a channel once it is out of the configuration, each part whether or not the others
-- could be removed.
unfoldable pub remove_bound : Turn → Channel → State → State
remove_bound e ch st =
    let st' = cleanup_dev_sessions_for_channel e.dev_store ch.name (record st {
      runtime = (Runtime.delete e.runtime_delete st.runtime ch.name).0;
      secrets = if e.secret_ok then remove (channel_secret_key ch.name) st.secrets else st.secrets;
    }) in
    record st' {
      mcps = (remove_channel_from_all e.mcps st'.mcps ch.name).0;
      last_logged_error = remove ch.name st'.last_logged_error;
      cleaned = true;
      queue = notify_parent e.world e.live ch.name ch.parent (cleaned_up_message ch.name) st'.queue;
    }

abbrev pub after_removal : Turn → Channel → State → Config × Option WriteError → State
after_removal e ch st (config, some x) = st
after_removal e ch st (config, none) = remove_bound e ch (record st { config = config })

abbrev pub after_teardown : Setting → Turn → Channel → State → Teardown → State
after_teardown s e ch st unread = st
after_teardown s e ch st (refused x) = record st {
  last_logged_error = insert ch.name x st.last_logged_error;
}
after_teardown s e ch st torn_down =
    after_removal e ch st (remove_channel e.file st.config s.user_id ch.name)

-- The turn of one channel.
unfoldable pub clean : Setting → Turn → Channel → State → State
clean s e ch st =
    if ch.ephemeral && is_idle s e ch then after_teardown s e ch st (tear_down s e st ch) else st

unfoldable pub clean_each : Setting → (Channel → Turn) → List Channel → State → State
clean_each s turns [] st = st
clean_each s turns (ch ∷ channels) st = clean_each s turns channels (clean s (turns ch) ch st)

abbrev pub clean_read :
    Setting → (Channel → Turn) → State → Result WriteError (List Channel) → State
clean_read s turns st (err x) = st
clean_read s turns st (ok channels) = clean_each s turns channels st

-- `cleanupOnce`; a change of the channels is signalled if anything was cleaned.
unfoldable pub cleanup_once : Setting → FileFaults → (Channel → Turn) → State → State
cleanup_once s f turns st =
    let st' = record st { cleaned = false } in
    clean_read s turns st' (read_channels f st.config s.user_id)
