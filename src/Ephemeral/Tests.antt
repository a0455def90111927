-- ===== src/Ephemeral/Tests.antt =====
-- A pass over the channels of the sample user, of which one is ephemeral.
use tclaw.Base.{◌≡◌, ◌⊎◌, inl, inr, refl, true, false, ◌&&◌, none, some, [], ◌∷◌, ok, lookup}
use tclaw.Base.Collections.{Faults}
use tclaw.Channel.{user}
use tclaw.Channel.Activity.{ChannelActivity, Tracker, is_busy_with_timeout, entry}
use tclaw.Config.{Channel}
use tclaw.Config.Samples
use tclaw.Config.Samples.{main, dev}
use tclaw.Config.Writer.{FileFaults, read_channels, channels_of}
use tclaw.Queue.{new}
use tclaw.RemoteMcpStore.Operations.{load}
use tclaw.Ephemeral.{
  State, Turn, Setting, torn_down, is_idle, timeout_of, tear_down, clean, cleanup_once,
}
use tclaw.Ephemeral.Spared.{Untouched, cleanup_once-Spares}
use tclaw.Ephemeral.Cleared.{Gone, Same, Excused, clean-Clears}

abbrev fine : Faults
fine = record { read_ok = true; parse_ok = true; write_ok = true }

abbrev file : FileFaults
file = record { read_ok = true; write_ok = true }

abbrev heard : ChannelActivity
heard = record {
  processing = false;
  last_message_at = some 1_000;
  last_message_source = user;
  idle_waiters = [];
  idle_timer = none;
}

abbrev tracker : Tracker
tracker = record {
  entries = ("dev", heard) ∷ [];
  runtime_state = none;
  closed = [];
  next_waiter = 0;
}

abbrev turn : Channel → Turn
turn ch = record {
  tracker = some tracker;
  now = 90_000_000_000_000;
  runtime_read = fine;
  file = file;
  runtime_delete = fine;
  secret_ok = true;
  dev_store = some fine;
  mcps = record { read_ok = true; parse_ok = true; write_ok = true; secret_ok = true };
  live = ("main", "c1") ∷ [];
  world = record { channels = ("c1", "main") ∷ []; activity = tracker; now = 0; write_ok = true };
}

abbrev setting : Setting
setting = record { user_id = "u"; provisioners = λ type. none; parse_duration = λ s. none }

abbrev start : State
start = record {
  config = record { credential_slots = []; users = Samples.user ∷ [] };
  runtime = [];
  secrets = ("channel/dev/token", "t") ∷ ("channel/main/token", "m") ∷ [];
  sessions = some (
      (
        "fix",
        record {
          branch = "fix";
          worktree_dir = "/data/fix";
          repo_dir = "/data/repo";
          status = "active";
          created_at = 1;
          created_by_channel = "dev";
        },
      )
      ∷ []);
  mcps = record { store = none; secrets = [] };
  queue = new none 0 none;
  last_logged_error = [];
  worktrees_removed = [];
  cleaned = false;
}

reads : read_channels file start.config "u" ≡ ok (main ∷ dev ∷ [])
unfolding read_channels channels_of
reads = refl

cleanup_once-Spares_example : Untouched "u" "main" start (cleanup_once setting file turn start)
cleanup_once-Spares_example =
    cleanup_once-Spares setting file turn "main" start (main ∷ dev ∷ []) reads
      (inr refl, (inl refl, tt))

no_servers : load (turn dev).mcps start.mcps ≡ ok []
unfolding load
no_servers = refl

dev_idle : is_idle setting (turn dev) dev ≡ true
unfolding is_idle timeout_of is_busy_with_timeout entry lookup
dev_idle = refl

are_there : channels_of "u" start.config.users ≡ ok (main ∷ dev ∷ [])
unfolding channels_of
are_there = refl

clean-Clears_example :
    (Same start (clean setting (turn dev) dev start)
      × Excused setting (turn dev) dev start (tear_down setting (turn dev) start dev))
    ⊎ (((dev.ephemeral && is_idle setting (turn dev) dev) ≡ true)
        × (tear_down setting (turn dev) start dev ≡ torn_down)
        × Gone "u" (turn dev) dev [] start (clean setting (turn dev) dev start))
clean-Clears_example =
    clean-Clears setting fine (turn dev) dev [] start (main ∷ dev ∷ [])
      (record {
        dev = refl;
        dev_fine = (refl, refl, refl);
        runtime = refl;
        secret = refl;
        named = refl;
      })
      no_servers are_there (refl, (refl, tt))
