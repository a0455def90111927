-- ===== src/Repo/Tests.antt =====
-- A repository whose right to push lapses at time 100.
use tclaw.Base.{false, none, some, [], bytes}
use tclaw.Repo.{TrackedRepo, full_write}

abbrev pub tracked : TrackedRepo
tracked = record {
  name = "config";
  url = "https://github.com/owner/config";
  branch = bytes "main";
  last_seen_commit = "";
  repo_dir = "/data/repos/config";
  managed = false;
  channels = [];
  description = "";
  credential = "";
  access = full_write;
  drop_to_read_only_at = some 100;
  drop_clone_if_unused_for = 0;
  fetch_every = 0;
  last_used_at = none;
  added_at = 1;
  last_synced_at = none;
}
