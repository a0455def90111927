-- ===== src/Config/Samples.antt =====
-- A configuration for tests: a user with two linked channels and a repository that one of them sees.
use tclaw.Base.{true, false, [], ◌∷◌}
use tclaw.Repo.{unset}
use tclaw.Config.{Vocabulary, Channel, RepoConfig, User}

abbrev pub vocabulary : Vocabulary
vocabulary = record {
  valid_model = λ s. true;
  valid_permission_mode = λ s. true;
  valid_tool = λ s. true;
  valid_turn_settings = λ s. true;
  duration_parses = λ s. true;
  time_parses = λ s. true;
}

abbrev pub main : Channel
main = record {
  type = "socket";
  name = "main";
  description = "the main channel";
  model = "";
  negative_turns = false;
  turn_settings = "";
  allowed_tools = [];
  disallowed_tools = [];
  links = record { target = "dev"; description = "ask about code" } ∷ [];
  ephemeral = false;
  ephemeral_idle_timeout = "";
  parent = "";
  created_at = "";
  claude_session_timeout = "";
}

abbrev pub dev : Channel
dev = record main {
  name = "dev";
  description = "code";
  links = [];
  ephemeral = true;
  parent = "main";
}

abbrev pub docs : RepoConfig
docs = record {
  name = "docs";
  repo = 97 ∷ 47 ∷ 98 ∷ [];
  branch = "";
  visible_to_channels = "main" ∷ [];
  access = unset;
  credential = "";
  fetch_every = "";
  drop_to_read_only_at = "";
  drop_clone_if_unused_for = "";
}

abbrev pub user : User
user = record {
  id = "u";
  model = "";
  permission_mode = "";
  turn_settings = "";
  message_debounce = "";
  allowed_tools = [];
  disallowed_tools = [];
  repos = docs ∷ [];
  telegram_user_id = "";
  channels = main ∷ dev ∷ [];
}
