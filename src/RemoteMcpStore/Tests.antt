-- ===== src/RemoteMcpStore/Tests.antt =====
-- Two servers, one of them for the deleted channel alone.
use tclaw.Base.{◌≡◌, refl, String, false, some, List, [], ◌∷◌, ok}
use tclaw.RemoteMcpStore.{RemoteMcp, AddParams, Manager}
use tclaw.RemoteMcpStore.Operations.{load, remove_channel_from_all}
use tclaw.RemoteMcpStore.Pruning.{Prunes, remove_channel_from_all-Prunes}
use tclaw.RemoteMcpStore.Reading.{no_faults}

abbrev server : String → List String → RemoteMcp
server name channels = record {
  name = name;
  url = "https://example.org/mcp";
  created_at = 1;
  channels = channels;
  url_sensitive = false;
  tool_names = [];
  tls_pin_sha256 = "";
  instructions = "";
}

abbrev servers : List RemoteMcp
servers = server "mail" ("admin" ∷ "work" ∷ []) ∷ server "maps" ("work" ∷ []) ∷ []

abbrev two_servers : Manager
two_servers = record { store = some servers; secrets = [] }

abbrev drive : AddParams
drive = record {
  name = "drive";
  url = "https://example.org/drive";
  channels = "admin" ∷ [];
  url_sensitive = false;
  tool_names = [];
  tls_pin_sha256 = "";
  instructions = "";
}

reads_servers : load no_faults two_servers ≡ ok servers
unfolding load
reads_servers = refl

remove_channel_from_all-Prunes_example :
    Prunes two_servers "work" servers (remove_channel_from_all no_faults two_servers "work")
remove_channel_from_all-Prunes_example =
    remove_channel_from_all-Prunes no_faults two_servers "work" servers reads_servers
