-- ===== src/Egress/Tests.antt =====
-- A request to an allowed host with the right token.
use tclaw.Base.{◌≡◌, ◌↔◌, refl, true, some, [], ◌∷◌, ok, bytes, same_bytes, strip_prefix}
use tclaw.Egress.{
  Config, Request, Network, connect, authorized, allowed, handle, load_config, split_commas, usable,
  presented_credential, split_host_port, last_colon,
}
use tclaw.Egress.Relay.{Relayed, handle-Relays}
use tclaw.Confirmation.Interception.{trim_left, trim_right}

abbrev config : Config
config = record {
  listen_addr = bytes ":8000";
  token = bytes "secret";
  allowed_hosts = bytes "mcp.example.org" ∷ [];
}

abbrev network : Network
network = record { dials = λ t. true; hijackable = true; hijacks = true; acknowledged = true }

abbrev request : Request
request = record {
  method = connect;
  path = [];
  host = bytes "mcp.example.org:443";
  proxy_authorization = bytes "Bearer secret";
  authorization = [];
}

loads : load_config (bytes "secret") (bytes " mcp.example.org,") [] ≡ ok config
unfolding load_config split_commas usable trim_left trim_right bytes
loads = refl

relays : (handle config network request).1 ≡ some request.host
unfolding handle authorized allowed presented_credential split_host_port last_colon bytes
    strip_prefix same_bytes
relays = refl

handle-Relays_example :
    ((handle config network request).1 ≡ some request.host)
    ↔ ((request.host ≡ request.host) × Relayed config request)
handle-Relays_example = handle-Relays config network request request.host
