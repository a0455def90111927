-- ===== src/Egress.antt =====
-- egress/main.go: the CONNECT proxy through which requests leave for hosts that refuse the hosting
-- provider. A text is the list of its code points.
mod Targets
mod Relay
mod Client
mod Tests
use tclaw.Base.{
  ℕ, String, Bool, true, false, not, ◌||◌, ◌&&◌, Option, none, some, List, [], ◌∷◌, ◌++◌, any, eqb,
  if◌then◌else◌, Result, ok, err, Bytes, bytes, same_bytes, strip_prefix,
}
use tclaw.Confirmation.Interception.{trim_left, trim_right}

pub record Config : Type 0 where
  pub listen_addr : Bytes
  pub token : Bytes
  pub allowed_hosts : List Bytes

pub data ConfigError : Type 0 where
  no_token no_allowlist no_usable_entries : ConfigError

abbrev pub empty : Bytes → Bool
empty [] = true
empty (c ∷ s) = false

-- `strings.Split(s, ",")`: the first part, and the parts behind it.
unfoldable pub split_commas : Bytes → Bytes × List Bytes
split_commas [] = ([], [])
split_commas (c ∷ s) =
    let (part, parts) = split_commas s in if eqb c 44 then ([], part ∷ parts) else (c ∷ part, parts)

abbrev pub trim_space : Bytes → Bytes
trim_space s = trim_right (trim_left s)

unfoldable pub usable : List Bytes → List Bytes
usable [] = []
usable (h ∷ hosts) =
    let later = usable hosts in if empty (trim_space h) then later else trim_space h ∷ later

abbrev pub with_hosts : (token addr : Bytes) → List Bytes → Result ConfigError Config
with_hosts token addr [] = err no_usable_entries
with_hosts token addr (h ∷ hosts) = ok (record {
  listen_addr = if empty addr then bytes ":8000" else addr;
  token = token;
  allowed_hosts = h ∷ hosts;
})

-- The values of EGRESS_TOKEN, EGRESS_ALLOWED_HOSTS and EGRESS_LISTEN_ADDR, empty where unset.
unfoldable pub load_config : (token raw addr : Bytes) → Result ConfigError Config
load_config token raw addr =
    if empty token
    then err no_token
    else if empty raw
    then err no_allowlist
    else with_hosts token addr (usable ((split_commas raw).0 ∷ (split_commas raw).1))

pub data Method : Type 0 where
  get connect other : Method

-- A header that is missing is empty.
pub record Request : Type 0 where
  pub method : Method
  pub path : Bytes
  pub host : Bytes
  pub proxy_authorization : Bytes
  pub authorization : Bytes

abbrev pub bearer : Bytes
bearer = bytes "Bearer "

abbrev pub header_of : Request → Bytes
header_of r = if empty r.proxy_authorization then r.authorization else r.proxy_authorization

unfoldable pub presented_credential : Request → Bytes
presented_credential r = elim (strip_prefix bearer (header_of r)) [ none ↦ [] | some rest ↦ rest ]

unfoldable pub authorized : Config → Request → Bool
authorized c r =
    let presented = presented_credential r in
    if empty presented then false else same_bytes presented c.token

abbrev pub occurs : ℕ → Bytes → Bool
occurs c s = any (λ d. eqb c d) s

-- What stands before the last colon, and behind it.
unfoldable pub last_colon : Bytes → Option (Bytes × Bytes)
last_colon [] = none
last_colon (c ∷ s) = elim (last_colon s) [
  | some (before, port) ↦ some (c ∷ before, port)
  | none ↦ if eqb c 58 then some ([], s) else none
]

-- A bracketed address without its brackets: the first closing bracket is the end.
unfoldable pub closed : Bytes → Option Bytes
closed [] = none
closed (c ∷ s) = elim s [
  | [] ↦ if eqb c 93 then some [] else none
  | d ∷ rest ↦
      if eqb c 93 then none else elim (closed s) [ none ↦ none | some host ↦ some (c ∷ host) ]
]

abbrev pub plain_host : Bytes → Option Bytes
plain_host s = if occurs 58 s || (occurs 91 s || occurs 93 s) then none else some s

abbrev pub unbracketed : Option Bytes → Option Bytes
unbracketed none = none
unbracketed (some host) = if occurs 91 host then none else some host

abbrev pub host_of : Bytes → Option Bytes
host_of [] = plain_host []
host_of (c ∷ s) = if eqb c 91 then unbracketed (closed s) else plain_host (c ∷ s)

abbrev pub with_port : Bytes → Option Bytes → Option (Bytes × Bytes)
with_port port none = none
with_port port (some host) = if occurs 91 port || occurs 93 port then none else some (host, port)

abbrev pub host_and_port : Option (Bytes × Bytes) → Option (Bytes × Bytes)
host_and_port none = none
host_and_port (some (before, port)) = with_port port (host_of before)

-- `net.SplitHostPort`
unfoldable pub split_host_port : Bytes → Option (Bytes × Bytes)
split_host_port s = host_and_port (last_colon s)

abbrev pub web_port : Bytes → Bool
web_port port = same_bytes port (bytes "443") || same_bytes port (bytes "80")

abbrev pub admits : (target host port entry : Bytes) → Bool
admits target host port entry = same_bytes entry target || (same_bytes entry host && web_port port)

unfoldable pub allowed : Config → Bytes → Bool
allowed c target = elim (split_host_port target) [
  | none ↦ false
  | some (host, port) ↦ any (admits target host port) c.allowed_hosts
]

-- What the network and the server make of a connection: whether the upstream is reached, and the
-- client's connection can be taken over and written to.
pub record Network : Type 0 where
  pub dials : Bytes → Bool
  pub hijackable : Bool
  pub hijacks : Bool
  pub acknowledged : Bool

pub data Response : Type 0 where
  healthy method_not_allowed forbidden destination_not_allowed : Response
  bad_gateway cannot_tunnel hijack_failed not_acknowledged : Response
  tunnels : Bytes → Response

abbrev pub after_dial : Network → Bytes → Response
after_dial n target =
    if not (n.dials target)
    then bad_gateway
    else if not n.hijackable
    then cannot_tunnel
    else if not n.hijacks
    then hijack_failed
    else if not n.acknowledged
    then not_acknowledged
    else tunnels target

abbrev pub is_health_check : Method → Bytes → Bool
is_health_check get path = same_bytes path (bytes "/healthz")
is_health_check connect path = false
is_health_check other path = false

abbrev pub is_connect : Method → Bool
is_connect get = false
is_connect connect = true
is_connect other = false

-- The answer, and the destination that was dialled.
unfoldable pub handle : Config → Network → Request → Response × Option Bytes
handle c n r =
    if is_health_check r.method r.path
    then (healthy, none)
    else if not (is_connect r.method)
    then (method_not_allowed, none)
    else if not (authorized c r)
    then (forbidden, none)
    else if not (allowed c r.host)
    then (destination_not_allowed, none)
    else (after_dial n r.host, some r.host)
