-- ===== src/Egress/Client.antt =====
-- internal/egressproxy/egressproxy.go: the client's side, which routes the configured hosts through
-- the proxy and authenticates to it. Go's parser of URLs and its case mapping are arguments.
use mathlib.Core.List.{append_cancel_left}
use tclaw.Base.{
  ◌≡◌, ◌≢◌, ◌↔◌, refl, sym, ap, ◌∙◌, Bool, true, false, not, ◌||◌, Option, none, some, List, [],
  ◌∷◌, ◌++◌, any, if◌then◌else◌, Result, ok, err, Bytes, bytes, same_bytes, arith, Bool-cases,
  Option-cases, inl, inr,
}
use tclaw.Egress.{
  Config, Request, bearer, header_of, empty, trim_space, authorized, split_host_port,
}
use tclaw.Egress.Relay.{authorized-Presents}

-- The configuration of the client.
pub record Settings : Type 0 where
  pub url : Bytes
  pub token : Bytes
  pub hosts : List Bytes

pub record Url : Type 0 where
  pub scheme : Bytes
  pub host : Bytes

pub record Proxy : Type 0 where
  pub proxy_url : Url
  pub token : Bytes
  pub hosts : List Bytes

pub data SetupError : Type 0 where
  no_url bad_url bad_scheme no_host missing_token no_hosts empty_entry : SetupError

abbrev pub http : Bytes → Bool
http scheme = same_bytes scheme (bytes "http") || same_bytes scheme (bytes "https")

abbrev pub cons_ok : Bytes → Option (List Bytes) → Option (List Bytes)
cons_ok h none = none
cons_ok h (some hosts) = some (h ∷ hosts)

-- The keys of the map of hosts; none if an entry is empty.
unfoldable pub host_set : (lower : Bytes → Bytes) → List Bytes → Option (List Bytes)
host_set lower [] = some []
host_set lower (h ∷ hosts) =
    let later = host_set lower hosts in
    if empty (lower (trim_space h)) then none else cons_ok (lower (trim_space h)) later

abbrev pub built : Url → Bytes → Option (List Bytes) → Result SetupError Proxy
built url token none = err empty_entry
built url token (some hosts) = ok (record { proxy_url = url; token = token; hosts = hosts })

abbrev pub no_entries : List Bytes → Bool
no_entries [] = true
no_entries (h ∷ hosts) = false

abbrev pub with_url : (Bytes → Bytes) → Settings → Option Url → Result SetupError Proxy
with_url lower s none = err bad_url
with_url lower s (some url) =
    if not (http url.scheme)
    then err bad_scheme
    else if empty url.host
    then err no_host
    else if empty s.token
    then err missing_token
    else if no_entries s.hosts
    then err no_hosts
    else built url s.token (host_set lower s.hosts)

-- `New`
unfoldable pub new :
    (parse : Bytes → Option Url) → (lower : Bytes → Bytes) → Settings → Result SetupError Proxy
new parse lower s = if empty s.url then err no_url else with_url lower s (parse s.url)

abbrev pub hostname : Bytes → Bytes
hostname host = elim (split_host_port host) [ none ↦ host | some (h, port) ↦ h ]

-- A proxy that is nil routes nothing.
unfoldable pub routes : (lower : Bytes → Bytes) → Option Proxy → Bytes → Bool
routes lower none host = false
routes lower (some p) host = any (λ h. same_bytes h (lower (hostname host))) p.hosts

-- Through which proxy a request to a host goes; none connects directly.
unfoldable pub proxy_func : (lower : Bytes → Bytes) → Option Proxy → Option Bytes → Option Url
proxy_func lower none host = none
proxy_func lower (some p) none = none
proxy_func lower (some p) (some host) =
    if routes lower (some p) host then some p.proxy_url else none

-- The header `Proxy-Authorization` of a CONNECT request.
unfoldable pub connect_header : Proxy → Bytes
connect_header p = bearer ++ p.token

bearer-nonempty : (s : Bytes) → empty (bearer ++ s) ≡ false
unfolding bytes
bearer-nonempty s = refl

with_url-token :
    (lower : Bytes → Bytes) (s : Settings) (url : Option Url) (p : Proxy)
    → with_url lower s url ≡ ok p
    → (p.token ≡ s.token) × (empty s.token ≡ false)
with_url-token lower s none p e = cc
with_url-token lower s (some url) p e = elim (Bool-cases (empty s.token)) [
  | inl unset ↦ absurd (ground (arith, e, unset))
  | inr set ↦ elim (Option-cases (host_set lower s.hosts)) [
    | inl bad ↦ absurd (ground (arith, e, set, bad))
    | inr (hosts, x) ↦ (ground (arith, e, set, x), set)
  ]
]

-- The proxy that `New` makes is let in by a server exactly if it has the server's token.
pub connect_header-authorized :
    (parse : Bytes → Option Url) (lower : Bytes → Bytes) (s : Settings) (p : Proxy) (c : Config)
    (r : Request)
    → new parse lower s ≡ ok p
    → r.proxy_authorization ≡ connect_header p
    → (authorized c r ≡ true) ↔ (p.token ≡ c.token)
unfolding new connect_header
connect_header-authorized parse lower s p c r made sent = (
  (λ a. append_cancel_left bearer p.token c.token (sym header ∙ ((authorized-Presents c r).0 a).1)),
  (λ e.
      (authorized-Presents c r).1
        ((λ none_there. let q = e ∙ none_there in named q), header ∙ ap (◌++◌ bearer) e)),
)
  where
    header : header_of r ≡ bearer ++ p.token
    header =
        let given : empty r.proxy_authorization ≡ false = ap empty sent ∙ bearer-nonempty p.token in
        rw given sent

    named : p.token ≢ []
    named q = elim (Bool-cases (empty s.url)) [
      | inl unset ↦ absurd (ground (arith, made, unset))
      | inr set ↦
          let (same, there) =
            with_url-token lower s (parse s.url) p (rw (set, if◌then◌else◌) at made) in
          let gone : empty s.token ≡ true = ap empty (sym same ∙ q) in
          absurd (ground (arith, there, gone))
    ]
