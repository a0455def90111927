-- ===== src/Egress/Relay.antt =====
-- egress/main.go: the proxy is no open relay, and relays what it is configured to.
use tclaw.Base.{
  ◌≡◌, ◌≢◌, ◌↔◌, ◌⊎◌, refl, subst, ap, ◌∙◌, true, false, none, some, List, [], ◌∷◌, ◌++◌, any,
  if◌then◌else◌, Bytes, bytes, same_bytes, same_bytes→≡, same_bytes_refl, strip_prefix,
  strip_prefix-splits, strip_prefix-append, arith, Bool-cases, Option-cases, inl, inr,
}
use tclaw.Egress.{
  Config, Request, Network, Method, get, connect, other, bearer, header_of, empty,
  presented_credential, authorized, split_host_port, admits, allowed, is_health_check, is_connect,
  handle,
}
use tclaw.Egress.Targets.{Target, split_host_port-Target}

abbrev pub Exists {ℓ} : {A : Type ℓ} → (A → Type 0) → List A → Type 0
Exists P [] = ⊥
Exists P (x ∷ xs) = P x ⊎ Exists P xs

abbrev pub WebPort : Bytes → Type 0
WebPort port = (port ≡ bytes "443") ⊎ (port ≡ bytes "80")

-- An entry names the target, or its host if the port is one of the web's.
abbrev pub Admits : (target host port entry : Bytes) → Type 0
Admits target host port entry = (entry ≡ target) ⊎ ((entry ≡ host) × WebPort port)

-- The request is a CONNECT that presents the token, to a target that the allowlist admits.
abbrev pub Relayed : Config → Request → Type 0
Relayed c r =
    (r.method ≡ connect)
    × (c.token ≢ [])
    × (header_of r ≡ bearer ++ c.token)
    × (host : Bytes) × (port : Bytes) × Target r.host host port
    × Exists (Admits r.host host port) c.allowed_hosts

same_bytes-eq : (s t : Bytes) → (same_bytes s t ≡ true) ↔ (s ≡ t)
same_bytes-eq s t = (same_bytes→≡ s t, λ e. rw e (same_bytes_refl t))

admits-Admits :
    (target host port entry : Bytes)
    → (admits target host port entry ≡ true) ↔ Admits target host port entry
admits-Admits target host port entry =
    let a = same_bytes-eq entry target in
    let b = same_bytes-eq entry host in
    let c = same_bytes-eq port (bytes "443") in
    let d = same_bytes-eq port (bytes "80") in
    ((λ h. ground (arith, a, b, c, d)), (λ h. ground (arith, a, b, c, d)))

any-Exists :
    (target host port : Bytes) (hosts : List Bytes)
    → (any (admits target host port) hosts ≡ true) ↔ Exists (Admits target host port) hosts
any-Exists target host port [] = ((λ e. cc), (λ h. absurd h))
any-Exists target host port (entry ∷ hosts) =
    let one = admits-Admits target host port entry in
    let more = any-Exists target host port hosts in
    (
      (λ e. elim (Bool-cases (admits target host port entry)) [
        | inl hit ↦ inl (one.0 hit)
        | inr miss ↦ inr (more.0 (ground (arith, e, miss)))
      ]),
      (λ h. elim h [
        | inl hit ↦ rw (one.1 hit) refl
        | inr later ↦ let e = more.1 later in ground (arith, e)
      ]),
    )

empty-nil : (s : Bytes) → (empty s ≡ false) ↔ (s ≢ [])
empty-nil [] = ((λ e. cc), (λ h. absurd (h refl)))
empty-nil (c ∷ s) = ((λ e. λ p. cc), (λ h. refl))

presented-none :
    (r : Request) → strip_prefix bearer (header_of r) ≡ none → presented_credential r ≡ []
unfolding presented_credential
presented-none r x = rw (x, presented_credential) refl

presented-some :
    (r : Request) (rest : Bytes)
    → strip_prefix bearer (header_of r) ≡ some rest
    → presented_credential r ≡ rest
unfolding presented_credential
presented-some r rest x = rw (x, presented_credential) refl

presents :
    (presented token : Bytes)
    → (if empty presented then false else same_bytes presented token) ≡ true
    → (token ≢ []) × (presented ≡ token)
presents [] token e = cc
presents (c ∷ s) token e =
    let same = same_bytes→≡ (c ∷ s) token e in ((λ p. let q = same ∙ p in cc), same)

pub authorized-Presents :
    (c : Config) (r : Request)
    → (authorized c r ≡ true) ↔ ((c.token ≢ []) × (header_of r ≡ bearer ++ c.token))
unfolding authorized
authorized-Presents c r = (forth, back)
  where
    forth : authorized c r ≡ true → (c.token ≢ []) × (header_of r ≡ bearer ++ c.token)
    forth e = elim (Option-cases (strip_prefix bearer (header_of r))) [
      | inl unprefixed ↦ absurd (
          let no =
            subst (λ p. (if empty p then false else same_bytes p c.token) ≡ true)
              (presented-none r unprefixed) e in
          cc)
      | inr (rest, x) ↦
          let found = presents rest c.token (
            subst (λ p. (if empty p then false else same_bytes p c.token) ≡ true)
              (presented-some r rest x) e) in
          (found.0, strip_prefix-splits bearer (header_of r) rest x ∙ ap (◌++◌ bearer) found.1)
    ]

    back : (c.token ≢ []) × (header_of r ≡ bearer ++ c.token) → authorized c r ≡ true
    back (named, h) =
        let x : strip_prefix bearer (header_of r) ≡ some c.token =
          ap (strip_prefix bearer) h ∙ strip_prefix-append bearer c.token in
        rw (presented-some r c.token x) (rw ((empty-nil c.token).1 named) (same_bytes_refl c.token))

allowed-Target :
    (c : Config) (target : Bytes)
    → (allowed c target ≡ true) ↔ (
        (host : Bytes) × (port : Bytes) × Target target host port
        × Exists (Admits target host port) c.allowed_hosts)
unfolding allowed
allowed-Target c target = (forth, back)
  where
    forth :
        allowed c target ≡ true
        → (host : Bytes) × (port : Bytes) × Target target host port
          × Exists (Admits target host port) c.allowed_hosts
    forth e = elim (Option-cases (split_host_port target)) [
      | inl unsplit ↦ absurd (ground (arith, rw (unsplit, allowed) at e))
      | inr ((host, port), x) ↦ (
        host,
        port,
        (split_host_port-Target target host port).0 x,
        (any-Exists target host port c.allowed_hosts).0 (rw (x, allowed) at e),
      )
    ]

    back :
        (host : Bytes) × (port : Bytes) × Target target host port
          × Exists (Admits target host port) c.allowed_hosts
        → allowed c target ≡ true
    back (host, port, t, h) =
        rw ((split_host_port-Target target host port).1 t, allowed)
          ((any-Exists target host port c.allowed_hosts).1 h)

is_connect-eq : (m : Method) → (is_connect m ≡ true) ↔ (m ≡ connect)
is_connect-eq get = ((λ e. cc), (λ e. cc))
is_connect-eq connect = ((λ e. refl), (λ e. refl))
is_connect-eq other = ((λ e. cc), (λ e. cc))

health_check_is_no_connect :
    (m : Method) (path : Bytes) → is_connect m ≡ true → is_health_check m path ≡ false
health_check_is_no_connect get path e = cc
health_check_is_no_connect connect path e = refl
health_check_is_no_connect other path e = cc

handle-dials :
    (c : Config) (n : Network) (r : Request) (t : Bytes)
    → (handle c n r).1 ≡ some t
    → (t ≡ r.host)
      × (is_connect r.method ≡ true)
      × (authorized c r ≡ true)
      × (allowed c r.host ≡ true)
unfolding handle
handle-dials c n r t e = ground (arith, e)

dials-handle :
    (c : Config) (n : Network) (r : Request)
    → is_connect r.method ≡ true
    → authorized c r ≡ true
    → allowed c r.host ≡ true
    → (handle c n r).1 ≡ some r.host
unfolding handle
dials-handle c n r m a h = ground (arith, m, a, h, health_check_is_no_connect r.method r.path m)

-- The proxy dials a destination exactly if the request is a CONNECT that presents the configured token
-- as a bearer credential, in the proxy's header or, where that is missing, in the other, and the
-- token is not empty, and the destination is the request's, a host or a bracketed address with a
-- port, and an entry of the allowlist is that destination, or its host if the port is 443 or 80.
pub handle-Relays :
    (c : Config) (n : Network) (r : Request) (t : Bytes)
    → ((handle c n r).1 ≡ some t) ↔ ((t ≡ r.host) × Relayed c r)
handle-Relays c n r t = (forth, back)
  where
    forth : (handle c n r).1 ≡ some t → (t ≡ r.host) × Relayed c r
    forth e =
        let (same, m, a, h) = handle-dials c n r t e in
        let (named, header) = (authorized-Presents c r).0 a in
        let (host, port, target, entry) = (allowed-Target c r.host).0 h in
        (same, ((is_connect-eq r.method).0 m, named, header, host, port, target, entry))

    back : (t ≡ r.host) × Relayed c r → (handle c n r).1 ≡ some t
    back (same, (m, named, header, host, port, target, entry)) = rw same (
        dials-handle c n r ((is_connect-eq r.method).1 m)
          ((authorized-Presents c r).1 (named, header))
          ((allowed-Target c r.host).1 (host, port, target, entry)))
