-- ===== src/Egress/Targets.antt =====
-- egress/main.go: `net.SplitHostPort` splits exactly the targets of the form host:port.
use tclaw.Base.{
  ◌≡◌, ◌↔◌, refl, subst, ap, false, ◌||◌, none, some, [], ◌∷◌, ◌++◌, eqb, Bytes, arith, Bool-cases,
  Option-cases, inl, inr,
}
use tclaw.Egress.{occurs, last_colon, closed, host_of, with_port, host_and_port, split_host_port}

-- A host without colons, or an address in brackets, and a port.
pub data Target : (target host port : Bytes) → Type 0 where
  plain :
      (host port : Bytes)
      → (occurs 58 host || (occurs 91 host || occurs 93 host)) ≡ false
      → (occurs 58 port || (occurs 91 port || occurs 93 port)) ≡ false
      → Target (host ++ (58 ∷ port)) host port
  bracketed :
      (host port : Bytes)
      → (occurs 91 host || occurs 93 host) ≡ false
      → (occurs 58 port || (occurs 91 port || occurs 93 port)) ≡ false
      → Target ((91 ∷ host ++ (93 ∷ [])) ++ (58 ∷ port)) host port

last_colon-none : (s : Bytes) → last_colon s ≡ none → occurs 58 s ≡ false
unfolding last_colon
last_colon-none [] e = refl
last_colon-none (c ∷ s) e = elim (Option-cases (last_colon s)) [
  | inl none_later ↦ ground (arith, last_colon-none s, e, none_later)
  | inr (found, x) ↦ absurd (ground (arith, e, x))
]

last_colon_of_none : (s : Bytes) → occurs 58 s ≡ false → last_colon s ≡ none
unfolding last_colon
last_colon_of_none [] e = refl
last_colon_of_none (c ∷ s) e =
    let later = last_colon_of_none s (ground (arith, e)) in rw later (ground (arith, e))

last_colon-splits :
    (s before port : Bytes)
    → last_colon s ≡ some (before, port)
    → (s ≡ before ++ (58 ∷ port)) × (occurs 58 port ≡ false)
unfolding last_colon
last_colon-splits [] before port e = cc
last_colon-splits (c ∷ s) before port e = elim (Option-cases (last_colon s)) [
  | inl none_later ↦ elim (Bool-cases (eqb c 58)) [
    | inl colon ↦
        let shape : last_colon (c ∷ s) ≡ some ([], s) = rw none_later (rw colon refl) in
        let same : (before ≡ []) × (port ≡ s) = ground (arith, e, shape) in
        rw same.0
          (rw same.1 (ap (λ d. d ∷ s) (ground (arith, colon)), last_colon-none s none_later))
    | inr char ↦ absurd (ground (arith, e, none_later, char))
  ]
  | inr ((b, p), x) ↦
      let shape : last_colon (c ∷ s) ≡ some (c ∷ b, p) = rw (x, last_colon) refl in
      let same : (before ≡ c ∷ b) × (port ≡ p) = ground (arith, e, shape) in
      let ih = last_colon-splits s b p x in rw same.0 (rw same.1 (ap (◌∷◌ c) ih.0, ih.1))
]

last_colon_of_split :
    (before port : Bytes)
    → occurs 58 port ≡ false
    → last_colon (before ++ (58 ∷ port)) ≡ some (before, port)
unfolding last_colon
last_colon_of_split [] port e = rw (last_colon_of_none port e) refl
last_colon_of_split (c ∷ before) port e = rw (last_colon_of_split before port e) refl

closed-splits :
    (s host : Bytes) → closed s ≡ some host → (s ≡ host ++ (93 ∷ [])) × (occurs 93 host ≡ false)
unfolding closed
closed-splits [] host e = cc
closed-splits (c ∷ []) host e = elim (Bool-cases (eqb c 93)) [
  | inl close ↦
      let same : host ≡ [] = ground (arith, e, close) in
      rw same (ap (λ d. d ∷ []) (ground (arith, close)), refl)
  | inr char ↦ absurd (ground (arith, e, char))
]
closed-splits (c ∷ d ∷ s) host e = elim (Bool-cases (eqb c 93)) [
  | inl close ↦ absurd (ground (arith, e, close))
  | inr char ↦ elim (Option-cases (closed (d ∷ s))) [
    | inl unclosed ↦ absurd (ground (arith, e, char, unclosed))
    | inr (h, x) ↦
        let same : host ≡ c ∷ h = ground (arith, e, char, x) in
        let ih = closed-splits (d ∷ s) h x in rw same (ap (◌∷◌ c) ih.0, ground (arith, ih.1, char))
  ]
]

closed_of_split : (host : Bytes) → occurs 93 host ≡ false → closed (host ++ (93 ∷ [])) ≡ some host
unfolding closed
closed_of_split [] e = refl
closed_of_split (c ∷ []) e = ground (arith, e)
closed_of_split (c ∷ d ∷ host) e =
    rw (closed_of_split (d ∷ host) (ground (arith, e))) (ground (arith, e))

split_host_port_of_target :
    {target host port : Bytes}
    → Target target host port
    → split_host_port target ≡ some (host, port)
unfolding split_host_port
split_host_port_of_target (plain [] port no_h no_p) =
    rw (last_colon_of_split [] port (ground (arith, no_p))) (ground (arith, no_p))
split_host_port_of_target (plain (c ∷ host) port no_h no_p) =
    rw (last_colon_of_split (c ∷ host) port (ground (arith, no_p))) (ground (arith, no_h, no_p))
split_host_port_of_target (bracketed host port no_h no_p) =
    rw (last_colon_of_split (91 ∷ host ++ (93 ∷ [])) port (ground (arith, no_p)))
      (rw (closed_of_split host (ground (arith, no_h))) (ground (arith, no_h, no_p)))

plain-Target :
    (h port host port' : Bytes)
    → (occurs 58 h || (occurs 91 h || occurs 93 h)) ≡ false
    → occurs 58 port ≡ false
    → with_port port (some h) ≡ some (host, port')
    → Target (h ++ (58 ∷ port)) host port'
plain-Target h port host port' clean no_colon e =
    let no_p : (occurs 91 port || occurs 93 port) ≡ false = ground (arith, e) in
    let same : (host ≡ h) × (port' ≡ port) = ground (arith, e) in
    rw same.0 (rw same.1 (plain h port clean (rw no_colon no_p)))

bracketed-Target :
    (h port host port' : Bytes)
    → (occurs 91 h || occurs 93 h) ≡ false
    → occurs 58 port ≡ false
    → with_port port (some h) ≡ some (host, port')
    → Target ((91 ∷ h ++ (93 ∷ [])) ++ (58 ∷ port)) host port'
bracketed-Target h port host port' clean no_colon e =
    let no_p : (occurs 91 port || occurs 93 port) ≡ false = ground (arith, e) in
    let same : (host ≡ h) × (port' ≡ port) = ground (arith, e) in
    rw same.0 (rw same.1 (bracketed h port clean (rw no_colon no_p)))

host_of-Target :
    (before port host port' : Bytes)
    → occurs 58 port ≡ false
    → with_port port (host_of before) ≡ some (host, port')
    → Target (before ++ (58 ∷ port)) host port'
host_of-Target [] port host port' no_colon e = plain-Target [] port host port' refl no_colon e
host_of-Target (c ∷ s) port host port' no_colon e = elim (Bool-cases (eqb c 91)) [
  | inr char ↦ elim (Bool-cases (occurs 58 (c ∷ s) || (occurs 91 (c ∷ s) || occurs 93 (c ∷ s)))) [
    | inl stray ↦
        let read : host_of (c ∷ s) ≡ none = ground (arith, char, stray) in
        absurd (ground (arith, subst (λ o. with_port port o ≡ some (host, port')) read e))
    | inr clean ↦
        let read : host_of (c ∷ s) ≡ some (c ∷ s) = ground (arith, char, clean) in
        plain-Target (c ∷ s) port host port' clean no_colon
          (subst (λ o. with_port port o ≡ some (host, port')) read e)
  ]
  | inl bracket ↦ elim (Option-cases (closed s)) [
    | inl unclosed ↦
        let read : host_of (c ∷ s) ≡ none = ground (arith, bracket, unclosed) in
        absurd (ground (arith, subst (λ o. with_port port o ≡ some (host, port')) read e))
    | inr (h, x) ↦ elim (Bool-cases (occurs 91 h)) [
      | inl nested ↦
          let read : host_of (c ∷ s) ≡ none = ground (arith, bracket, x, nested) in
          absurd (ground (arith, subst (λ o. with_port port o ≡ some (host, port')) read e))
      | inr clean ↦
          let read : host_of (c ∷ s) ≡ some h = ground (arith, bracket, x, clean) in
          let (ends, no_close) = closed-splits s h x in
          let opens : c ≡ 91 = ground (arith, bracket) in
          rw opens (
            rw ends (
              bracketed-Target h port host port' (ground (arith, clean, no_close)) no_colon
                (subst (λ o. with_port port o ≡ some (host, port')) read e)))
    ]
  ]
]

pub split_host_port-Target :
    (target host port : Bytes)
    → (split_host_port target ≡ some (host, port)) ↔ Target target host port
unfolding split_host_port
split_host_port-Target target host port = (forth, split_host_port_of_target)
  where
    forth : host_and_port (last_colon target) ≡ some (host, port) → Target target host port
    forth e = elim (Option-cases (last_colon target)) [
      | inl no_port ↦ absurd (ground (arith, e, no_port))
      | inr ((before, port'), x) ↦
          let (same, no_colon) = last_colon-splits target before port' x in
          rw same (host_of-Target before port' host port no_colon (rw (x, host_and_port) at e))
    ]
