-- ===== src/DevSessions/Scope.antt =====
-- internal/dev/store.go: a dev tool in one channel never acts on the session of another.
use tclaw.Base.{
  ◌≡◌, ◌↔◌, ◌⊎◌, inl, inr, refl, String, Bool, true, false, Option, none, some, [], ◌∷◌, Dict,
  lookup, ok, ◌==◌, arith, keep-All, All, subst, Bool-cases, eq_iff,
}
use tclaw.Base.Collections.{Faults}
use tclaw.DevSessions.{
  Session, Sessions, ResolveParams, session_in_scope, scoped, if_in_scope, only_one, resolve_in,
  list_sessions, resolve_session,
}

-- The channel may act on a session that names no channel, or that channel; and a call from no
-- channel may act on every session.
abbrev pub OwnsOrFree : String → Session → Type 0
OwnsOrFree channel sess =
    (channel ≡ "") ⊎ ((sess.created_by_channel ≡ "") ⊎ (sess.created_by_channel ≡ channel))

-- The session that a tool means: the one it names, if the channel may act on it; or, if it names
-- none, the only one that the channel may act on.
abbrev pub Meant : Dict Session → ResolveParams → Session → Type 0
Meant sessions p sess =
    OwnsOrFree p.channel sess
    × ((((p.session == "") ≡ false) × (lookup p.session sessions ≡ some sess))
        ⊎ (((p.session == "") ≡ true)
            × ((branch : String) × (scoped p.channel sessions ≡ (branch, sess) ∷ []))))

in_scope-OwnsOrFree :
    (sess : Session) (channel : String)
    → (session_in_scope sess channel ≡ true) ↔ OwnsOrFree channel sess
unfolding session_in_scope
in_scope-OwnsOrFree sess channel =
    let a = eq_iff channel "" in
    let b = eq_iff sess.created_by_channel "" in
    let c = eq_iff sess.created_by_channel channel in
    ((λ h. ground (arith, a, b, c)), (λ h. ground (arith, a, b, c)))

if_in_scope-ok :
    (channel : String) (o : Option Session) (sess : Session)
    → (if_in_scope channel o ≡ ok sess) ↔ ((o ≡ some sess) × (session_in_scope sess channel ≡ true))
if_in_scope-ok channel none sess = ((λ e. cc), (λ h. cc))
if_in_scope-ok channel (some found) sess = ((λ e. ground arith), (λ h. ground arith))

only_one-ok :
    (ds : Dict Session) (sess : Session)
    → (only_one ds ≡ ok sess) ↔ ((branch : String) × (ds ≡ (branch, sess) ∷ []))
only_one-ok [] sess = ((λ e. cc), (λ h. absurd (no_nil h.0 h.1)))
  where
    no_nil : (b : String) → ◌≡◌ {A = Dict Session} [] ((b, sess) ∷ []) → ⊥
    no_nil b e = cc
only_one-ok ((b, found) ∷ []) sess = ((λ e. (b, ground arith)), (λ h. ground (arith, h.1)))
only_one-ok (e ∷ d ∷ more) sess = ((λ q. cc), (λ h. cc (h.1)))

scoped_one :
    (channel branch : String) (sess : Session) (sessions : Dict Session)
    → scoped channel sessions ≡ (branch, sess) ∷ []
    → session_in_scope sess channel ≡ true
scoped_one channel branch sess sessions e =
    let test : String × Session → Bool = λ x. session_in_scope x.1 channel in
    let all = subst (All (λ x. test x ≡ true)) e (keep-All test sessions) in all.0

nothing-Meant : (p : ResolveParams) (sess : Session) → Meant [] p sess → ⊥
unfolding lookup
nothing-Meant p sess (own, inl (given, found)) = cc
nothing-Meant p sess (own, inr (none_named, (branch, e))) = cc

-- From a store that can be read, a dev tool resolves to a session exactly if that is the one it
-- means: the session it names, or the only one in its scope if it names none; and in either case the
-- session was started from the same channel, or from none, or the call comes from none.
pub resolve_session-Meant :
    (f : Faults) (s : Sessions) (p : ResolveParams) (sessions : Dict Session) (sess : Session)
    → list_sessions f s ≡ ok sessions
    → (resolve_session f s p ≡ ok sess) ↔ Meant sessions p sess
unfolding resolve_session
resolve_session-Meant f s p sessions sess read = rw read (by_sessions sessions)
  where
    named :
        (sessions' : Dict Session)
        → (if_in_scope p.channel (lookup p.session sessions') ≡ ok sess)
          ↔ (OwnsOrFree p.channel sess × (lookup p.session sessions' ≡ some sess))
    named sessions' =
        let own = in_scope-OwnsOrFree sess p.channel in
        let here = if_in_scope-ok p.channel (lookup p.session sessions') sess in
        ((λ e. (own.0 (here.0 e).1, (here.0 e).0)), (λ h. here.1 (h.1, own.1 h.0)))

    unnamed :
        (sessions' : Dict Session)
        → (only_one (scoped p.channel sessions') ≡ ok sess) ↔ (
            OwnsOrFree p.channel sess
            × ((branch : String) × (scoped p.channel sessions' ≡ (branch, sess) ∷ [])))
    unnamed sessions' =
        let own = in_scope-OwnsOrFree sess p.channel in
        let here = only_one-ok (scoped p.channel sessions') sess in
        (
          (λ e.
              let one = here.0 e in (own.0 (scoped_one p.channel one.0 sess sessions' one.1), one)),
          (λ h. here.1 h.1),
        )

    by_sessions : (ss : Dict Session) → (resolve_in p (ok ss) ≡ ok sess) ↔ Meant ss p sess
    by_sessions [] = ((λ e. cc), (λ h. absurd (nothing-Meant p sess h)))
    by_sessions (e ∷ ss) = elim (Bool-cases (p.session == "")) [
      | inl none_named ↦ rw none_named (
          let u = unnamed (e ∷ ss) in
          ((λ q. ((u.0 q).0, inr (refl, (u.0 q).1))), (λ h. u.1 (h.0, ground arith))))
      | inr given ↦ rw given (
          let n = named (e ∷ ss) in
          ((λ q. ((n.0 q).0, inl (refl, (n.0 q).1))), (λ h. n.1 (h.0, ground arith))))
    ]
