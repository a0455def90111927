-- ===== src/Schedule/Arming.antt =====
-- internal/schedule and internal/tool/scheduletools: the next run of a schedule that is created, edited,
-- resumed or fired.
use tclaw.Base.{
  ℕ, ◌<◌, ◌≡◌, ◌⊎◌, ◌||◌, eqb, none, refl, sym, subst, String, false, not, ◌&&◌, Option, some, ok,
  arith, Bool-cases, Option-cases, inl, inr,
}
use tclaw.Schedule.{Schedule}
use tclaw.Schedule.Scheduler.{Cron, resolve_location, or_local, compute_next_run_from_time}
use tclaw.Schedule.Tools.{
  CreateArgs, EditArgs, one_shot, recurring, or_kept, zone_or_kept, is_given, described, edited,
  resumed, is_empty,
}
use tclaw.Schedule.Ops.{NoNext, Armed}

-- An answer of the library is a next run, or there is none.
next-Armed : (c : Cron) (expr zone : String) (t : ℕ) → (0 < c.next expr zone t) ⊎ NoNext c expr
next-Armed c expr zone t = elim (Bool-cases (eqb (c.next expr zone t) 0)) [
  | inl none_found ↦ inr (zone, t, ground arith)
  | inr found ↦ inl (ground arith)
]

module _ (c : Cron) where
  pub computed-Armed :
      (expr zone : String) (t : ℕ) → (0 < compute_next_run_from_time c expr t zone) ⊎ NoNext c expr
  unfolding compute_next_run_from_time
  computed-Armed expr zone t = elim (Bool-cases (c.parses expr)) [
    | inr bad ↦ rw bad (inl (omega arith))
    | inl good ↦ rw good (next-Armed c expr (or_local (resolve_location c zone)) t)
  ]

  one_shot-Armed :
      (a : CreateArgs) (id : String) (now : ℕ) (o : Option ℕ) (s : Schedule)
      → one_shot a id now o ≡ ok s
      → Armed c s
  one_shot-Armed a id now none s e = cc
  one_shot-Armed a id now (some run_at) s e = inl (ground (arith, e))

  recurring-Armed :
      (a : CreateArgs) (id : String) (now : ℕ) (s : Schedule)
      → recurring c a id now ≡ ok s
      → Armed c s
  recurring-Armed a id now s e = elim (Option-cases (resolve_location c a.timezone)) [
    | inl unknown ↦ absurd (ground (arith, e, unknown))
    | inr (loc, known) ↦
        let expr : s.cron_expr ≡ a.cron_expr = ground (arith, e, known) in
        let run : s.next_run_at ≡ c.next a.cron_expr loc now = ground (arith, e, known) in
        rw expr (rw run (next-Armed c a.cron_expr loc now))
  ]

  pub described-Armed :
      (parse_time : String → Option ℕ) (id : String) (now : ℕ) (a : CreateArgs) (s : Schedule)
      → described c parse_time id now a ≡ ok s
      → Armed c s
  unfolding described
  described-Armed parse_time id now a s e = elim (Bool-cases (is_empty a.run_at)) [
    | inl cron ↦ recurring-Armed a id now s (ground (arith, e, cron))
    | inr at ↦ one_shot-Armed a id now (parse_time a.run_at) s (ground (arith, e, at))
  ]

  pub edited-id : (now : ℕ) (a : EditArgs) (s : Schedule) → (edited c now a s).id ≡ s.id
  unfolding edited
  edited-id now a s = refl

  -- An expression that the edit lets through.
  pub edited-Armed :
      (now : ℕ) (a : EditArgs)
      → (not (is_empty a.cron_expr) && not (c.parses a.cron_expr)) ≡ false
      → (s : Schedule) → Armed c s
      → Armed c (edited c now a s)
  unfolding edited
  edited-Armed now a fine s armed =
      let expr = or_kept a.cron_expr s.cron_expr in
      let zone = or_local (resolve_location c (zone_or_kept a.timezone s.timezone)) in
      elim (Bool-cases ((not (is_empty a.cron_expr) || is_given a.timezone) && c.parses expr)) [
        | inl recomputed ↦ rw recomputed (next-Armed c expr zone now)
        | inr same ↦
            rw same
              (subst (λ x. (0 < s.next_run_at) ⊎ NoNext c x) (sym (kept_expr s same fine)) armed)
      ]
    where
      kept_expr :
          (s : Schedule)
          → ((not (is_empty a.cron_expr) || is_given a.timezone)
              && c.parses (or_kept a.cron_expr s.cron_expr))
            ≡ false
          → (not (is_empty a.cron_expr) && not (c.parses a.cron_expr)) ≡ false
          → or_kept a.cron_expr s.cron_expr ≡ s.cron_expr
      kept_expr s same fine = elim (Bool-cases (is_empty a.cron_expr)) [
        | inl none_given ↦ rw none_given refl
        | inr given ↦ absurd (ground (arith, same, fine, given))
      ]

  pub resumed-Armed : (now : ℕ) (s : Schedule) → Armed c s → Armed c (resumed c now s)
  unfolding resumed
  resumed-Armed now s armed = elim (Bool-cases (c.parses s.cron_expr)) [
    | inl good ↦ rw good (next-Armed c s.cron_expr "" now)
    | inr bad ↦ rw bad armed
  ]
