-- ===== src/Schedule/Firing.antt =====
-- internal/schedule/scheduler.go: which messages one pass of `fireReadySchedules` sends, and what it
-- leaves in the store.
use tclaw.Base.{
  ℕ, ◌≡◌, refl, ap, Bool, true, Option, none, some, List, [], ◌∷◌, ◌++◌, if◌then◌else◌, All,
  Bool-cases, Option-cases, inl, inr,
}
use tclaw.Base.Collections.{Stored}
use tclaw.Channel.{TaggedMessage}
use tclaw.Schedule.{Schedule}
use tclaw.Schedule.Scheduler.{
  Cron, Channels, Turn, resolve_channel, is_due, message_of, ran, advanced, settle_fired,
  advance_after_failed_resolve, fire_each,
}

module _ (c : Cron) (env : Schedule → Turn) (now : ℕ) (channels : Option Channels) where
  abbrev pub due : Schedule → Bool
  due s = is_due c now (env s).clock s

  -- The messages of the due schedules whose channel is there, in the order of the schedules.
  abbrev pub due_messages : List Schedule → List TaggedMessage
  due_messages [] = []
  due_messages (s ∷ schedules) =
      let later = due_messages schedules in
      if due s
      then elim (resolve_channel channels s.channel_name) [
        | none ↦ later
        | some id ↦ message_of id s ∷ later
      ]
      else later

  -- What becomes of one schedule in a pass: a due one-shot is gone, and another due one has a new
  -- next run, and a last run if it was sent.
  abbrev pub settled : Schedule → List Schedule
  settled s =
      if due s
      then (if s.once then [] else elim (resolve_channel channels s.channel_name) [
        | none ↦ advanced c now s ∷ []
        | some id ↦ ran c now s ∷ []
      ])
      else s ∷ []

  abbrev pub all_settled : List Schedule → List Schedule
  all_settled [] = []
  all_settled (s ∷ schedules) = settled s ++ all_settled schedules

  -- One pass sends, whatever fails in the store and whatever it holds, the messages of the due
  -- schedules whose channel is there, each once and in order; all of them, unless the context ends
  -- while one waits to be taken, and then those before it.
  pub fire_each-Sends :
      (store : Stored Schedule) (schedules : List Schedule)
      → let sent = (fire_each c env now channels store schedules).1 in
        (unsent : List TaggedMessage) × (due_messages schedules ≡ sent ++ unsent)
        × (All (λ s. (env s).taken ≡ true) schedules → unsent ≡ [])
  unfolding fire_each
  fire_each-Sends store [] = ([], refl, λ h. refl)
  fire_each-Sends store (s ∷ schedules) = elim (Bool-cases (due s)) [
    | inr early ↦
        rw early (let rest = fire_each-Sends store schedules in (rest.0, rest.1, λ h. rest.2 h.1))
    | inl late ↦ elim (Option-cases (resolve_channel channels s.channel_name)) [
      | inl lost ↦ rw late (
          rw lost (
            let store' = advance_after_failed_resolve c (env s).faults now s store in
            let rest = fire_each-Sends store' schedules in (rest.0, rest.1, λ h. rest.2 h.1)))
      | inr (id, there) ↦ elim (Bool-cases (env s).taken) [
        | inl taken ↦ rw late (
            rw there (
              rw taken (
                let store' = settle_fired c (env s).faults now s store in
                let rest = fire_each-Sends store' schedules in
                (rest.0, ap (◌∷◌ (message_of id s)) rest.1, λ h. rest.2 h.1))))
        | inr cut ↦
            rw late (rw there (rw cut (message_of id s ∷ due_messages schedules, refl, λ h. cc)))
      ]
    ]
  ]
