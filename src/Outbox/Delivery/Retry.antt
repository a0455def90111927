-- ===== src/Outbox/Delivery/Retry.antt =====
-- internal/channel/outbox/outbox.go: the ends of `deliver`, its attempts and its waits.
use native.Mathlib.Nat.{pow-suc}
use tclaw.Base.{
  ℕ, zero, suc, ◌^◌, ◌≤◌, ◌≡◌, refl, ap, min, String, true, none, List, [], ◌∷◌, length,
  Option-cases, inl, inr, ◌⊎◌, ◌≢◌, Bool-cases, arith,
}
use tclaw.Outbox.{Op, ChannelQueue, is_permanent_error, is_skippable_error}
use tclaw.Outbox.Delivery.{
  Reply, accepted, refused, Attempt, Call, Fate, delivered, no_channel, unresolved, requeued,
  discarded_permanent, skipped, exhausted, Delivery, max_retries, max_delay, next_delay, call_of,
  accept, requeue, after_refusal, attempts, deliver, ends, behind,
}

-- The i-th wait: 1, 2, 4, … seconds, but at most 30.
abbrev pub backoff : ℕ → ℕ
backoff i = min (2 ^ i) max_delay

abbrev pub backoffs : ℕ → ℕ → List ℕ
backoffs i zero = []
backoffs i (suc n) = backoff i ∷ backoffs (suc i) n

next_delay-backoff : (i : ℕ) → next_delay (backoff i) ≡ backoff (suc i)
unfolding next_delay
next_delay-backoff i = ground (arith, pow-suc 2 i)

-- The queue that a delivery leaves and the reason for it, by its fate.
abbrev pub LeftBehind : (ℕ → Attempt) → ChannelQueue → Op → Delivery → Type 0
LeftBehind att cq op d = elim d.fate [
  | delivered ↦
      (k : ℕ) × (real_id : String) × ((att k).reply ≡ accepted real_id)
      × (d.queue ≡ accept cq op real_id)
  | no_channel ↦ d.queue ≡ cq
  | unresolved ↦ (d.queue ≡ cq) × (call_of cq op ≡ none)
  | requeued ↦
      (k : ℕ) × (((att k).stopped ≡ true) ⊎ ((att k).stopped_waiting ≡ true))
      × (d.queue ≡ requeue cq op)
  | discarded_permanent ↦
      (k : ℕ) × (msg : String) × ((att k).reply ≡ refused msg)
      × (is_permanent_error msg ≡ true)
      × (d.queue ≡ cq)
  | skipped ↦
      (k : ℕ) × (msg : String) × ((att k).reply ≡ refused msg)
      × (is_skippable_error msg ≡ true)
      × (d.queue ≡ cq)
  | exhausted ↦ d.queue ≡ cq
]

-- The record of a run of the loop with `n` attempts left, from attempt `i` on.
pub record Tried (att : ℕ → Attempt) (n i : ℕ) (cq : ChannelQueue) (op : Op) (d : Delivery)
    : Type 0 where
  pub left : LeftBehind att cq op d
  pub bounded : length d.calls ≤ n
  pub backs_off : d.waits ≡ backoffs i (length d.waits)
  pub waits_between : length d.waits ≤ length d.calls
  pub all_used : d.fate ≡ exhausted → length d.calls ≡ n

module _ (att : ℕ → Attempt) (n i : ℕ) (cq : ChannelQueue) (op : Op) where
  -- The loop ends in this attempt, before or in the wait behind it.
  ended_here :
      (q : ChannelQueue) (fate : Fate) (call : Call)
      → fate ≢ exhausted
      → LeftBehind att cq op (ends q fate (call ∷ []) [])
      → Tried att (suc n) i cq op (ends q fate (call ∷ []) [])
  ended_here q fate call more l = record {
    left = l;
    bounded = omega arith;
    backs_off = refl;
    waits_between = omega arith;
    all_used = λ x. absurd (more x);
  }

  ended_waiting :
      (q : ChannelQueue) (fate : Fate) (call : Call)
      → fate ≢ exhausted
      → LeftBehind att cq op (ends q fate (call ∷ []) (backoff i ∷ []))
      → Tried att (suc n) i cq op (ends q fate (call ∷ []) (backoff i ∷ []))
  ended_waiting q fate call more l = record {
    left = l;
    bounded = omega arith;
    backs_off = refl;
    waits_between = omega arith;
    all_used = λ x. absurd (more x);
  }

  behind-Tried :
      (call : Call) (later : Delivery)
      → Tried att n (suc i) cq op later
      → Tried att (suc n) i cq op (behind call (backoff i) later)
  behind-Tried call later t = record {
    left = t.left;
    bounded = omega arith;
    backs_off = ap (◌∷◌ (backoff i)) t.backs_off;
    waits_between = omega arith;
    all_used = λ x. omega (arith, t.all_used x);
  }

  after_refusal-Tried :
      (msg : String) (call : Call) (later : Delivery)
      → (att i).reply ≡ refused msg
      → Tried att n (suc i) cq op later
      → Tried att (suc n) i cq op (after_refusal (att i) msg call (backoff i) cq op later)
  unfolding after_refusal
  after_refusal-Tried msg call later e t = elim (Bool-cases (att i).stopped) [
    | inl stopped ↦
        rw stopped (ended_here (requeue cq op) requeued call (λ x. cc) (i, inl stopped, refl))
    | inr running ↦ rw running (elim (Bool-cases (is_permanent_error msg)) [
      | inl permanent ↦
          rw permanent
            (ended_here cq discarded_permanent call (λ x. cc) (i, msg, e, permanent, refl))
      | inr transient ↦ rw transient (elim (Bool-cases (is_skippable_error msg)) [
        | inl needless ↦
            rw needless (ended_here cq skipped call (λ x. cc) (i, msg, e, needless, refl))
        | inr needed ↦ rw needed (elim (Bool-cases (att i).stopped_waiting) [
          | inl cut ↦
              rw cut (ended_waiting (requeue cq op) requeued call (λ x. cc) (i, inr cut, refl))
          | inr waited ↦ rw waited (behind-Tried call later t)
        ])
      ])
    ])
  ]

Reply-cases :
    (r : Reply)
    → ((real_id : String) × (r ≡ accepted real_id)) ⊎ ((msg : String) × (r ≡ refused msg))
Reply-cases (accepted real_id) = inl (real_id, refl)
Reply-cases (refused msg) = inr (msg, refl)

attempts-Tried :
    (att : ℕ → Attempt) (n i : ℕ) (cq : ChannelQueue) (op : Op)
    → Tried att n i cq op (attempts att n i (backoff i) cq op)
unfolding attempts
attempts-Tried att zero i cq op = ground arith
attempts-Tried att (suc n) i cq op = elim (Option-cases (call_of cq op)) [
  | inl e ↦
      rw (e, attempts)
        (record {
          left = (refl, e);
          bounded = omega arith;
          backs_off = refl;
          waits_between = omega arith;
          all_used = λ x. cc;
        })
  | inr (call, e) ↦
      rw (e, attempts)
        (elim (Reply-cases (att i).reply) [
          | inl (real_id, r) ↦ rw r (
              ended_here att n i cq op (accept cq op real_id) delivered call (λ x. cc)
                (i, real_id, r, refl))
          | inr (msg, r) ↦
              rw (r, next_delay-backoff i)
                (after_refusal-Tried att n i cq op msg call
                  (attempts att n (suc i) (backoff (suc i)) cq op) r
                  (attempts-Tried att n (suc i) cq op))
        ])
]

-- `deliver` with a channel that exists always ends, after at most 51 calls of the transport and
-- with waits of 1, 2, 4, 8, 16 and then 30 seconds between them. It drops an operation only for a
-- reply that accepts it, for a permanent or skippable error in a reply, for an edit whose message
-- has no real id, or after 51 calls; it is put back at the head of the queue only on shutdown;
-- and apart from that, and the id of an accepted send, the queue is untouched.
pub deliver-Tried :
    (att : ℕ → Attempt) (cq : ChannelQueue) (op : Op)
    → Tried att (suc max_retries) 0 cq op (deliver true att cq op)
unfolding deliver
deliver-Tried att cq op = attempts-Tried att (suc max_retries) 0 cq op
