-- ===== src/Patterns/Scheduler/Journey.antt =====
-- scheduler.py: a message goes round through `_forward` and the rungs until it is at its target.
use acemq_python_amqp.Prelude.{
  ℕ, zero, suc, ◌+◌, ◌*◌, ◌≤◌, ◌<◌, ◌≡◌, refl, Bool-cases, true, false, Option, none, some, List,
  [], ◌∷◌, ok, arith, inl, inr,
}
use acemq_python_amqp.Prelude.Int.{
  ℤ, pos, pos_part, ltb_ℤ, ◌≤ℤ◌, ◌+ℤ◌, ◌-ℤ◌, +ℤ_parts, -ℤ_parts, parts_cases,
}
use acemq_python_amqp.Dict.{Dict, get}
use acemq_python_amqp.Headers.{HeaderValue, Interpreter, or_absent}
use acemq_python_amqp.Envelope.{Instant}
use acemq_python_amqp.Retry.{Duration}
use acemq_python_amqp.Ack.{Failure}
use acemq_python_amqp.Ack.Answers as answers
use acemq_python_amqp.Consumer.Effects.{Bytes}
use acemq_python_amqp.Patterns.Scheduler.{
  Sent, Scheduler, send, hop, after_delivery, deliver, route, forward_at, forward_due, forward,
  unscheduled, due_at_header, shortest_rung, schedule_rungs, first_rung, number,
}
use acemq_python_amqp.Patterns.Scheduler.Ladder.{first_rung_longest}
use acemq_python_amqp.Patterns.Scheduler.Kept.{on_rung, for_target}

-- A broker and a scheduler that are never late.
abbrev pub no_delay : ℕ → ℕ
no_delay n = 0

abbrev pub total : List Duration → ℕ
total [] = 0
total (rung ∷ rungs) = pos_part rung + total rungs

-- What is left of a delay after a rung of a second or more, and some lateness.
spent :
    (when now rung : Duration) (l : ℕ)
    → shortest_rung ≤ℤ rung
    → rung ≤ℤ when -ℤ now
    → (pos_part (when -ℤ (now +ℤ rung +ℤ pos l)) + pos_part rung ≤ pos_part (when -ℤ now))
      × (l ≡ 0 → pos_part (when -ℤ (now +ℤ rung +ℤ pos l)) + pos_part rung ≡ pos_part (when -ℤ now))
      × (1000000 ≤ pos_part rung)
spent when now rung l least fits =
    let then_now = now +ℤ rung +ℤ pos l in
    let one = -ℤ_parts when now in
    let two = -ℤ_parts when then_now in
    let three = +ℤ_parts now rung in
    let four = +ℤ_parts (now +ℤ rung) (pos l) in
    let c0 = parts_cases rung in
    let c1 = parts_cases (when -ℤ now) in
    let c2 = parts_cases (when -ℤ then_now) in (omega arith, λ on_time. omega arith, omega arith)

module _ (py : Interpreter) (publish : List (Sent × Option Failure) → Sent → Option Failure)
    (body : Bytes) (headers : Dict HeaderValue) (late : ℕ → ℕ) where
  -- A scheduled message that is on the control queue at an instant: `_forward` accepts it and it is at
  -- its target; or `_forward` accepts it and it is on a rung, from which it comes back to the control
  -- queue when the rung has expired, `late n` microseconds late, with `n` hops left.
  pub data Delivers : ℕ → Instant → Scheduler → List Duration → Scheduler → Type 0 where
    arrives :
        {n : ℕ} {now : Instant} {s s' : Scheduler}
        → forward py now publish body headers s ≡ (ok answers.accept, s')
        → s'.sent ≡ (for_target py body headers, none) ∷ s.sent
        → s'.delivered ≡ suc s.delivered
        → Delivers n now s [] s'
    waits :
        {n : ℕ} {now : Instant} {s s' s'' : Scheduler} {rungs : List Duration} (rung : Duration)
        → forward py now publish body headers s ≡ (ok answers.accept, s')
        → s'.sent ≡ (on_rung py body headers rung, none) ∷ s.sent
        → Delivers n (now +ℤ rung +ℤ pos (late n)) s' rungs s''
        → Delivers (suc n) now s (rung ∷ rungs) s''

  module _ (taken : (t : List (Sent × Option Failure)) (m : Sent) → publish t m ≡ none)
      (ours : unscheduled headers ≡ false) (millis : ℤ) (when : Instant)
      (due_at : number py (or_absent (get due_at_header headers)) ≡ ok millis)
      (reached : py.from_millis millis ≡ some when) where
    forward_early :
        (now : Instant) (s : Scheduler)
        → ltb_ℤ (when -ℤ now) shortest_rung ≡ false
        → forward py now publish body headers s ≡ (
          ok answers.accept,
          record s {
            hops = suc s.hops;
            sent =
                (on_rung py body headers (first_rung schedule_rungs (when -ℤ now)), none) ∷ s.sent;
          },
        )
    unfolding forward forward_due forward_at route hop send
    forward_early now s early =
        let rung = first_rung schedule_rungs (when -ℤ now) in
        rw (ours, due_at)
          (rw reached (rw early (rw (taken s.sent (on_rung py body headers rung)) refl)))

    forward_late :
        (now : Instant) (s : Scheduler)
        → ltb_ℤ (when -ℤ now) shortest_rung ≡ true
        → forward py now publish body headers s ≡ (
          ok answers.accept,
          record s {
            delivered = suc s.delivered;
            sent = (for_target py body headers, none) ∷ s.sent;
          },
        )
    unfolding forward forward_due forward_at route deliver after_delivery send
    forward_late now s due =
        rw (ours, due_at)
          (rw reached (rw due (rw (taken s.sent (for_target py body headers)) refl)))

    -- A scheduled message gets to its target, with a broker that takes every publish and whatever the
    -- lateness of each rung: `_forward` sends it through finitely many rungs, no more than what remains
    -- of its delay has seconds and one, and then to the target its headers name, once; the rungs hold
    -- it for no longer than what remains; and if nothing is late, for all of it but less than a second.
    pub journey_in_time :
        (n : ℕ) (now : Instant) (s : Scheduler)
        → pos_part (when -ℤ now) < n * 1000000
        → (rungs : List Duration) × (s' : Scheduler) × Delivers n now s rungs s'
          × (s'.delivered ≡ suc s.delivered)
          × (total rungs ≤ pos_part (when -ℤ now))
          × (((k : ℕ) → late k ≡ 0) → pos_part (when -ℤ now) < total rungs + 1000000)
    journey_in_time zero now s h = absurd (omega arith)
    journey_in_time (suc n) now s h = elim (Bool-cases (ltb_ℤ (when -ℤ now) shortest_rung)) [
      | inl due ↦ (
        [],
        record s {
          delivered = suc s.delivered;
          sent = (for_target py body headers, none) ∷ s.sent;
        },
        arrives (forward_late now s due) refl refl,
        refl,
        omega arith,
        λ on_time. ground arith,
      )
      | inr early ↦
          let rung = first_rung schedule_rungs (when -ℤ now) in
          let (least, fits, none_between) = first_rung_longest (when -ℤ now) (ground arith) in
          let (less, exact, second) = spent when now rung (late n) least fits in
          let s₁ : Scheduler = record s {
            hops = suc s.hops;
            sent = (on_rung py body headers rung, none) ∷ s.sent;
          } in
          let (rungs, s₂, rest, done, within, all) =
            journey_in_time n (now +ℤ rung +ℤ pos (late n)) s₁ (omega arith) in
          (
            rung ∷ rungs,
            s₂,
            waits rung (forward_early now s early) refl rest,
            done,
            omega arith,
            λ on_time. let a = all on_time in let z = exact (on_time n) in omega arith,
          )
    ]
