-- ===== src/Retry/Waits.antt =====
-- retry.py: what `next_wait` answers.
use acemq_python_amqp.Prelude.{
  ◌-◌, ◌≡◌, ◌↔◌, ◌⊎◌, Bool-cases, true, false, ◌&&◌, some, none, List, ok, >>=-eq-ok, arith, inl,
  inr,
}
use acemq_python_amqp.Prelude.Int.{ℤ, pos, pos_part, ◌≤ℤ◌, ◌<ℤ◌, leb_ℤ, ltb_ℤ}
use acemq_python_amqp.Retry.{
  Duration, zero_duration, FloatTime, RetryPolicy, Wait, waits_in_broker, contains, place_wait,
  consumer_wait, schedule, broker_rungs, unjittered, next_wait,
}
use acemq_python_amqp.Retry.Schedule.{KeepsGrowing, unjittered-eq-schedule}
use acemq_python_amqp.Retry.Rungs.{broker_rungs-exact, contains-get_elem?}

-- The policy lets no further attempt follow `attempt` of a message of this age.
abbrev pub GivesUp : {F : Type 0} → RetryPolicy F → ℤ → Duration → Type 0
GivesUp p attempt age =
    (p.max_attempts ≤ℤ attempt)
    ⊎ ((zero_duration <ℤ p.max_message_age) × (p.max_message_age ≤ℤ age))

module _ (ft : FloatTime) (p : RetryPolicy ft.Float) (random : ft.Float) where
  consumer_wait-ne-none : (d : Duration) → consumer_wait ft p random d ≡ ok none → ⊥
  unfolding consumer_wait
  consumer_wait-ne-none d h = ground arith

  place_wait-ne-none : (d : Duration) → place_wait ft p random d ≡ ok none → ⊥
  unfolding place_wait
  place_wait-ne-none d h = ground (arith, consumer_wait-ne-none d)

  consumer_wait_place :
      (d : Duration) {w : Wait}
      → consumer_wait ft p random d ≡ ok (some w)
      → (w.in_broker ≡ false) × (zero_duration ≤ℤ w.delay)
  unfolding consumer_wait
  consumer_wait_place d h = ground arith

  place_wait_cases :
      (d : Duration) {w : Wait}
      → place_wait ft p random d ≡ ok (some w)
      → (waits_in_broker p d ≡ true) × (w.in_broker ≡ true) × (w.delay ≡ d)
        ⊎ (waits_in_broker p d ≡ false) × (w.in_broker ≡ false) × (zero_duration ≤ℤ w.delay)
  unfolding place_wait
  place_wait_cases d h = elim (Bool-cases (waits_in_broker p d)) [
    | inl far ↦ let q = rw far at h in inl (far, cc, cc)
    | inr near ↦ let q = consumer_wait_place d (rw near at h) in inr (near, q.0, q.1)
  ]

  -- What a `next_wait` that goes on has computed.
  next_wait-eq-some :
      (attempt : ℤ) (age : Duration) {w : Wait}
      → next_wait ft p random attempt age ≡ ok (some w)
      → (¬ GivesUp p attempt age)
        × (d : Duration) × (unjittered ft p attempt ≡ ok d)
        × (place_wait ft p random d ≡ ok (some w))
  unfolding next_wait
  next_wait-eq-some attempt age h = elim (Bool-cases (leb_ℤ p.max_attempts attempt)) [
    | inl out ↦ cc (rw out at h)
    | inr left ↦
        elim (Bool-cases (ltb_ℤ zero_duration p.max_message_age && leb_ℤ p.max_message_age age)) [
          | inl old ↦ cc (rw left at (rw old at h))
          | inr young ↦
              let (d, e, q) = >>=-eq-ok (unjittered ft p attempt) _ (rw young at (rw left at h)) in
              (λ g. ground arith, d, e, q)
        ]
  ]

  next_wait-GivesUp :
      (attempt : ℤ) (age : Duration)
      → next_wait ft p random attempt age ≡ ok none
      → GivesUp p attempt age
  unfolding next_wait
  next_wait-GivesUp attempt age h = elim (Bool-cases (leb_ℤ p.max_attempts attempt)) [
    | inl out ↦ inl (ground arith)
    | inr left ↦
        elim (Bool-cases (ltb_ℤ zero_duration p.max_message_age && leb_ℤ p.max_message_age age)) [
          | inl old ↦ inr (ground arith, ground arith)
          | inr young ↦
              let (d, e, q) = >>=-eq-ok (unjittered ft p attempt) _ (rw young at (rw left at h)) in
              absurd (place_wait-ne-none d q)
        ]
  ]

  next_wait_given_up :
      (attempt : ℤ) (age : Duration)
      → GivesUp p attempt age
      → next_wait ft p random attempt age ≡ ok none
  unfolding next_wait
  next_wait_given_up attempt age (inl out) =
      let e : leb_ℤ p.max_attempts attempt ≡ true = ground arith in rw e
  next_wait_given_up attempt age (inr (limited, old)) =
      elim (Bool-cases (leb_ℤ p.max_attempts attempt)) [
        | inl out ↦ rw out
        | inr left ↦
            let e : (ltb_ℤ zero_duration p.max_message_age && leb_ℤ p.max_message_age age) ≡ true =
              ground arith in
            rw left (rw e)
      ]

-- `next_wait` returns None exactly when the attempts are used up or the message is too old,
-- provided that the arithmetic does not overflow.
pub next_wait-none_iff :
    (ft : FloatTime) (p : RetryPolicy ft.Float) (random : ft.Float) (attempt : ℤ) (age : Duration)
    → (next_wait ft p random attempt age ≡ ok none) ↔ GivesUp p attempt age
next_wait-none_iff ft p random attempt age =
    (λ h. next_wait-GivesUp ft p random attempt age h, next_wait_given_up ft p random attempt age)

-- A wait in the broker is one of the policy's rungs: with a policy whose delays stay past the
-- ceiling once they are past it, whenever `next_wait` sends a message to wait in the broker, after
-- attempt 1 or later, the delay is an entry of `broker_rungs`.
pub next_wait-in-broker_rungs :
    (ft : FloatTime) (p : RetryPolicy ft.Float) (random : ft.Float) (attempt : ℤ) (age : Duration)
    (ds rungs : List Duration) {w : Wait}
    → KeepsGrowing ft p
    → schedule ft p ≡ ok ds
    → broker_rungs ft p ≡ ok rungs
    → pos 1 ≤ℤ attempt
    → next_wait ft p random attempt age ≡ ok (some w)
    → w.in_broker ≡ true
    → contains w.delay rungs ≡ true
next_wait-in-broker_rungs ft p random attempt age ds rungs growing hs hr one h inb =
    let (goes_on, d, e, placed) = next_wait-eq-some ft p random attempt age h in
    let (d', e', at) =
      unjittered-eq-schedule ft p attempt ds growing hs one
        (ground (arith, λ (q : p.max_attempts ≤ℤ attempt). goes_on (inl q))) in
    let same : d' ≡ d = cc in
    let listed = contains-get_elem? ds (pos_part attempt - 1) d (rw same at at) in
    elim (place_wait_cases ft p random d placed) [
      | inl (far, _, q) ↦ rw q (((broker_rungs-exact ft p ds rungs hs hr).1 d).1 (far, listed))
      | inr (_, near, _) ↦ cc
    ]

-- A wait that `next_wait` returns is placed by the threshold: a wait in the broker is the unjittered
-- delay, positive and at or above a positive threshold; a wait in the consumer is never negative.
-- An attempt that is followed by another is below the maximum.
pub next_wait_placed :
    (ft : FloatTime) (p : RetryPolicy ft.Float) (random : ft.Float) (attempt : ℤ) (age : Duration)
    {w : Wait}
    → next_wait ft p random attempt age ≡ ok (some w)
    → (attempt <ℤ p.max_attempts)
      × ((w.in_broker ≡ true)
            × (unjittered ft p attempt ≡ ok w.delay)
            × (zero_duration <ℤ w.delay)
            × (zero_duration <ℤ p.broker_wait_threshold)
            × (p.broker_wait_threshold ≤ℤ w.delay)
          ⊎ (w.in_broker ≡ false) × (zero_duration ≤ℤ w.delay))
unfolding waits_in_broker
next_wait_placed ft p random attempt age h =
    let (goes_on, d, e, placed) = next_wait-eq-some ft p random attempt age h in
    (
      ground (arith, λ (q : p.max_attempts ≤ℤ attempt). goes_on (inl q)),
      elim (place_wait_cases ft p random d placed) [
        | inl (far, there, q) ↦ rw q (inl (there, e, ground arith, ground arith, ground arith))
        | inr (_, here, q) ↦ inr (here, q)
      ],
    )
