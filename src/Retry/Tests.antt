-- ===== src/Retry/Tests.antt =====
-- retry.py at concrete policies. The floats here are whole factors, and a `timedelta` overflows past
-- 999999999 days.
use acemq_python_amqp.Prelude.{
  ℕ, suc, ◌+◌, ◌-◌, ◌*◌, ◌≡◌, ◌↔◌, ◌⊎◌, refl, true, false, Option, some, none, List, [], ◌∷◌, ok,
  err, length, get_elem?, leb, ltb, if◌then◌else◌, arith,
}
use acemq_python_amqp.Prelude.Int.{pos, negsuc, sub_ℕ, ◌≤ℤ◌, ◌<ℤ◌}
use acemq_python_amqp.Retry.{
  Duration, zero_duration, FloatTime, RetryPolicy, overflow, past_ceiling, contains, unjittered,
  schedule, broker_rungs, next_wait, exponential_retry, waits_in_broker,
}
use acemq_python_amqp.Retry.Schedule.{KeepsGrowing, unjittered-eq-schedule}
use acemq_python_amqp.Retry.Rungs.{Distinct, broker_rungs-exact}
use acemq_python_amqp.Retry.Waits.{next_wait-in-broker_rungs, next_wait_placed}
use acemq_python_amqp.Retry.Ceiling.{AllBelow, schedule_bounds, schedule_overflows}

abbrev longest : ℕ
longest = 86399999999999999999

abbrev times : Duration → ℕ → Option Duration
times (pos n) f = if leb (n * f) longest then some (pos (n * f)) else none
times (negsuc n) f = some (sub_ℕ 0 (suc n * f))

abbrev pub whole : FloatTime
whole = record {
  Float = ℕ;
  zero_factor = 0;
  one_factor = 1;
  two_factor = 2;
  fifth = 0;
  is_positive = λ f. ltb 0 f;
  add = λ a b. a + b;
  sub = λ a b. a - b;
  mul = λ a b. a * b;
  scaled = times;
}

abbrev second : Duration
second = pos 1000000

abbrev pub minute : Duration
minute = pos 60000000

-- `exponential_retry(8, 1s, 1m)`, with no jitter
abbrev pub doubling : RetryPolicy ℕ
doubling = record {
  max_attempts = pos 8;
  initial_delay = second;
  multiplier = 2;
  max_delay = minute;
  jitter_factor = 0;
  max_message_age = zero_duration;
  broker_wait_threshold = pos 30000000;
}

doubling_lem : exponential_retry whole (pos 8) second minute ≡ doubling
unfolding exponential_retry
doubling_lem = refl

abbrev pub delays : List Duration
delays =
    pos 1000000
    ∷ pos 2000000
    ∷ pos 4000000
    ∷ pos 8000000
    ∷ pos 16000000
    ∷ pos 32000000
    ∷ minute
    ∷ []

pub doubling-delays : schedule whole doubling ≡ ok delays
unfolding schedule
doubling-delays = refl

pub doubling_rungs : broker_rungs whole doubling ≡ ok (pos 32000000 ∷ minute ∷ [])
unfolding broker_rungs
doubling_rungs = refl

pub KeepsGrowing-doubling : KeepsGrowing whole doubling
KeepsGrowing-doubling = record { grows = grows }
  where
    grows :
        (d next : Duration)
        → past_ceiling doubling d ≡ true
        → times d 2 ≡ some next
        → past_ceiling doubling next ≡ true
    grows (pos n) next h e = ground arith
    grows (negsuc n) next h e = ground arith

unjittered-eq-schedule_example :
    (d : Duration) × (unjittered whole doubling (pos 7) ≡ ok d) × (get_elem? delays 6 ≡ some d)
unjittered-eq-schedule_example =
    unjittered-eq-schedule whole doubling (pos 7) delays KeepsGrowing-doubling doubling-delays
      (omega arith) (omega arith)

broker_rungs-exact_example :
    Distinct (pos 32000000 ∷ minute ∷ [])
    × ((d : Duration)
        → (contains d (pos 32000000 ∷ minute ∷ []) ≡ true)
          ↔ ((waits_in_broker doubling d ≡ true) × (contains d delays ≡ true)))
broker_rungs-exact_example =
    broker_rungs-exact whole doubling delays (pos 32000000 ∷ minute ∷ []) doubling-delays
      doubling_rungs

pub next_wait_seventh :
    next_wait whole doubling 0 (pos 7) zero_duration
    ≡ ok (some (record { delay = minute; in_broker = true }))
unfolding next_wait
next_wait_seventh = refl

next_wait-in-broker_rungs_example : contains minute (pos 32000000 ∷ minute ∷ []) ≡ true
next_wait-in-broker_rungs_example =
    next_wait-in-broker_rungs whole doubling 0 (pos 7) zero_duration delays
      (pos 32000000 ∷ minute ∷ []) KeepsGrowing-doubling doubling-delays doubling_rungs
      (omega arith) next_wait_seventh refl

next_wait_placed_example :
    (pos 7 <ℤ pos 8)
    × ((true ≡ true)
          × (unjittered whole doubling (pos 7) ≡ ok minute)
          × (zero_duration <ℤ minute)
          × (zero_duration <ℤ pos 30000000)
          × (pos 30000000 ≤ℤ minute)
        ⊎ (true ≡ false) × (zero_duration ≤ℤ minute))
next_wait_placed_example = next_wait_placed whole doubling 0 (pos 7) zero_duration next_wait_seventh

schedule_bounds_example : (length delays ≡ 7) × (zero_duration <ℤ minute → AllBelow minute delays)
schedule_bounds_example = schedule_bounds whole doubling delays doubling-delays

-- `exponential_retry(60, 1s, 1m)`
abbrev patient : RetryPolicy ℕ
patient = record doubling { max_attempts = pos 60 }

schedule_overflows_example :
    (unjittered whole patient (pos 10) ≡ ok minute)
    × (schedule whole patient ≡ err overflow)
    × (broker_rungs whole patient ≡ err overflow)
schedule_overflows_example =
    schedule_overflows whole patient 5 47 (pos 10) (pos 64000000) refl refl (omega arith) refl
      (omega arith)
