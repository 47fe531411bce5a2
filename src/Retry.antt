-- ===== src/Retry.antt =====
-- src/acemq_amqp/retry.py: the retry policy. Delays are `timedelta`s, whole microseconds that may be
-- negative. Floats and their arithmetic are the interpreter's: a parameter, `FloatTime`.
pub mod Schedule
pub mod Rungs
pub mod Waits
pub mod Ceiling
pub mod Tests
use acemq_python_amqp.Prelude.{
  ℕ, zero, suc, ◌-◌, Bool, true, false, ◌&&◌, ◌||◌, Option, none, some, List, [], ◌∷◌, ◌++◌, Result,
  ok, err, ◌>>=◌, if◌then◌else◌,
}
use acemq_python_amqp.Prelude.Int.{ℤ, pos, pos_part, ltb_ℤ, leb_ℤ, eqb_ℤ, neg_part, sub_ℕ, negsuc}

-- A `timedelta`, in microseconds.
abbrev pub Duration : Type 0
Duration = ℤ

abbrev pub zero_duration : Duration
zero_duration = pos 0

-- `OverflowError`, which `timedelta * float` raises past 999999999 days.
pub data OverflowError : Type 0 where
  overflow : OverflowError

-- The floats, and what Python computes with them: `scaled d f` is `d * f`, and `none` stands for the
-- `OverflowError` that it raises.
pub record FloatTime : Type 1 where
  pub Float : Type 0
  pub zero_factor : Float
  pub one_factor : Float
  pub two_factor : Float
  pub fifth : Float
  pub is_positive : Float → Bool
  pub add : Float → Float → Float
  pub sub : Float → Float → Float
  pub mul : Float → Float → Float
  pub scaled : Duration → Float → Option Duration

pub record Wait : Type 0 where
  pub delay : Duration
  pub in_broker : Bool

pub record RetryPolicy (F : Type 0) : Type 0 where
  pub max_attempts : ℤ
  pub initial_delay : Duration
  pub multiplier : F
  pub max_delay : Duration
  pub jitter_factor : F
  pub max_message_age : Duration
  pub broker_wait_threshold : Duration

abbrev pub default_broker_wait_threshold : Duration
default_broker_wait_threshold = pos 30000000

module _ {F : Type 0} where
  unfoldable pub give_up_after : RetryPolicy F → Duration → RetryPolicy F
  give_up_after p age = record p { max_message_age = age }

  unfoldable pub with_jitter : RetryPolicy F → F → RetryPolicy F
  with_jitter p factor = record p { jitter_factor = factor }

  unfoldable pub wait_in_broker_from : RetryPolicy F → Duration → RetryPolicy F
  wait_in_broker_from p threshold = record p { broker_wait_threshold = threshold }

  unfoldable pub waits_in_broker : RetryPolicy F → Duration → Bool
  waits_in_broker p delay =
      ltb_ℤ zero_duration p.broker_wait_threshold
      && ltb_ℤ zero_duration delay
      && leb_ℤ p.broker_wait_threshold delay

  -- `self.max_delay > ZERO and delay > self.max_delay`
  abbrev pub past_ceiling : RetryPolicy F → Duration → Bool
  past_ceiling p delay = ltb_ℤ zero_duration p.max_delay && ltb_ℤ p.max_delay delay

  unfoldable pub capped : RetryPolicy F → Duration → Duration
  capped p delay = if past_ceiling p delay then p.max_delay else delay

-- `d in seen`
abbrev pub contains : Duration → List Duration → Bool
contains d [] = false
contains d (x ∷ xs) = eqb_ℤ d x || contains d xs

-- `list(dict.fromkeys(ds))`, with the keys inserted so far: a repeated key keeps its first place.
unfoldable pub from_keys : List Duration → List Duration → List Duration
from_keys seen [] = seen
from_keys seen (d ∷ ds) = from_keys (if contains d seen then seen else seen ++ d ∷ []) ds

module _ (ft : FloatTime) where
  open ft use {
    Float, zero_factor, one_factor, two_factor, fifth, is_positive, add, sub, mul, scaled,
  }

  -- The loop of `_unjittered`, by the rounds that are left; `break` leaves the ceiling.
  unfoldable pub grow : RetryPolicy Float → ℕ → Duration → Result OverflowError Duration
  grow p zero delay = ok delay
  grow p (suc n) delay = elim (scaled delay p.multiplier) [
    | none ↦ err overflow
    | some next ↦ elim (past_ceiling p next) [ true ↦ ok p.max_delay | false ↦ grow p n next ]
  ]

  -- `range(1, attempt)` has `attempt - 1` rounds, none for an attempt below 2.
  unfoldable pub unjittered : RetryPolicy Float → ℤ → Result OverflowError Duration
  unfolding grow capped
  unjittered p attempt = do
    delay ← grow p (pos_part attempt - 1) p.initial_delay
    ok (capped p delay)

  -- The loop of `schedule`: it multiplies after every entry, the last one included.
  unfoldable pub schedule_from :
      RetryPolicy Float → ℕ → Duration → Result OverflowError (List Duration)
  unfolding capped
  schedule_from p zero delay = ok []
  schedule_from p (suc n) delay = elim (scaled delay p.multiplier) [
    | none ↦ err overflow
    | some next ↦ do rest ← schedule_from p n next; ok (capped p delay ∷ rest)
  ]

  unfoldable pub schedule : RetryPolicy Float → Result OverflowError (List Duration)
  unfolding schedule_from
  schedule p = schedule_from p (pos_part p.max_attempts - 1) p.initial_delay

  -- `d for d in … if self.waits_in_broker(d)`
  unfoldable pub broker_waits : RetryPolicy Float → List Duration → List Duration
  unfolding waits_in_broker
  broker_waits p [] = []
  broker_waits p (d ∷ ds) =
      let rest = broker_waits p ds in if waits_in_broker p d then d ∷ rest else rest

  unfoldable pub broker_rungs : RetryPolicy Float → Result OverflowError (List Duration)
  unfolding schedule broker_waits from_keys
  broker_rungs p = do delays ← schedule p; ok (from_keys [] (broker_waits p delays))

  -- `1 + ((random.random() * 2 - 1) * self.jitter_factor)`, at what `random.random()` returned.
  abbrev pub jitter : RetryPolicy Float → Float → Float
  jitter p random = add one_factor (mul (sub (mul random two_factor) one_factor) p.jitter_factor)

  -- `max(delay, ZERO)`: the first argument where they are equal.
  abbrev pub at_least_zero : Duration → Duration
  at_least_zero delay = if ltb_ℤ delay zero_duration then zero_duration else delay

  -- The wait that is spent in the consumer.
  unfoldable pub consumer_wait :
      RetryPolicy Float → Float → Duration → Result OverflowError (Option Wait)
  consumer_wait p random delay =
      if is_positive p.jitter_factor && ltb_ℤ zero_duration delay
      then (elim (scaled delay (jitter p random)) [
        | none ↦ err overflow
        | some moved ↦ ok (some (record { delay = at_least_zero moved; in_broker = false }))
      ])
      else ok (some (record { delay = at_least_zero delay; in_broker = false }))

  -- What `next_wait` does with the delay. A rung's wait is not jittered.
  unfoldable pub place_wait :
      RetryPolicy Float → Float → Duration → Result OverflowError (Option Wait)
  unfolding waits_in_broker consumer_wait
  place_wait p random delay =
      if waits_in_broker p delay
      then ok (some (record { delay = delay; in_broker = true }))
      else consumer_wait p random delay

  -- `None` is `ok none`.
  unfoldable pub next_wait :
      RetryPolicy Float → Float → ℤ → Duration → Result OverflowError (Option Wait)
  unfolding unjittered place_wait
  next_wait p random attempt message_age =
      if leb_ℤ p.max_attempts attempt
      then ok none
      else if ltb_ℤ zero_duration p.max_message_age && leb_ℤ p.max_message_age message_age
      then ok none
      else do delay ← unjittered p attempt; place_wait p random delay

  unfoldable pub next_delay :
      RetryPolicy Float → Float → ℤ → Duration → Result OverflowError (Option Duration)
  unfolding next_wait
  next_delay p random attempt message_age = do
    wait ← next_wait p random attempt message_age
    ok (elim wait [ none ↦ none | some w ↦ some w.delay ])

  unfoldable pub no_retry : RetryPolicy Float
  no_retry = record {
    max_attempts = pos 1;
    initial_delay = zero_duration;
    multiplier = two_factor;
    max_delay = zero_duration;
    jitter_factor = zero_factor;
    max_message_age = zero_duration;
    broker_wait_threshold = default_broker_wait_threshold;
  }

  unfoldable pub exponential_retry : ℤ → Duration → Duration → RetryPolicy Float
  unfolding no_retry
  exponential_retry max_attempts initial_delay max_delay = record no_retry {
    max_attempts = max_attempts;
    initial_delay = initial_delay;
    max_delay = max_delay;
    jitter_factor = fifth;
  }

  unfoldable pub fixed_retry : ℤ → Duration → RetryPolicy Float
  unfolding no_retry
  fixed_retry max_attempts delay = record no_retry {
    max_attempts = max_attempts;
    initial_delay = delay;
    multiplier = one_factor;
  }
