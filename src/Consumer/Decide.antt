-- ===== src/Consumer/Decide.antt =====
-- connection.py: `_decide`, what is going to happen to a delivery, before anything does.
use acemq_python_amqp.Prelude.{
  String, false, Option, none, some, Result, ok, err, concat, if◌then◌else◌, [], ◌∷◌, List,
}
use acemq_python_amqp.Prelude.Int.{pos, leb_ℤ, eqb_ℤ, ◌-ℤ◌}
use acemq_python_amqp.Envelope.{Envelope}
use acemq_python_amqp.Retry.{OverflowError, Duration, zero_duration, FloatTime, Wait, next_wait}
use acemq_python_amqp.Ack.{
  Ack, Action, Outcome, Settlement, Failure, FailureKind, fatal, stop_reading, ordinary, describe,
}
use acemq_python_amqp.Consumer.Effects.{Setup, Effect}

abbrev pub settle_because : Outcome → List String → Settlement
settle_because outcome reason = record {
  outcome = outcome;
  reason = some (concat reason);
  delay = none;
}

-- The OverflowError of the retry arithmetic, as the exception that leaves the consumer.
abbrev pub overflow_failure : Failure
overflow_failure = record { kind = ordinary; name = "OverflowError"; text = "" }

-- `isinstance(decision.error, …)`
abbrev pub kind_of : Option Failure → FailureKind
kind_of none = ordinary
kind_of (some f) = f.kind

-- `decision.delay if decision.delay is not None else ZERO`
abbrev pub or_zero : Option Duration → Duration
or_zero none = zero_duration
or_zero (some d) = d

module _ {P : Type 0} (ft : FloatTime) (c : Setup ft P) where
  -- `_exhausted`
  unfoldable pub exhausted : Envelope → String
  exhausted e =
      if leb_ℤ c.retry.max_attempts e.attempt
      then concat (
          "exhausted "
          ∷ c.py.str_of_int c.retry.max_attempts
          ∷ " attempt"
          ∷ (if eqb_ℤ c.retry.max_attempts (pos 1) then "" else "s")
          ∷ [])
      else concat (
          "exceeded the maximum message age of "
          ∷ c.py.str_of_timedelta c.retry.max_message_age
          ∷ [])

  -- What follows a retry that the policy answered.
  unfoldable pub answered : Envelope → Option Failure → Option Wait → Settlement × Option Wait
  unfolding exhausted
  answered e error none =
      (settle_because Outcome.dead_lettered (exhausted e ∷ ": " ∷ describe error ∷ []), none)
  answered e error (some wait) =
      (record { outcome = Outcome.retried; reason = none; delay = some wait.delay }, some wait)

  -- What follows once the policy has answered, or raised.
  unfoldable pub policy_said :
      Envelope
      → Option Failure
      → Result OverflowError (Option Wait)
      → Result Failure (Settlement × Option Wait)
  unfolding answered
  policy_said e error (ok wait) = ok (answered e error wait)
  policy_said e error (err x) = err overflow_failure

  -- A retry that is neither a stop nor fatal goes to the policy.
  unfoldable pub ask_policy :
      List Effect → Envelope → Option Failure → Result Failure (Settlement × Option Wait)
  unfolding policy_said
  ask_policy t e error =
      policy_said e error (next_wait ft c.retry (c.random t) e.attempt (c.now t -ℤ e.first_seen))

  -- The tests of what the handler failed with.
  unfoldable pub decide_kind :
      FailureKind
      → List Effect
      → Envelope
      → Option Failure
      → Result Failure (Settlement × Option Wait)
  unfolding ask_policy
  decide_kind stop_reading t e error =
      ok (settle_because Outcome.stopped ("the reader stopped at it: " ∷ describe error ∷ []), none)
  decide_kind fatal t e error = ok (
    settle_because Outcome.dead_lettered
        ("the handler reported an unprocessable message: " ∷ describe error ∷ []),
    none,
  )
  decide_kind _ t e error = ask_policy t e error

  unfoldable pub decide_retry :
      List Effect → Envelope → Option Failure → Result Failure (Settlement × Option Wait)
  unfolding decide_kind
  decide_retry t e error = decide_kind (kind_of error) t e error

  unfoldable pub decide_action :
      Action → List Effect → Envelope → Ack → Result Failure (Settlement × Option Wait)
  unfolding decide_retry
  decide_action Action.accept t e decision =
      ok (record { outcome = Outcome.acked; reason = none; delay = none }, none)
  decide_action Action.reject t e decision = ok (
    settle_because Outcome.rejected ("the handler rejected it: " ∷ describe decision.error ∷ []),
    none,
  )
  decide_action Action.park t e decision = ok (
    settle_because Outcome.parked ("the handler parked it: " ∷ describe decision.error ∷ []),
    none,
  )
  decide_action Action.in_progress t e decision =
      let delay = or_zero decision.delay in
      ok (
        record { outcome = Outcome.in_progress; reason = none; delay = some delay },
        some (record { delay = delay; in_broker = false }),
      )
  decide_action Action.retry t e decision = decide_retry t e decision.error

  -- `_decide`
  unfoldable pub decide : List Effect → Envelope → Ack → Result Failure (Settlement × Option Wait)
  unfolding decide_action
  decide t e decision = decide_action decision.action t e decision
