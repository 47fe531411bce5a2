-- ===== src/Ack.antt =====
-- src/acemq_amqp/ack.py: what a handler says about a message, and what the consumer then did. The
-- functions that build an answer are in `Ack.Answers`.
pub mod Answers
use acemq_python_amqp.Prelude.{
  String, Bool, true, false, ◌||◌, Option, some, none, concat, if◌then◌else◌, str_eq, [], ◌∷◌,
}
use acemq_python_amqp.Prelude.Int.{pos}
use acemq_python_amqp.Retry.{Duration}

-- OUTCOME_ACKED and the other words that a settlement is reported with.
pub data Outcome : Type 0 where
  acked retried rejected dead_lettered parked in_progress stopped : Outcome

pub data Action : Type 0 where
  accept retry reject park in_progress : Action

-- An exception: whether it is a `FatalError`, a `_StopReadingError` or a `_HopRefusedError`, the name
-- of its class, and its text.
pub data FailureKind : Type 0 where
  fatal stop_reading hop_refused ordinary : FailureKind

pub record Failure : Type 0 where
  pub kind : FailureKind
  pub name : String
  pub text : String

abbrev pub default_in_progress_delay : Duration
default_in_progress_delay = pos 5000000

pub record Ack : Type 0 where
  pub action : Action
  pub error : Option Failure
  pub delay : Option Duration

pub record Settlement : Type 0 where
  pub outcome : Outcome
  pub reason : Option String
  pub delay : Option Duration

unfoldable pub dead_lettered? : Settlement → Bool
dead_lettered? s = elim s.outcome [
  | Outcome.rejected ↦ true
  | Outcome.dead_lettered ↦ true
  | _ ↦ false
]

unfoldable pub parked? : Settlement → Bool
parked? s = elim s.outcome [ Outcome.parked ↦ true | _ ↦ false ]

-- `_describe` of connection.py.
unfoldable pub describe : Option Failure → String
describe none = "no reason given"
describe (some f) = if str_eq f.text "" then f.name else concat (f.name ∷ ": " ∷ f.text ∷ [])
