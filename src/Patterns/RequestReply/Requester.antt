-- ===== src/Patterns/RequestReply/Requester.antt =====
-- patterns/requestreply.py: `Requester`, its table of futures and what `ask` does with one.
use acemq_python_amqp.Prelude.{
  ℕ, ◌+◌, String, Bool, true, false, Option, some, List, [], ◌∷◌, Result, ok, err, concat,
  if◌then◌else◌, str_eq,
}
use acemq_python_amqp.Prelude.Int.{pos, leb_ℤ, eqb_ℤ}
use acemq_python_amqp.Dict.{Dict, get, put, pop}
use acemq_python_amqp.Headers.{
  HeaderValue, absent, boolean, integer, text, bytes, other, Interpreter, or_absent,
}
use acemq_python_amqp.Envelope.{Envelope, EnvelopeError, post_init}
use acemq_python_amqp.Retry.{Duration, zero_duration}
use acemq_python_amqp.Ack.{Ack, Failure}
use acemq_python_amqp.Ack.Answers as answers
use acemq_python_amqp.Consumer.Effects.{Bytes, Message}
use acemq_python_amqp.Publisher.Outstanding.{PublishFault}

abbrev pub reply_to_header : String
reply_to_header = "acemq-reply-to"

abbrev pub error_header : String
error_header = "acemq-error"

-- `value or ""`, as text.
unfoldable pub text_or_nothing : Interpreter → (List ℕ → String) → HeaderValue → String
text_or_nothing py str_of_bytes absent = ""
text_or_nothing py str_of_bytes (text s) = s
text_or_nothing py str_of_bytes (boolean b) = if b then py.str_of_bool true else ""
text_or_nothing py str_of_bytes (integer n) = if eqb_ℤ n (pos 0) then "" else py.str_of_int n
text_or_nothing py str_of_bytes (bytes []) = ""
text_or_nothing py str_of_bytes (bytes (b ∷ bs)) = str_of_bytes (b ∷ bs)
text_or_nothing py str_of_bytes (other n) = py.str_of_other n

abbrev pub Reply : Type 0
Reply = Message Bytes

-- The future of one `ask`. `expired` is one that `wait_for` cancelled, `shut` one that `close` gave an
-- exception; `dropped` is that of an `ask` that is over.
pub data Future : Type 0 where
  pending expired shut dropped : Future
  resolved : Reply → Future

abbrev pub is_pending : Future → Bool
is_pending pending = true
is_pending _ = false

-- `asked`, `timed_out` and `failed` of the request counter.
pub data RequestOutcome : Type 0 where
  answered timed_out failed : RequestOutcome

-- The fields that change, with the futures of every correlation that was ever asked under, and what
-- `_record` was called with.
pub record Requester : Type 0 where
  pub waiting : Dict Unit
  pub futures : Dict Future
  pub timed_out : ℕ
  pub unmatched : ℕ
  pub recorded : List RequestOutcome

abbrev pub nobody_waits : Requester
nobody_waits = record { waiting = []; futures = []; timed_out = 0; unmatched = 0; recorded = [] }

-- The ValueError of `open`.
pub data TimeoutSetting : Type 0 where
  not_positive : Duration → TimeoutSetting

unfoldable pub checked_timeout : Duration → Result TimeoutSetting Duration
checked_timeout timeout =
    if leb_ℤ timeout zero_duration then err (not_positive timeout) else ok timeout

-- The envelope of a request.
unfoldable pub request_envelope : String → String → Envelope → Result EnvelopeError Envelope
request_envelope correlation reply_queue outgoing = post_init (record outgoing {
  correlation_id = correlation;
  headers = put reply_to_header (text reply_queue) outgoing.headers;
})

-- `self._waiting[correlation] = waiter`, with a new future.
unfoldable pub begin_ask : String → Requester → Requester
begin_ask c s = record s { waiting = put c tt s.waiting; futures = put c pending s.futures }

-- `_receive`
unfoldable pub receive_at : Option (Unit {0}) → Option Future → Reply → Requester → Requester
receive_at (some here) (some pending) reply s = record s {
  futures = put reply.envelope.correlation_id (resolved reply) s.futures;
}
receive_at _ _ reply s = record s { unmatched = s.unmatched + 1 }

unfoldable pub receive : Reply → Requester → Ack × Requester
unfolding receive_at
receive reply s =
    let key = reply.envelope.correlation_id in
    (
      answers.accept,
      receive_at (get key s.waiting) (get key s.futures) reply
          (record s { waiting = pop key s.waiting }),
    )

-- How the `try` of `ask` ends: a reply, a future that expired or was closed (a RequestTimeoutError,
-- which the publish may raise too), or another exception.
pub data Waited : Type 0 where
  replied : Reply → Waited
  ran_out closed_under : Waited
  broke : PublishFault → Waited

pub data AskError : Type 0 where
  no_reply : String → AskError
  closed_while_waiting : AskError
  responder_failed : String → AskError
  raised : PublishFault → AskError
  undecodable : Failure → AskError

abbrev pub outcome_of : Waited → RequestOutcome
outcome_of (replied reply) = answered
outcome_of ran_out = timed_out
outcome_of closed_under = timed_out
outcome_of (broke fault) = failed

abbrev pub one_if_timed_out : RequestOutcome → ℕ
one_if_timed_out timed_out = 1
one_if_timed_out _ = 0

-- The `finally` of `ask`, with the count of its `except`.
unfoldable pub end_ask : String → Waited → Requester → Requester
end_ask c waited s = record s {
  waiting = pop c s.waiting;
  futures = put c dropped s.futures;
  timed_out = s.timed_out + one_if_timed_out (outcome_of waited);
  recorded = outcome_of waited ∷ s.recorded;
}

-- What `ask` returns or raises.
module _ {P : Type 0} (py : Interpreter) (str_of_bytes : List ℕ → String) where
  abbrev decoded : Result Failure P → Result AskError P
  decoded (ok p) = ok p
  decoded (err failure) = err (undecodable failure)

  unfoldable pub ask_result :
      (Bytes → Option String → Result Failure P) → String → Waited → Result AskError P
  ask_result decode c ran_out = err (no_reply c)
  ask_result decode c closed_under = err closed_while_waiting
  ask_result decode c (broke fault) = err (raised fault)
  ask_result decode c (replied reply) =
      let failure =
        text_or_nothing py str_of_bytes (or_absent (get error_header reply.envelope.headers)) in
      if str_eq failure ""
      then decoded (decode reply.body reply.content_type)
      else err (
          responder_failed
            (concat ("acemq: the responder could not answer " ∷ c ∷ ": " ∷ failure ∷ [])))

-- The loop of `close`, and `close`.
unfoldable pub shut_one : Option Future → String → Dict Future → Dict Future
shut_one (some pending) c futures = put c shut futures
shut_one _ c futures = futures

unfoldable pub shut_all : Dict Unit → Dict Future → Dict Future
unfolding shut_one
shut_all [] futures = futures
shut_all ((c, here) ∷ rest) futures = shut_all rest (shut_one (get c futures) c futures)

unfoldable pub close : Requester → Requester
unfolding shut_all
close s = record s { futures = shut_all s.waiting s.futures; waiting = [] }
