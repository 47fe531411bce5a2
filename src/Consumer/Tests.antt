-- ===== src/Consumer/Tests.antt =====
-- connection.py at a concrete consumer, with a handler that fails and a broker that answers.
use acemq_python_amqp.Prelude.{
  ℕ, ◌+◌, String, ◌≡◌, ◌↔◌, refl, false, some, none, List, [], ◌∷◌, ok, err, arith, str_eq,
  if◌then◌else◌,
}
use acemq_python_amqp.Prelude.Int.{pos}
use acemq_python_amqp.Headers
use acemq_python_amqp.Headers.{text, integer}
use acemq_python_amqp.Envelope.{Envelope, from_headers, any_reserved}
use acemq_python_amqp.Envelope.Tests.{plain, order, order-IsValid, order_named, from_nanoseconds}
use acemq_python_amqp.Retry.Tests.{whole, doubling}
use acemq_python_amqp.Ack.{Ack, Action, Outcome, Settlement, Failure, fatal, describe}
use acemq_python_amqp.Consumer.Effects.{
  Setup, Effect, routed, unrouted, PublishAnswer, Outbound, Delivery, World, Answer, decided,
}
use acemq_python_amqp.Consumer.Decide.{decide, settle_because}
use acemq_python_amqp.Consumer.Copies.{OnceMore, SentTo, next_attempt_read}
use acemq_python_amqp.Naming.{retry_queue}
use acemq_python_amqp.Retry.{Duration}
use acemq_python_amqp.Consumer.Settle.{
  value_error, carry, carry_out, dead_letter, or_empty, retry_again, retry_in_broker,
}
use acemq_python_amqp.Consumer.Deliver.{handle, work_loop, return_pending}
use acemq_python_amqp.Consumer.Ledger.{Books, returned, weigh, is_ack, is_requeue}
use acemq_python_amqp.Consumer.Returns.{Answers, carry_out_settles}
use acemq_python_amqp.Consumer.Decided.{Doomed, AtDeadLetters, decide-dead_lettered_iff}
use acemq_python_amqp.Consumer.Verdict.{
  handle-Books, handle_unread, IsConserved, work_loop-IsConserved,
}

abbrev broken : Failure
broken = record { kind = fatal; name = "FatalError"; text = "no such order" }

abbrev failing : Answer
failing = decided (record { action = Action.retry; error = some broken; delay = none })

-- The dead-letter queue is there, and no other.
abbrev one_queue : String → PublishAnswer
one_queue queue = if str_eq queue "orders.dlq" then routed else unrouted

abbrev setup : Setup whole ℕ
setup = record {
  queue = "orders";
  retry = doubling;
  py = plain;
  decode = λ t body content_type. ok 0;
  handler = λ t message. ok failing;
  interceptors = λ t. [];
  publish = λ t queue out. one_queue queue;
  now = λ t. pos 9000;
  random = λ t. 0;
  fresh_id = λ t. "u1";
}

abbrev delivery : Delivery
delivery = record {
  body = 123 ∷ 125 ∷ [];
  content_type = some "application/json";
  routing_key = "orders";
  message_id = "m1";
  headers = (Headers.id_header, text "m1") ∷ (Headers.attempt_header, integer (pos 2)) ∷ [];
  redelivered = false;
  reply_to = "";
}

abbrev start : World
start = record { trace = []; halted = false; in_flight = 0 }

handle-Books_example :
    Books
      (returned (handle whole setup delivery start).0)
      start
      (handle whole setup delivery start).1
handle-Books_example = handle-Books whole setup delivery start

work_loop-IsConserved_example : IsConserved (
    return_pending whole setup
      (delivery ∷ [])
      (work_loop whole setup (delivery ∷ delivery ∷ []) start))
work_loop-IsConserved_example =
    work_loop-IsConserved whole setup (delivery ∷ delivery ∷ []) (delivery ∷ []) start
      (record { matched = refl; undropped = refl })

abbrev from_clock : Delivery
from_clock = record delivery { headers = from_nanoseconds }

handle_unread_example : handle whole setup from_clock start ≡ (err value_error, start)
unfolding Headers.number_of acemq_python_amqp.Dict.get
handle_unread_example = handle_unread whole setup from_clock start refl

abbrev to_dead_letters : Settlement
to_dead_letters =
    settle_because Outcome.dead_lettered
      ("the handler reported an unprocessable message: " ∷ "FatalError: no such order" ∷ [])

every_answer :
    (t : List Effect) (queue : String) (out : Outbound) → Answers (setup.publish t queue out)
every_answer t queue out = ground arith

carry_out_settles_example :
    (returned (carry_out whole setup delivery order to_dead_letters none start).0 ≡ 1)
    × (weigh is_ack (carry_out whole setup delivery order to_dead_letters none start).1.trace
          + weigh is_requeue
              (carry_out whole setup delivery order to_dead_letters none start).1.trace
        ≡ 1 + 0 + 0)
unfolding any_reserved Headers.is_reserved
carry_out_settles_example =
    carry_out_settles whole setup every_answer delivery order refl to_dead_letters none start

abbrev fatal_retry : Ack
fatal_retry = record { action = Action.retry; error = some broken; delay = none }

fatal_decided : decide whole setup [] order fatal_retry ≡ ok (to_dead_letters, none)
unfolding decide describe
fatal_decided = refl

decide-dead_lettered_iff_example :
    ((to_dead_letters.outcome ≡ Outcome.dead_lettered)
      ↔ ((fatal_retry.action ≡ Action.retry) × Doomed whole setup [] order fatal))
    × ((to_dead_letters.outcome ≡ Outcome.rejected) ↔ (fatal_retry.action ≡ Action.reject))
    × (AtDeadLetters whole setup to_dead_letters.outcome
        → (d : Delivery)
        → carry whole setup to_dead_letters.outcome d order to_dead_letters none
          ≡ dead_letter whole setup d order (or_empty to_dead_letters.reason))
decide-dead_lettered_iff_example =
    decide-dead_lettered_iff whole setup [] order fatal_retry to_dead_letters none fatal_decided

abbrev a_minute : Duration
a_minute = pos 60000000

next_attempt_read_example :
    (out : Outbound) × (out.body ≡ delivery.body)
    × SentTo whole setup setup.queue out [] (retry_again whole setup delivery order start).1.trace
    × SentTo whole setup
        (retry_queue plain setup.queue a_minute)
        out
        []
        (retry_in_broker whole setup delivery order a_minute start).1.trace
    × (e' : Envelope) × (from_headers plain "u1" (pos 9000) out.headers setup.queue out.message_id
        ≡ ok e')
    × OnceMore order e'
unfolding any_reserved Headers.is_reserved acemq_python_amqp.Dict.get
next_attempt_read_example =
    next_attempt_read whole setup delivery order start a_minute "u1" (pos 9000) (pos 5000)
      order-IsValid refl order_named (λ k ours. refl) refl
