-- ===== src/Patterns/RequestReply/Responder.antt =====
-- patterns/requestreply.py: `serve`, its handler and `_reply`.
use acemq_python_amqp.Prelude.{
  ℕ, ◌+◌, String, false, Option, some, none, List, [], ◌∷◌, Result, ok, err, concat, if◌then◌else◌,
  str_eq,
}
use acemq_python_amqp.Prelude.Int.{ℤ, pos, ◌+ℤ◌, ◌-ℤ◌}
use acemq_python_amqp.Dict.{get}
use acemq_python_amqp.Headers.{text, or_absent}
use acemq_python_amqp.Envelope.{Envelope, EnvelopeError, Instant, post_init}
use acemq_python_amqp.Ack.{Ack, Failure, fatal}
use acemq_python_amqp.Ack.Answers as answers
use acemq_python_amqp.Consumer.Effects.{Message}
use acemq_python_amqp.Publisher.Outstanding.{PublishResult, PublishFault, cancelled}
use acemq_python_amqp.Publisher.Sending.{
  PublishEvent, Publisher, new_envelope, refused_envelope, send,
}
use acemq_python_amqp.Patterns.RoutingSlip.Travel.{failure_of}
use acemq_python_amqp.Patterns.RequestReply.Requester.{
  reply_to_header, error_header, text_or_nothing,
}

-- The world of a responder: the application's own, what the publishers did, and the two counters of
-- the handle.
pub record World (W : Type 0) : Type 0 where
  pub own : W
  pub sent : List PublishEvent
  pub answered : ℤ
  pub unanswerable : ℕ

-- What `serve` is called with. The publisher encodes an answer, or the None of an error reply.
pub record Service (W P R : Type 0) : Type 0 where
  pub respond : Message P → W → Result PublishFault R × W
  pub publisher : Publisher (Option R)
  pub str_of_bytes : List ℕ → String

abbrev pub bound_to : {R : Type 0} → Publisher (Option R) → String → Publisher (Option R)
bound_to p reply_to = record p { exchange = ""; routing_key = reply_to; mandatory = false }

abbrev pub error_line : Failure → String
error_line failure = concat (failure.name ∷ ": " ∷ failure.text ∷ [])

module _ {W P R : Type 0} (s : Service W P R) where
  -- The envelope of a reply.
  unfoldable pub reply_envelope :
      String → Instant → Envelope → Option Failure → Result EnvelopeError Envelope
  unfolding new_envelope
  reply_envelope id now request failure =
      post_init (record (new_envelope id now s.publisher.origin) {
        correlation_id = request.correlation_id;
        causation_id = request.id;
        headers = elim failure [ none ↦ [] | some f ↦ (error_header, text (error_line f)) ∷ [] ];
      })

  unfoldable pub send_reply :
      String
      → Option R
      → Result EnvelopeError Envelope
      → List PublishEvent
      → Result PublishFault PublishResult × List PublishEvent
  send_reply reply_to answer (err x) t = (err refused_envelope, t)
  send_reply reply_to answer (ok e) t =
      send (bound_to s.publisher reply_to) answer (some e) none "" t

  -- `_reply`
  unfoldable pub reply :
      String
      → Message P
      → Option R
      → Option Failure
      → List PublishEvent
      → Result PublishFault PublishResult × List PublishEvent
  unfolding send_reply reply_envelope
  reply reply_to request answer failure t =
      send_reply reply_to answer
        (reply_envelope (s.publisher.fresh_id t) (s.publisher.now t) request.envelope failure) t

  -- The header, or the property.
  unfoldable pub reply_address : Message P → String
  reply_address request =
      let named =
        text_or_nothing s.publisher.py s.str_of_bytes
          (or_absent (get reply_to_header request.envelope.headers)) in
      if str_eq named "" then request.reply_to else named

  abbrev pub nowhere : Message P → Failure
  nowhere request = record {
    kind = fatal;
    name = "FatalError";
    text = concat (
        "acemq: request " ∷ request.envelope.id
        ∷ " carries neither a acemq-reply-to header nor a reply-to property, so there is nowhere "
        ∷ "to reply" ∷ []);
  }

  -- After the error reply.
  unfoldable pub after_error :
      Failure → Result PublishFault PublishResult → World W → Result PublishFault Ack × World W
  after_error failure (ok result) w = (ok (answers.reject (some failure)), w)
  after_error failure (err cancelled) w = (err cancelled, w)
  after_error failure (err undeliverable) w =
      (ok (answers.retry (some (failure_of s.publisher.words undeliverable))), w)

  -- After the reply. The answer is counted already.
  unfoldable pub after_reply :
      Result PublishFault PublishResult → World W → Result PublishFault Ack × World W
  after_reply (ok result) w = (ok answers.accept, w)
  after_reply (err cancelled) w = (err cancelled, w)
  after_reply (err undeliverable) w = (
    ok (answers.retry (some (failure_of s.publisher.words undeliverable))),
    record w { answered = w.answered -ℤ pos 1 },
  )

  unfoldable pub after_respond :
      String → Message P → Result PublishFault R → World W → Result PublishFault Ack × World W
  unfolding after_error after_reply reply
  after_respond reply_to request (err cancelled) w = (err cancelled, w)
  after_respond reply_to request (err fault) w =
      let failure = failure_of s.publisher.words fault in
      let sent = reply reply_to request none (some failure) w.sent in
      after_error failure sent.0 (record w { sent = sent.1 })
  after_respond reply_to request (ok answer) w =
      let sent = reply reply_to request (some answer) none w.sent in
      after_reply sent.0 (record w { sent = sent.1; answered = w.answered +ℤ pos 1 })

  unfoldable pub handle_at : String → Message P → World W → Result PublishFault Ack × World W
  unfolding after_respond
  handle_at reply_to request w =
      let result = s.respond request w.own in
      let left = after_respond reply_to request result.0 (record w { own = result.1 }) in
      if str_eq reply_to ""
      then (
        ok (answers.reject (some (nowhere request))),
        record w { unanswerable = w.unanswerable + 1 },
      )
      else left

  -- `handle`
  unfoldable pub handle : Message P → World W → Result PublishFault Ack × World W
  unfolding handle_at reply_address
  handle request w = handle_at (reply_address request) request w
