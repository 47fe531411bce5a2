-- ===== src/Patterns/Pipeline.antt =====
-- patterns/pipeline.py: `then`, a handler that publishes on what its step produced, and `chain`.
pub mod Settled
mod Tests
use acemq_python_amqp.Prelude.{String, Option, some, none, List, [], ◌∷◌, Result, ok, err, concat}
use acemq_python_amqp.Envelope.{Envelope, EnvelopeError, Instant, post_init}
use acemq_python_amqp.Ack.{Ack, Failure, ordinary}
use acemq_python_amqp.Ack.Answers as answers
use acemq_python_amqp.Consumer.Effects.{Message}
use acemq_python_amqp.Publisher.Outstanding.{PublishResult, PublishFault, cancelled}
use acemq_python_amqp.Publisher.Sending.{
  PublishEvent, Publisher, new_envelope, refused_envelope, send,
}
use acemq_python_amqp.Patterns.RoutingSlip.Travel.{failure_of}

-- What a step returns: NOTHING, or a payload to send on.
pub data Produced (R : Type 0) : Type 0 where
  nothing : Produced R
  onward : R → Produced R

-- The world of a pipeline step: the application's own, and what the publisher did.
pub record World (W : Type 0) : Type 0 where
  pub own : W
  pub sent : List PublishEvent

-- A handler of messages, which may raise.
abbrev pub Handler : Type 0 → Type 0 → Type 0
Handler W P = Message P → World W → Result PublishFault Ack × World W

-- `chain`: the first middleware is the outermost.
unfoldable pub chain : {W P : Type 0} → Handler W P → List (Handler W P → Handler W P) → Handler W P
chain handler [] = handler
chain handler (outer ∷ middleware) = outer (chain handler middleware)

module _ {W P R : Type 0} (publisher : Publisher R)
    (step : Message P → W → Result PublishFault (Produced R) × W) where
  -- The `Envelope(…)` of `onwards`.
  unfoldable pub onward_envelope : String → Instant → Envelope → Result EnvelopeError Envelope
  unfolding new_envelope
  onward_envelope id now e = post_init (record (new_envelope id now "") {
    correlation_id = e.correlation_id;
    causation_id = e.id;
    first_seen = e.first_seen;
    headers = e.headers;
    extensions = e.extensions;
  })

  unfoldable pub send_onward :
      R
      → Result EnvelopeError Envelope
      → List PublishEvent
      → Result PublishFault PublishResult × List PublishEvent
  send_onward payload (err x) t = (err refused_envelope, t)
  send_onward payload (ok e) t = send publisher payload (some e) none "" t

  abbrev not_out : Message P → PublishFault → Failure
  not_out m fault = record {
    kind = ordinary;
    name = "RuntimeError";
    text = concat (
        "acemq: the work for message "
        ∷ m.envelope.id
        ∷ " is done but the next message did not go out: "
        ∷ (failure_of publisher.words fault).text
        ∷ []);
  }

  unfoldable pub after_send :
      Message P → Result PublishFault PublishResult → World W → Result PublishFault Ack × World W
  after_send m (ok result) w = (ok answers.accept, w)
  after_send m (err cancelled) w = (err cancelled, w)
  after_send m (err fault) w = (ok (answers.retry (some (not_out m fault))), w)

  unfoldable pub after_produced :
      Message P → Result PublishFault (Produced R) → World W → Result PublishFault Ack × World W
  unfolding after_send send_onward onward_envelope
  after_produced m (err fault) w = (err fault, w)
  after_produced m (ok nothing) w = (ok answers.accept, w)
  after_produced m (ok (onward payload)) w =
      let out =
        send_onward payload
          (onward_envelope (publisher.fresh_id w.sent) (publisher.now w.sent) m.envelope) w.sent in
      after_send m out.0 (record w { sent = out.1 })

  -- `then`, of which this is `onwards`.
  unfoldable pub onwards : Handler W P
  unfolding after_produced
  onwards m w =
      let produced = step m w.own in after_produced m produced.0 (record w { own = produced.1 })
