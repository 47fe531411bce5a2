-- ===== src/Patterns/RoutingSlip/Travel.antt =====
-- patterns/routingslip.py: `start`, `_follower` and its handler `travel`.
use acemq_python_amqp.Prelude.{
  String, Bool, true, false, not, Option, some, none, List, [], ◌∷◌, Result, ok, err, ◌>>=◌, concat,
  if◌then◌else◌, str_eq,
}
use acemq_python_amqp.Dict.{keep_keys}
use acemq_python_amqp.Headers.{Interpreter}
use acemq_python_amqp.Envelope.{Envelope, post_init}
use acemq_python_amqp.Ack.{Ack, Failure, FailureKind, fatal, ordinary}
use acemq_python_amqp.Ack.Answers as answers
use acemq_python_amqp.Consumer.Effects.{Message}
use acemq_python_amqp.Publisher.Outstanding.{
  PublishResult, PublishFault, paused, declined, raised, cancelled, Wording, error_text,
}
use acemq_python_amqp.Publisher.Sending.{PublishEvent, Publisher, new_envelope, send}
use acemq_python_amqp.Patterns.RoutingSlip.Slip.{
  slip_header, SlipForm, SlipError, envelope_result, Step, text_of_step, RoutingSlip, next_step,
  advance, written_as, onto,
}
use acemq_python_amqp.Patterns.RoutingSlip.Reading.{SlipText, fatal_error, slip_from}

-- How a run ended, and what it is recorded with.
pub data RunOutcome : Type 0 where
  completed ended_early : RunOutcome

pub record Run : Type 0 where
  pub pipeline : String
  pub step : String
  pub outcome : RunOutcome

-- The world of a follower: the step's own, what the publishers did, the runs that were recorded.
pub record World (W : Type 0) : Type 0 where
  pub own : W
  pub sent : List PublishEvent
  pub runs : List Run

-- What a follower is built from. `step` returns `none` for NOTHING; `publisher` is what the connection
-- makes a publisher from; the instant, the identifiers and the texts of a slip's ValueErrors are
-- parameters.
pub record Follower (W P : Type 0) : Type 0 where
  pub pipeline : String
  pub form : Option SlipForm
  pub unslipped : Option RoutingSlip
  pub py : Interpreter
  pub words : Wording
  pub texts : SlipText
  pub step : Message P → W → Result PublishFault (Option P) × W
  pub publisher : Publisher P
  pub isoformat : World W → String
  pub fresh_id : World W → String
  pub fresh_run : World W → String
  pub says : SlipError → String

-- An exception that `except Exception` catches, and whether it is a FatalError.
unfoldable pub failure_of : Wording → PublishFault → Failure
failure_of words (paused e) = record {
  kind = ordinary;
  name = "PublishingPausedError";
  text = error_text words e;
}
failure_of words (declined e) = record {
  kind = ordinary;
  name = "PublishError";
  text = error_text words e;
}
failure_of words (raised f) = f
failure_of words cancelled = record { kind = ordinary; name = "CancelledError"; text = "" }

abbrev pub is_fatal : FailureKind → Bool
is_fatal fatal = true
is_fatal _ = false

-- The publisher of a step: `connection.publisher(exchange, routing_key, mandatory=True)`
abbrev pub bound_for : {P : Type 0} → Publisher P → Step → Publisher P
bound_for p s = record p { exchange = s.exchange; routing_key = s.routing_key; mandatory = true }

-- `slip if form is None else slip.written_as(form)`
unfoldable pub in_form : Option SlipForm → String → RoutingSlip → Result SlipError RoutingSlip
in_form none fresh slip = ok slip
in_form (some form) fresh slip = written_as fresh form slip

-- The envelope of the next hop, before it has a slip.
unfoldable pub next_envelope : String → String → Envelope → Envelope
unfolding new_envelope
next_envelope id origin incoming = record (new_envelope id incoming.first_seen origin) {
  correlation_id = incoming.correlation_id;
  causation_id = incoming.id;
  headers = keep_keys (λ name. not (str_eq name slip_header)) incoming.headers;
  extensions = incoming.extensions;
}

module _ {W P : Type 0} (f : Follower W P) where
  -- The `try` around the writing of the next hop.
  unfoldable pub write_on : RoutingSlip → Envelope → World W → Result SlipError Envelope
  unfolding in_form onto next_envelope
  write_on advanced incoming w = in_form f.form (f.fresh_run w) advanced >>= λ written.
      envelope_result (post_init (next_envelope (f.fresh_id w) f.publisher.origin incoming))
      >>= λ outgoing. onto f.texts.json (f.fresh_run w) written outgoing

  unfoldable pub record_run : Option Step → RunOutcome → World W → World W
  record_run here outcome w = record w {
    runs =
        record {
          pipeline = elim here [
            | none ↦ f.pipeline
            | some s ↦ if str_eq f.pipeline "" then s.exchange else f.pipeline
          ];
          step = elim here [ none ↦ "" | some s ↦ text_of_step s ];
          outcome = outcome;
        }
        ∷ w.runs;
  }

  abbrev shown : Option Step → String
  shown none = ""
  shown (some s) = text_of_step s

  -- The `try` around the publish.
  unfoldable pub after_hop :
      Option Step
      → Message P
      → Result PublishFault PublishResult
      → World W
      → Result PublishFault Ack × World W
  after_hop here message (ok result) w = (ok answers.accept, w)
  after_hop here message (err cancelled) w = (err cancelled, w)
  after_hop here message (err fault) w = (
    ok (
        answers.retry (
          some (record {
            kind = ordinary;
            name = "RuntimeError";
            text = concat (
                "acemq: "
                ∷ shown here
                ∷ " is done for message "
                ∷ message.envelope.id
                ∷ " but the next step did not go out: "
                ∷ (failure_of f.words fault).text
                ∷ []);
          }))),
    w,
  )

  -- The publish of the next hop, once its envelope is written or is not.
  unfoldable pub hop_on :
      Option Step
      → Step
      → P
      → Message P
      → Result SlipError Envelope
      → World W
      → Result PublishFault Ack × World W
  unfolding after_hop
  hop_on here onwards payload message (err x) w = (
    ok (
        answers.reject (
          some (
            fatal_error f.py f.texts (
              "acemq: "
              ∷ shown here
              ∷ " is done for message "
              ∷ message.envelope.id
              ∷ " but its slip cannot be written on: "
              ∷ f.says x
              ∷ [])))),
    w,
  )
  hop_on here onwards payload message (ok outgoing) w =
      let answer = send (bound_for f.publisher onwards) payload (some outgoing) none "" w.sent in
      after_hop here message answer.0 (record w { sent = answer.1 })

  -- Where the slip goes on, and what the step returned.
  unfoldable pub go_on :
      Option Step
      → RoutingSlip
      → Option Step
      → Option P
      → Message P
      → World W
      → Result PublishFault Ack × World W
  unfolding record_run hop_on write_on
  go_on here advanced none payload message w = (ok answers.accept, record_run here completed w)
  go_on here advanced (some onwards) none message w =
      (ok answers.accept, record_run here ended_early w)
  go_on here advanced (some onwards) (some payload) message w =
      hop_on here onwards payload message (write_on advanced message.envelope w) w

  unfoldable pub after_step :
      RoutingSlip
      → Message P
      → Result PublishFault (Option P)
      → World W
      → Result PublishFault Ack × World W
  unfolding go_on
  after_step slip message (err cancelled) w = (err cancelled, w)
  after_step slip message (err fault) w =
      let failure = failure_of f.words fault in
      (
        ok (
            if is_fatal failure.kind
            then answers.reject (some failure)
            else answers.retry (some failure)),
        w,
      )
  after_step slip message (ok payload) w =
      let advanced = advance (f.isoformat w) slip in
      go_on (next_step slip) advanced (next_step advanced) payload message w

  unfoldable pub with_slip :
      Option RoutingSlip → Message P → World W → Result PublishFault Ack × World W
  unfolding after_step
  with_slip none message w = (
    ok (
        answers.reject (
          some (
            fatal_error f.py f.texts (
              "acemq: message " ∷ message.envelope.id
              ∷ " has no routing slip, so there is nowhere to send it next" ∷ [])))),
    w,
  )
  with_slip (some slip) message w =
      let answer = f.step message w.own in
      after_step slip message answer.0 (record w { own = answer.1 })

  abbrev pub or_unslipped : Option RoutingSlip → Option RoutingSlip
  or_unslipped none = f.unslipped
  or_unslipped (some slip) = some slip

  unfoldable pub after_reading :
      Result Failure (Option RoutingSlip) → Message P → World W → Result PublishFault Ack × World W
  unfolding with_slip
  after_reading (err unreadable) message w = (ok (answers.reject (some unreadable)), w)
  after_reading (ok found) message w = with_slip (or_unslipped found) message w

  -- `travel`
  unfoldable pub travel : Message P → World W → Result PublishFault Ack × World W
  unfolding after_reading
  travel message w = after_reading (slip_from f.py f.texts message.envelope f.pipeline) message w
