-- ===== src/Publisher/Sending.antt =====
-- connection.py: `Publisher.send` and `_send`; interceptors.py: `PublishContext`.
use acemq_python_amqp.Prelude.{
  ℕ, String, Bool, true, not, ◌&&◌, Option, some, none, List, [], ◌∷◌, Result, ok, err,
  if◌then◌else◌, str_eq,
}
use acemq_python_amqp.Prelude.Int.{pos}
use acemq_python_amqp.Dict.{put}
use acemq_python_amqp.Headers.{HeaderValue, Interpreter}
use acemq_python_amqp.Envelope.{Envelope, EnvelopeError, Instant, post_init, filled, to_headers}
use acemq_python_amqp.Retry.{Duration}
use acemq_python_amqp.Ack.{ordinary}
use acemq_python_amqp.Consumer.Effects.{Bytes, Outbound}
use acemq_python_amqp.Interceptors.{Step, Interceptor, chain}
use acemq_python_amqp.Publisher.Outstanding.{
  PublishResult, PublishError, PublishFault, paused, declined, raised, cancelled, Request, Wording,
  Weather, publish_raw,
}

-- The outcomes that a publish is recorded with.
pub data PublishOutcome : Type 0 where
  confirmed refused failed unroutable : PublishOutcome

-- What a publish does: it hands bytes to `publish_raw`, and records a duration and a count, both
-- labelled with the exchange and the routing key.
pub data PublishEvent : Type 0 where
  handed_over : String → String → Outbound → PublishEvent
  duration total : String → String → PublishOutcome → PublishEvent

pub record PublishContext (P : Type 0) : Type 0 where
  pub exchange : String
  pub routing_key : String
  pub envelope : Envelope
  pub payload : P
  pub persistent : Bool
  pub mandatory : Bool
  pub reply_to : String

-- `self.envelope.with_(headers={**self.envelope.headers, name: value})`
unfoldable pub headed : Envelope → String → HeaderValue → Result EnvelopeError Envelope
headed e name value = post_init (record e { headers = put name value e.headers })

abbrev pub with_envelope :
    {P : Type 0}
    → PublishContext P
    → Result EnvelopeError Envelope
    → Result EnvelopeError (PublishContext P)
with_envelope c (ok e) = ok (record c { envelope = e })
with_envelope c (err x) = err x

unfoldable pub set_header :
    {P : Type 0} → String → HeaderValue → PublishContext P → Result EnvelopeError (PublishContext P)
set_header name value c = with_envelope c (headed c.envelope name value)

-- A publisher, with its connection and what they call: the codec, the interceptors, what each
-- publish meets, identifiers and the clock. Each may depend on all that has happened.
pub record Publisher (P : Type 0) : Type 0 where
  pub exchange : String
  pub routing_key : String
  pub persistent : Bool
  pub mandatory : Bool
  pub content_type : String
  pub origin : String
  pub max_outstanding : ℕ
  pub confirm_timeout : Duration
  pub py : Interpreter
  pub words : Wording
  pub encode : List PublishEvent → P → Result PublishFault Bytes
  pub weather : List PublishEvent → Weather
  pub interceptors :
      List PublishEvent
      → List
          (Interceptor (PublishContext P × List PublishEvent) (Result PublishFault PublishResult))
  pub fresh_id : List PublishEvent → String
  pub now : List PublishEvent → Instant

-- `Envelope(origin=…)`
unfoldable pub new_envelope : String → Instant → String → Envelope
new_envelope id now origin = filled (record {
  id = id;
  type = "";
  version = pos 1;
  correlation_id = "";
  causation_id = "";
  attempt = pos 1;
  first_seen = now;
  origin = origin;
  error = "";
  claim = "";
  route = "";
  route_position = pos 0;
  route_id = "";
  headers = [];
  extensions = [];
})

-- The ValueError of an envelope, as the exception that leaves the publisher.
abbrev pub refused_envelope : PublishFault
refused_envelope = raised (record { kind = ordinary; name = "ValueError"; text = "" })

abbrev pub or_default : {A : Type 0} → Option A → A → A
or_default none d = d
or_default (some a) d = a

module _ {P : Type 0} (p : Publisher P) where
  -- `record`, the function inside `_send`.
  unfoldable pub record_outcome :
      PublishContext P → PublishOutcome → List PublishEvent → List PublishEvent
  record_outcome c outcome t =
      total c.exchange c.routing_key outcome ∷ duration c.exchange c.routing_key outcome ∷ t

  -- The two `except` clauses: a cancellation passes both.
  unfoldable pub record_fault :
      PublishContext P → PublishFault → List PublishEvent → List PublishEvent
  unfolding record_outcome
  record_fault c (paused e) t = record_outcome c refused t
  record_fault c (declined e) t = record_outcome c failed t
  record_fault c (raised e) t = record_outcome c failed t
  record_fault c cancelled t = t

  abbrev pub outbound : PublishContext P → Bytes → Outbound
  outbound c body = record {
    body = body;
    content_type = p.content_type;
    message_id = c.envelope.id;
    reply_to = c.reply_to;
    headers = to_headers p.py c.envelope c.routing_key;
    persistent = c.persistent;
    mandatory = c.mandatory;
  }

  abbrev pub unroutable_error : PublishContext P → PublishResult → PublishError
  unroutable_error c result = record {
    message_id = c.envelope.id;
    exchange = c.exchange;
    routing_key = c.routing_key;
    reason =
        if str_eq result.return_reason ""
        then "no queue is bound to receive it"
        else result.return_reason;
    unroutable = true;
    summary = "";
  }

  -- The `try` of `_send`.
  unfoldable pub hand_over :
      PublishContext P
      → List PublishEvent
      → Result PublishFault Bytes
      → Result PublishFault PublishResult × List PublishEvent
  hand_over c t (err fault) = (err fault, t)
  hand_over c t (ok body) =
      let message = outbound c body in
      let call : Request = record {
        message_id = message.message_id;
        exchange = c.exchange;
        routing_key = c.routing_key;
      } in
      (
        publish_raw p.words p.max_outstanding p.confirm_timeout call (p.weather t),
        handed_over c.exchange c.routing_key message ∷ t,
      )

  -- `_send`, after its `try`.
  unfoldable pub report :
      PublishContext P
      → Result PublishFault PublishResult
      → List PublishEvent
      → Result PublishFault PublishResult × List PublishEvent
  unfolding record_fault record_outcome
  report c (err fault) t = (err fault, record_fault c fault t)
  report c (ok result) t =
      if c.mandatory && not result.routed
      then (err (declined (unroutable_error c result)), record_outcome c unroutable t)
      else (ok result, record_outcome c confirmed t)

  -- `_send`
  unfoldable pub send_encoded :
      Step (PublishContext P × List PublishEvent) (Result PublishFault PublishResult)
  send_encoded (c, t) =
      let (answer, t') = hand_over c t (p.encode t c.payload) in
      let (result, t'') = report c answer t' in (result, (c, t''))

  -- `send`, once the envelope has its origin.
  unfoldable pub send_envelope :
      P
      → String
      → String
      → Result EnvelopeError Envelope
      → List PublishEvent
      → Result PublishFault PublishResult × List PublishEvent
  send_envelope payload key reply_to (err x) t = (err refused_envelope, t)
  send_envelope payload key reply_to (ok outgoing) t =
      let context : PublishContext P = record {
        exchange = p.exchange;
        routing_key = key;
        envelope = outgoing;
        payload = payload;
        persistent = p.persistent;
        mandatory = p.mandatory;
        reply_to = reply_to;
      } in
      let (result, left) = chain (p.interceptors t) send_encoded (context, t) in (result, left.1)

  -- `if not outgoing.origin: outgoing = outgoing.with_(origin=…)`
  unfoldable pub from_here : Envelope → Result EnvelopeError Envelope
  from_here e = if str_eq e.origin "" then post_init (record e { origin = p.origin }) else ok e

  -- `send`
  unfoldable pub send :
      P
      → Option Envelope
      → Option String
      → String
      → List PublishEvent
      → Result PublishFault PublishResult × List PublishEvent
  send payload envelope key reply_to t =
      let outgoing = or_default envelope (new_envelope (p.fresh_id t) (p.now t) p.origin) in
      send_envelope payload (or_default key p.routing_key) reply_to (from_here outgoing) t
