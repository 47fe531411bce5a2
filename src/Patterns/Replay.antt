-- ===== src/Patterns/Replay.antt =====
-- patterns/replay.py: messages from a queue go back onto an exchange: the data and one copy.
pub mod Pass
mod Counts
mod Copies
mod Endings
mod Accounted
mod Tests
use acemq_python_amqp.Prelude.{
  ℕ, ◌+◌, String, Bool, true, false, ◌&&◌, Option, some, none, List, [], ◌∷◌, ◌++◌, Result, ok, err,
  concat, if◌then◌else◌, str_eq, leb,
}
use acemq_python_amqp.Prelude.Int.{ℤ, pos, ltb_ℤ, leb_ℤ, ◌+ℤ◌}
use acemq_python_amqp.Dict.{Dict, get, put}
use acemq_python_amqp.Headers.{
  HeaderValue, absent, bytes, boolean, integer, text, other, or_absent, Interpreter,
}
use acemq_python_amqp.Envelope.{
  Envelope, EnvelopeError, Instant, post_init, from_headers, to_headers,
}
use acemq_python_amqp.Retry.{Duration, zero_duration}
use acemq_python_amqp.Ack.{Failure}
use acemq_python_amqp.Consumer.Effects.{Bytes, Outbound, Delivery}
use acemq_python_amqp.Publisher.Outstanding.{
  PublishResult, PublishError, PublishFault, declined, raised, Request, cancelled, Wording, Weather,
  publish_raw,
}
use acemq_python_amqp.Publisher.Sending.{refused_envelope}
use acemq_python_amqp.Patterns.RoutingSlip.Travel.{failure_of}
use Prim.Native.String

abbrev pub replayed_from_header : String
replayed_from_header = "acemq-replayed-from"

abbrev pub replayed_at_header : String
replayed_at_header = "acemq-replayed-at"

abbrev pub replay_count_header : String
replay_count_header = "acemq-replay-count"

pub record ReplayResult : Type 0 where
  pub moved : ℕ
  pub skipped : ℕ
  pub reason : String

-- What a pass does: it takes a message, hands a copy to `publish_raw`, which answers, and settles the
-- message. `ack_raised` and `return_raised` are an `ack` and a `nack` that raised: the message is not
-- known to be settled.
pub data ReplayEvent : Type 0 where
  pulled : Delivery → ReplayEvent
  handed_over : String → String → Outbound → Result PublishFault PublishResult → ReplayEvent
  acked : Delivery → ReplayEvent
  ack_raised : Delivery → ReplayEvent
  returned : Delivery → ReplayEvent
  return_raised : Delivery → ReplayEvent

-- What `replay` raises: a ValueError, a ReplayError with its text, or what it does not catch, from
-- the reading of an envelope, from the filter, or the cancellation of its task.
pub data ReplayFault : Type 0 where
  no_queue negative_wait : ReplayFault
  replay_failed : ReplayResult → String → ReplayFault
  unread : EnvelopeError → ReplayFault
  escaped : PublishFault → ReplayFault

-- What `replay` is called with, and what it calls: the filter, what each publish meets, the answer of
-- an acknowledgement, the clocks and identifiers. Each may depend on all that has happened, the latest
-- first.
pub record Replay : Type 0 where
  pub queue : String
  pub exchange : String
  pub routing_key : Option String
  pub limit : ℤ
  pub deadline : Option Duration
  pub only : Option (List ReplayEvent → Envelope → Bytes → Result Failure Bool)
  pub restart : Bool
  pub return_wait : Duration
  pub max_outstanding : ℕ
  pub confirm_timeout : Duration
  pub py : Interpreter
  pub words : Wording
  pub iso_millis : Instant → String
  pub weather : List ReplayEvent → Weather
  pub ack_answer : List ReplayEvent → Result PublishFault Unit
  pub nack_answer : List ReplayEvent → Option Failure
  pub clock : List ReplayEvent → Instant
  pub now : List ReplayEvent → Instant
  pub fresh_id : List ReplayEvent → String

abbrev text_length : String → ℕ
text_length String.[] = 0
text_length (String.◌∷◌ c s) = text_length s + 1

-- `s[:-n]`
unfoldable pub without_last : ℕ → String → String
without_last n String.[] = ""
without_last n (String.◌∷◌ c s) =
    let rest = without_last n s in if leb n (text_length s) then String.◌∷◌ c rest else rest

-- `_replayed_at`, of what `isoformat` writes.
unfoldable pub replayed_at : String → String
replayed_at iso = concat (without_last 6 iso ∷ "Z" ∷ [])

abbrev parsed_or_zero : Option ℤ → ℤ
parsed_or_zero none = pos 0
parsed_or_zero (some n) = n

-- `_replays_so_far`, of the header. The `str` of None and of bytes is no integer.
unfoldable pub replays_so_far : Interpreter → HeaderValue → ℤ
replays_so_far py (boolean b) = pos 0
replays_so_far py (integer n) = n
replays_so_far py (text s) = parsed_or_zero (py.int_of_text s)
replays_so_far py (other n) = parsed_or_zero (py.int_of_text (py.str_of_other n))
replays_so_far py absent = pos 0
replays_so_far py (bytes b) = pos 0

abbrev pub or_empty : Option String → String
or_empty none = ""
or_empty (some s) = s

abbrev pub or_own : String → Option String → String
or_own own none = own
or_own own (some key) = key

-- An `ack` that returned, or raised.
unfoldable pub ack_event : Result PublishFault Unit → Delivery → ReplayEvent
ack_event (ok done) d = acked d
ack_event (err fault) d = ack_raised d

-- `_return_quietly`: an exception of `nack` is logged and no more.
unfoldable pub return_event : Option Failure → Delivery → ReplayEvent
return_event none d = returned d
return_event (some failure) d = return_raised d

module _ (s : Replay) where
  -- `envelope.with_(attempt=1, error="") if restart else envelope`
  unfoldable pub going_back : Envelope → Result EnvelopeError Envelope
  going_back e = if s.restart then post_init (record e { attempt = pos 1; error = "" }) else ok e

  unfoldable pub replay_headers : Envelope → Envelope → String → List ReplayEvent → Dict HeaderValue
  unfolding replays_so_far replayed_at
  replay_headers back e key t =
      put replay_count_header
        (integer (replays_so_far s.py (or_absent (get replay_count_header e.headers)) +ℤ pos 1))
        (put replayed_at_header (text (replayed_at (s.iso_millis (s.now t))))
          (put replayed_from_header (text s.queue) (to_headers s.py back key)))

  unfoldable pub copy_back : Delivery → Envelope → Envelope → String → List ReplayEvent → Outbound
  unfolding replay_headers
  copy_back d back e key t = record {
    body = d.body;
    content_type = or_empty d.content_type;
    message_id = back.id;
    reply_to = "";
    headers = replay_headers back e key t;
    persistent = true;
    mandatory = true;
  }

  abbrev pub nowhere_to_go : Envelope → String → String → PublishError
  nowhere_to_go back key reason = record {
    message_id = back.id;
    exchange = s.exchange;
    routing_key = key;
    reason = if str_eq reason "" then "no queue is bound to receive it" else reason;
    unroutable = true;
    summary = "";
  }

  unfoldable pub return_quietly : Delivery → List ReplayEvent → List ReplayEvent
  unfolding return_event
  return_quietly d t = return_event (s.nack_answer t) d ∷ t

  -- What comes of a publish that returned: was the copy routed?
  unfoldable pub settle_copied :
      Bool
      → Delivery
      → PublishError
      → List ReplayEvent
      → Result PublishFault Unit × List ReplayEvent
  unfolding ack_event return_quietly
  settle_copied true d unroutable t = (s.ack_answer t, ack_event (s.ack_answer t) d ∷ t)
  settle_copied false d unroutable t = (err (declined unroutable), return_quietly d t)

  -- The `except` around the publish, and the acknowledgement after it. The trace has the publish.
  unfoldable pub after_publish :
      Delivery
      → Envelope
      → String
      → Result PublishFault PublishResult
      → List ReplayEvent
      → Result PublishFault Unit × List ReplayEvent
  unfolding settle_copied return_quietly
  after_publish d back key (err cancelled) t = (err cancelled, t)
  after_publish d back key (err fault) t = (err fault, return_quietly d t)
  after_publish d back key (ok result) t =
      settle_copied result.routed d (nowhere_to_go back key result.return_reason) t

  unfoldable pub move_back :
      Delivery
      → Envelope
      → Result EnvelopeError Envelope
      → List ReplayEvent
      → Result PublishFault Unit × List ReplayEvent
  unfolding after_publish copy_back
  move_back d e (err x) t = (err refused_envelope, t)
  move_back d e (ok back) t =
      let key = or_own d.routing_key s.routing_key in
      let request : Request = record {
        message_id = back.id;
        exchange = s.exchange;
        routing_key = key;
      } in
      let answer = publish_raw s.words s.max_outstanding s.confirm_timeout request (s.weather t) in
      after_publish d back key answer
        (handed_over s.exchange key (copy_back d back e key t) answer ∷ t)

  -- `_move`
  unfoldable pub move :
      Delivery → Envelope → List ReplayEvent → Result PublishFault Unit × List ReplayEvent
  unfolding move_back going_back
  move d e t = move_back d e (going_back e) t
