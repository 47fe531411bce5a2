-- ===== src/Patterns/Scheduler.antt =====
-- patterns/scheduler.py: messages that are delivered later, through a ladder of queues whose messages
-- expire.
pub mod Ladder
pub mod Kept
pub mod Journey
mod Tests
use acemq_python_amqp.Prelude.{
  ℕ, suc, ◌/◌, ◌%◌, ◌==◌, String, Bool, true, false, ◌||◌, Option, none, some, List, [], ◌∷◌,
  Result, ok, err, concat, if◌then◌else◌, str_eq,
}
use acemq_python_amqp.Prelude.Int.{ℤ, pos, pos_part, ltb_ℤ, leb_ℤ, ◌+ℤ◌, ◌-ℤ◌}
use acemq_python_amqp.Dict.{Dict, get, put}
use acemq_python_amqp.Headers.{
  HeaderValue, absent, boolean, integer, text, Interpreter, or_absent, text_of,
}
use acemq_python_amqp.Envelope.{Instant}
use acemq_python_amqp.Retry.{Duration}
use acemq_python_amqp.Ack.{Ack, Failure, ordinary, default_in_progress_delay}
use acemq_python_amqp.Ack.Answers as answers
use acemq_python_amqp.Consumer.Effects.{Bytes}

abbrev pub schedule_exchange : String
schedule_exchange = "acemq.schedule"

abbrev pub schedule_due : String
schedule_due = "acemq.schedule.due"

abbrev pub exchange_header : String
exchange_header = "x-schedule-exchange"

abbrev pub routing_key_header : String
routing_key_header = "x-schedule-routing-key"

abbrev pub due_at_header : String
due_at_header = "x-schedule-due-at"

abbrev pub content_type_header : String
content_type_header = "x-schedule-content-type"

-- SCHEDULE_RUNGS: an hour, ten minutes, a minute, ten seconds, a second.
abbrev pub schedule_rungs : List Duration
schedule_rungs = pos 3600000000 ∷ pos 600000000 ∷ pos 60000000 ∷ pos 10000000 ∷ pos 1000000 ∷ []

-- SCHEDULE_RUNGS[-1]
abbrev pub shortest_rung : Duration
shortest_rung = pos 1000000

abbrev pub schedule_retry_rung : Duration
schedule_retry_rung = pos 10000000

abbrev pub json_content_type : String
json_content_type = "application/json"

-- `next((candidate for candidate in rungs if candidate <= remaining), SCHEDULE_RUNGS[-1])`
unfoldable pub first_rung : List Duration → Duration → Duration
first_rung [] remaining = shortest_rung
first_rung (candidate ∷ rungs) remaining =
    let rest = first_rung rungs remaining in if leb_ℤ candidate remaining then candidate else rest

-- A message that is published: where, and as what.
pub record Sent : Type 0 where
  pub exchange : String
  pub routing_key : String
  pub content_type : String
  pub body : Bytes
  pub headers : Dict HeaderValue

-- The counters of a scheduler, and what it has published, the latest first; `none` is a publish that
-- came back, `some` one that raised.
pub record Scheduler : Type 0 where
  pub scheduled : ℕ
  pub delivered : ℕ
  pub hops : ℕ
  pub sent : List (Sent × Option Failure)

-- The AceMQErrors of `_forward` and `_number`.
abbrev pub unreadable : String → Failure
unreadable message = record { kind = ordinary; name = "AceMQError"; text = message }

-- A publish that raises, or comes back.
abbrev pub raised_or : Option Failure → Result Failure Unit
raised_or none = ok tt
raised_or (some failure) = err failure

abbrev pub is_none : {A : Type 0} → Option A → Bool
is_none none = true
is_none (some a) = false

abbrev pub is_absent : HeaderValue → Bool
is_absent absent = true
is_absent _ = false

-- A header that `_forward` needs is not there.
abbrev pub unscheduled : Dict HeaderValue → Bool
unscheduled headers =
    is_absent (or_absent (get due_at_header headers))
    || is_none (get exchange_header headers)
    || is_none (get routing_key_header headers)

-- What `_forward` answers once `_route` has returned or raised.
abbrev pub routed : Result Failure Unit → Result Failure Ack
routed (ok done) = ok answers.accept
routed (err failure) = ok (answers.in_progress default_in_progress_delay)

-- `_from_millis`: an instant that `fromtimestamp` does not reach raises an exception that
-- `_forward` does not catch.
abbrev pub out_of_range : Failure
out_of_range = record { kind = ordinary; name = "ValueError"; text = "" }

abbrev pub or_json : String → String
or_json content_type = if str_eq content_type "" then json_content_type else content_type

module _ (py : Interpreter) where
  -- `_describe`, over the whole milliseconds of the rung.
  unfoldable pub describe : Duration → String
  describe rung =
      let millis = pos_part rung / 1000 in
      if millis % 3600000 == 0
      then concat (py.str_of_int (pos (millis / 3600000)) ∷ "h" ∷ [])
      else if millis % 60000 == 0
      then concat (py.str_of_int (pos (millis / 60000)) ∷ "m" ∷ [])
      else concat (py.str_of_int (pos (millis / 1000)) ∷ "s" ∷ [])

  unfoldable pub schedule_rung_name : Duration → String
  unfolding describe
  schedule_rung_name rung = concat (schedule_exchange ∷ "." ∷ describe rung ∷ [])

  abbrev pub parsed : Option ℤ → Result Failure ℤ
  parsed none = err (unreadable "x-schedule-due-at is not a number")
  parsed (some n) = ok n

  -- `_number`: a Boolean is refused, and a text that is no integer.
  unfoldable pub number : HeaderValue → Result Failure ℤ
  number (boolean b) = err (unreadable "x-schedule-due-at is not a number")
  number (integer n) = ok n
  number v = parsed (py.int_of_text (text_of py v))

  module _ (now : Instant) (publish : List (Sent × Option Failure) → Sent → Option Failure) where
    abbrev pub Action : Type 0
    Action = Scheduler → Result Failure Unit × Scheduler

    unfoldable pub send : Sent → Action
    send message s =
        let answer = publish s.sent message in
        (raised_or answer, record s { sent = (message, answer) ∷ s.sent })

    abbrev pub in_rung : Bytes → Dict HeaderValue → Duration → Sent
    in_rung body headers rung = record {
      exchange = schedule_exchange;
      routing_key = schedule_rung_name rung;
      content_type = "application/octet-stream";
      body = body;
      headers = headers;
    }

    -- `_hop`
    unfoldable pub hop : Bytes → Dict HeaderValue → Duration → Action
    hop body headers rung s = send (in_rung body headers rung) (record s { hops = suc s.hops })

    abbrev pub at_target : Bytes → Dict HeaderValue → Sent
    at_target body headers = record {
      exchange = text_of py (or_absent (get exchange_header headers));
      routing_key = text_of py (or_absent (get routing_key_header headers));
      content_type = or_json (text_of py (or_absent (get content_type_header headers)));
      body = body;
      headers = [];
    }

    -- `_deliver`, once the publish has come back or has raised.
    unfoldable pub after_delivery : Result Failure Unit → Bytes → Dict HeaderValue → Action
    after_delivery (ok done) body headers s = (ok tt, record s { delivered = suc s.delivered })
    after_delivery (err refused) body headers s = hop body headers schedule_retry_rung s

    unfoldable pub deliver : Bytes → Dict HeaderValue → Action
    deliver body headers s =
        let (returned, s') = send (at_target body headers) s in
        after_delivery returned body headers s'

    -- `_route`
    unfoldable pub route : Bytes → Dict HeaderValue → Instant → Action
    route body headers when s =
        let remaining = when -ℤ now in
        if ltb_ℤ remaining shortest_rung
        then deliver body headers s
        else hop body headers (first_rung schedule_rungs remaining) s

    abbrev pub scheduled_headers : String → String → Instant → String → Dict HeaderValue
    scheduled_headers exchange routing_key when content_type =
        (exchange_header, text exchange)
        ∷ (routing_key_header, text routing_key)
        ∷ (due_at_header, integer (py.millis when))
        ∷ (content_type_header, text content_type)
        ∷ []

    -- `at`, for a moment with a time zone, with the payload as the codec encodes it.
    unfoldable pub at : Instant → String → String → String → Bytes → Action
    at when exchange routing_key content_type encoded s =
        route encoded (scheduled_headers exchange routing_key when content_type) when
          (record s { scheduled = suc s.scheduled })

    -- `after`, called at an instant no later than the one that `_route` reads.
    unfoldable pub after : Instant → Duration → String → String → String → Bytes → Action
    after called delay exchange routing_key content_type encoded s =
        at (called +ℤ delay) exchange routing_key content_type encoded s

    unfoldable pub forward_at :
        Option Instant → Bytes → Dict HeaderValue → Scheduler → Result Failure Ack × Scheduler
    forward_at none body headers s = (err out_of_range, s)
    forward_at (some when) body headers s =
        let (returned, s') = route body headers when s in (routed returned, s')

    unfoldable pub forward_due :
        Result Failure ℤ → Bytes → Dict HeaderValue → Scheduler → Result Failure Ack × Scheduler
    forward_due (err failure) body headers s = (ok (answers.reject (some failure)), s)
    forward_due (ok millis) body headers s = forward_at (py.from_millis millis) body headers s

    -- `_forward`
    unfoldable pub forward : Bytes → Dict HeaderValue → Scheduler → Result Failure Ack × Scheduler
    forward body headers s =
        let due_at = or_absent (get due_at_header headers) in
        let moved = forward_due (number due_at) body headers s in
        if unscheduled headers
        then (
          ok (
              answers.reject
                (some (unreadable "a message without the headers of a scheduled one"))),
          s,
        )
        else moved
