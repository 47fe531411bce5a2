-- ===== src/Envelope.antt =====
-- src/acemq_amqp/envelope.py: the metadata that travels with a message, and its headers.
pub mod Lookups
pub mod RoundTrip
pub mod Tests
use acemq_python_amqp.Prelude.{
  ℕ, String, ◌≡◌, ◌≢◌, Bool, true, false, not, ◌||◌, ◌&&◌, List, [], ◌∷◌, ◌++◌, Option, some, none,
  Result, ok, err, if◌then◌else◌, str_eq,
}
use acemq_python_amqp.Prelude.Int.{ℤ, pos, ltb_ℤ, ◌≤ℤ◌}
use acemq_python_amqp.Dict.{Dict, get, put, update, keep_keys, Unique}
use acemq_python_amqp.Headers
use acemq_python_amqp.Headers.{
  HeaderValue, integer, text, Interpreter, is_reserved, is_known, text_of, number_of, or_absent,
}

-- A `datetime` with a time zone: microseconds since the epoch.
abbrev pub Instant : Type 0
Instant = ℤ

abbrev pub default_type : String
default_type = "message"

pub record Envelope : Type 0 where
  pub id : String
  pub type : String
  pub version : ℤ
  pub correlation_id : String
  pub causation_id : String
  pub attempt : ℤ
  pub first_seen : Instant
  pub origin : String
  pub error : String
  pub claim : String
  pub route : String
  pub route_position : ℤ
  pub route_id : String
  pub headers : Dict HeaderValue
  pub extensions : Dict HeaderValue

-- The ValueError of `__post_init__`, and what `datetime.fromtimestamp` raises out of its range.
pub data EnvelopeError : Type 0 where
  reserved_names out_of_range : EnvelopeError

-- `a or b` on texts.
abbrev pub or_text : String → String → String
or_text a b = if str_eq a "" then b else a

unfoldable pub any_reserved : Dict HeaderValue → Bool
any_reserved [] = false
any_reserved ((k, v) ∷ d) = is_reserved k || any_reserved d

abbrev at_least : ℤ → ℤ → ℤ
at_least least n = if ltb_ℤ n least then least else n

-- The fields that `__post_init__` sets.
unfoldable pub filled : Envelope → Envelope
filled e = record e {
  correlation_id = or_text e.correlation_id e.id;
  attempt = at_least (pos 1) e.attempt;
  version = at_least (pos 1) e.version;
  route_position = at_least (pos 0) e.route_position;
}

-- `__post_init__`: the defaults of a new envelope, or the ValueError.
unfoldable pub post_init : Envelope → Result EnvelopeError Envelope
post_init e = if any_reserved e.headers then err reserved_names else ok (filled e)

-- What `__post_init__` leaves: an envelope that exists.
pub record IsValid (e : Envelope) : Type 0 where
  pub attempt_from_one : pos 1 ≤ℤ e.attempt
  pub version_from_one : pos 1 ≤ℤ e.version
  pub position_from_zero : pos 0 ≤ℤ e.route_position
  pub correlated : e.id ≢ "" → e.correlation_id ≢ ""
  pub unique : Unique e.headers
  pub application : (k : String) → is_reserved k ≡ true → get k e.headers ≡ none

-- `if value: written[name] = value`
unfoldable pub put_text : String → String → Dict HeaderValue → Dict HeaderValue
put_text name value d = if str_eq value "" then d else put name (text value) d

module _ (py : Interpreter) where
  -- The dict literal of `to_headers`.
  unfoldable pub always_written : Envelope → String → Dict HeaderValue
  always_written e routing_key =
      (Headers.id_header, text e.id)
      ∷ (Headers.type_header, text (or_text (or_text e.type routing_key) default_type))
      ∷ (Headers.version_header, integer e.version)
      ∷ (Headers.correlation_header, text (or_text e.correlation_id e.id))
      ∷ (Headers.attempt_header, integer e.attempt)
      ∷ (Headers.first_seen_header, integer (py.millis e.first_seen))
      ∷ []

  unfoldable pub put_route : Envelope → Dict HeaderValue → Dict HeaderValue
  unfolding put_text
  put_route e d =
      if str_eq e.route ""
      then d
      else put_text Headers.route_id_header e.route_id (
          put Headers.route_position_header (integer e.route_position)
            (put Headers.route_header (text e.route) d))

  -- The reserved headers, before the application's.
  unfoldable pub reserved_headers : Envelope → String → Dict HeaderValue
  unfolding always_written put_route
  reserved_headers e routing_key =
      let carried = keep_keys (λ k. not (is_known k)) e.extensions in
      let known = update carried (always_written e routing_key) in
      put_route e (
        put_text Headers.claim_header e.claim (
          put_text Headers.error_header e.error (
            put_text Headers.origin_header e.origin
              (put_text Headers.causation_header e.causation_id known))))

  unfoldable pub to_headers : Envelope → String → Dict HeaderValue
  to_headers e routing_key = update (reserved_headers e routing_key) e.headers

  -- `raw.get(name)`
  abbrev pub header : Dict HeaderValue → String → HeaderValue
  header raw name = or_absent (get name raw)

  -- The arguments that `from_headers` gives the constructor. `fresh` is what `uuid4` returns and
  -- `seen` the instant of the first-seen header.
  unfoldable pub read_fields : String → Instant → Dict HeaderValue → String → String → Envelope
  read_fields fresh seen raw routing_key message_id =
      let identifier =
        or_text (or_text (text_of py (header raw Headers.id_header)) message_id) fresh in
      record {
        id = identifier;
        type =
            or_text (or_text (text_of py (header raw Headers.type_header)) routing_key)
              default_type;
        version = number_of py (header raw Headers.version_header) (pos 1);
        correlation_id = or_text (text_of py (header raw Headers.correlation_header)) identifier;
        causation_id = text_of py (header raw Headers.causation_header);
        attempt = number_of py (header raw Headers.attempt_header) (pos 1);
        first_seen = seen;
        origin = text_of py (header raw Headers.origin_header);
        error = text_of py (header raw Headers.error_header);
        claim = text_of py (header raw Headers.claim_header);
        route = text_of py (header raw Headers.route_header);
        route_position = number_of py (header raw Headers.route_position_header) (pos 0);
        route_id = text_of py (header raw Headers.route_id_header);
        headers = keep_keys (λ k. not (is_reserved k)) raw;
        extensions = keep_keys (λ k. is_reserved k && not (is_known k)) raw;
      }

  -- `_number(first_seen, _millis(_now()))`
  abbrev pub seen_millis : Instant → Dict HeaderValue → ℤ
  seen_millis now raw = number_of py (header raw Headers.first_seen_header) (py.millis now)

  unfoldable pub read_envelope :
      Option Instant → String → Dict HeaderValue → String → String → Result EnvelopeError Envelope
  read_envelope none fresh raw routing_key message_id = err out_of_range
  read_envelope (some seen) fresh raw routing_key message_id =
      post_init (read_fields fresh seen raw routing_key message_id)

  unfoldable pub from_headers :
      String → Instant → Dict HeaderValue → String → String → Result EnvelopeError Envelope
  from_headers fresh now raw routing_key message_id =
      read_envelope (py.from_millis (seen_millis now raw)) fresh raw routing_key message_id
