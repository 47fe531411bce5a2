-- ===== src/Headers.antt =====
-- src/acemq_amqp/headers.py: the names on the wire, and the values that a header may carry.
use package.text.Mathlib.Text.{starts_with}
use acemq_python_amqp.Prelude.{
  ℕ, String, Bool, false, ◌||◌, List, [], ◌∷◌, Option, some, none, str_eq,
}
use acemq_python_amqp.Prelude.Int.{ℤ}

abbrev pub id_header : String
id_header = "x-acemq-id"

abbrev pub type_header : String
type_header = "x-acemq-type"

abbrev pub version_header : String
version_header = "x-acemq-version"

abbrev pub correlation_header : String
correlation_header = "x-acemq-correlation"

abbrev pub causation_header : String
causation_header = "x-acemq-causation"

abbrev pub attempt_header : String
attempt_header = "x-acemq-attempt"

abbrev pub first_seen_header : String
first_seen_header = "x-acemq-first-seen"

abbrev pub origin_header : String
origin_header = "x-acemq-origin"

abbrev pub error_header : String
error_header = "x-acemq-error"

abbrev pub claim_header : String
claim_header = "x-acemq-claim"

abbrev pub route_header : String
route_header = "x-acemq-route"

abbrev pub route_position_header : String
route_position_header = "x-acemq-route-position"

abbrev pub route_id_header : String
route_id_header = "x-acemq-route-id"

abbrev pub prefix : String
prefix = "x-acemq-"

abbrev pub reserved : List String
reserved =
    id_header ∷ type_header ∷ version_header ∷ correlation_header ∷ causation_header
    ∷ attempt_header ∷ first_seen_header ∷ origin_header ∷ error_header ∷ claim_header
    ∷ route_header ∷ route_position_header ∷ route_id_header ∷ []

-- `name in RESERVED`
abbrev pub one_of : String → List String → Bool
one_of name [] = false
one_of name (k ∷ ks) = str_eq name k || one_of name ks

unfoldable pub is_known : String → Bool
is_known name = one_of name reserved

unfoldable pub is_reserved : String → Bool
is_reserved name = starts_with name prefix

-- What stands behind a header's name. `other` is a value of a type that the library does not look
-- into (a float, a timestamp, a table), by a number that names it.
pub data HeaderValue : Type 0 where
  absent : HeaderValue
  boolean : Bool → HeaderValue
  integer : ℤ → HeaderValue
  text : String → HeaderValue
  bytes : List ℕ → HeaderValue
  other : ℕ → HeaderValue

-- `raw.get(name)`, where a missing key and None are one.
abbrev pub or_absent : Option HeaderValue → HeaderValue
or_absent none = absent
or_absent (some v) = v

-- What the interpreter computes on these values: `decode("utf-8", errors="replace")`, `int(text)`,
-- whose `none` is a ValueError, `str` of each type and of a
-- `timedelta`, and the conversions between an instant in
-- microseconds and whole milliseconds, which go through a float; `none` is what
-- `datetime.fromtimestamp` raises out of its range.
pub record Interpreter : Type 0 where
  pub decode_utf8 : List ℕ → String
  pub int_of_text : String → Option ℤ
  pub str_of_bool : Bool → String
  pub str_of_int : ℤ → String
  pub str_of_other : ℕ → String
  pub str_of_timedelta : ℤ → String
  pub millis : ℤ → ℤ
  pub from_millis : ℤ → Option ℤ

module _ (py : Interpreter) where
  -- `_text` of envelope.py
  unfoldable pub text_of : HeaderValue → String
  text_of absent = ""
  text_of (bytes b) = py.decode_utf8 b
  text_of (boolean b) = py.str_of_bool b
  text_of (integer n) = py.str_of_int n
  text_of (text s) = s
  text_of (other n) = py.str_of_other n

  -- `int(_text(value))`, or the fallback.
  abbrev pub parsed_or : ℤ → Option ℤ → ℤ
  parsed_or fallback none = fallback
  parsed_or fallback (some n) = n

  -- `_number` of envelope.py
  unfoldable pub number_of : HeaderValue → ℤ → ℤ
  unfolding text_of
  number_of (boolean b) fallback = fallback
  number_of (integer n) fallback = n
  number_of v fallback = parsed_or fallback (py.int_of_text (text_of v))
