-- ===== src/Envelope/Tests.antt =====
-- envelope.py at concrete messages. The interpreter here knows the texts of a few values.
use acemq_python_amqp.Prelude.{
  ◌≡◌, ◌⊎◌, refl, Option, some, none, [], ◌∷◌, ok, err, ltb, if◌then◌else◌, arith, str_eq, eq_iff,
  ◌*◌, ◌/◌, ◌≢◌,
}
use acemq_python_amqp.Prelude.Int.{ℤ, pos, negsuc}
use acemq_python_amqp.Dict.{Dict, get}
use acemq_python_amqp.Headers
use acemq_python_amqp.Headers.{HeaderValue, text, integer, Interpreter, is_reserved}
use acemq_python_amqp.Envelope.{
  Instant, Envelope, IsValid, any_reserved, filled, out_of_range, read_fields, seen_millis,
  to_headers, from_headers,
}
use acemq_python_amqp.Envelope.Lookups.{none_reserved}
use acemq_python_amqp.Envelope.RoundTrip.{from_headers_cases, Carried, from_headers-to_headers}

-- Milliseconds up to the year 9999.
abbrev instant_of : ℤ → Option ℤ
instant_of (pos n) = if ltb n 253402300800000 then some (pos (n * 1000)) else none
instant_of (negsuc n) = none

abbrev millis_of : ℤ → ℤ
millis_of (pos n) = pos (n / 1000)
millis_of (negsuc n) = pos 0

abbrev pub plain : Interpreter
plain = record {
  decode_utf8 = λ b. "";
  int_of_text = λ s. if str_eq s "3" then some (pos 3) else none;
  str_of_bool = λ b. if b then "True" else "False";
  str_of_int = λ n. "1";
  str_of_other = λ n. "";
  str_of_timedelta = λ d. "1 day, 0:00:00";
  millis = millis_of;
  from_millis = instant_of;
}

abbrev pub order : Envelope
order = record {
  id = "m1";
  type = "order.placed";
  version = pos 1;
  correlation_id = "m1";
  causation_id = "";
  attempt = pos 2;
  first_seen = pos 5000;
  origin = "shop";
  error = "";
  claim = "";
  route = "";
  route_position = pos 0;
  route_id = "";
  headers = ("tenant", text "acme") ∷ [];
  extensions = [];
}

pub order-IsValid : IsValid order
unfolding get is_reserved any_reserved
order-IsValid = record {
  attempt_from_one = omega arith;
  version_from_one = omega arith;
  position_from_zero = omega arith;
  correlated = λ named same. named same;
  unique = (refl, tt);
  application = λ k ours. none_reserved order.headers k refl ours;
}

pub order_named : order.id ≢ ""
order_named same = ground (arith, eq_iff "m1" "")

from_headers-to_headers_example :
    (e' : Envelope) × (from_headers plain "u1"
        (pos 9000)
        (to_headers plain order "orders")
        "orders"
        "m1"
      ≡ ok e')
    × Carried "orders" (pos 5000) order e'
unfolding get
from_headers-to_headers_example =
    from_headers-to_headers plain order "u1" (pos 9000) (pos 5000) "orders" "m1" order-IsValid
      order_named (λ k ours. refl) refl

-- A delivery with an attempt written as text, and the instant of a clock that counts nanoseconds.
abbrev pub from_nanoseconds : Dict HeaderValue
from_nanoseconds =
    (Headers.attempt_header, text "3")
    ∷ (Headers.first_seen_header, integer (pos 1700000000000000000))
    ∷ []

from_headers_cases_example :
    (plain.from_millis (seen_millis plain (pos 9000) from_nanoseconds) ≡ none)
      × (from_headers plain "u1" (pos 9000) from_nanoseconds "orders" "m1" ≡ err out_of_range)
    ⊎ (seen : Instant) × (plain.from_millis (seen_millis plain (pos 9000) from_nanoseconds)
        ≡ some seen)
      × (from_headers plain "u1" (pos 9000) from_nanoseconds "orders" "m1"
          ≡ ok (filled (read_fields plain "u1" seen from_nanoseconds "orders" "m1")))
      × IsValid (filled (read_fields plain "u1" seen from_nanoseconds "orders" "m1"))
from_headers_cases_example =
    from_headers_cases plain "u1" (pos 9000) from_nanoseconds "orders" "m1"
      (unfold get in (refl, (refl, tt)))
