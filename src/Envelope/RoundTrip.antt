-- ===== src/Envelope/RoundTrip.antt =====
-- envelope.py: `from_headers` against `to_headers`, and the envelopes that `from_headers` makes.
use acemq_python_amqp.Prelude.{
  String, ◌≡◌, ◌∙◌, ap, sym, ◌≢◌, ◌⊎◌, refl, Bool, Bool-cases, Option-cases, true, false, not, ◌&&◌,
  List, [], ◌∷◌, Option, some, none, ok, err, if◌then◌else◌, arith, inl, inr, str_eq, eq_iff,
}
use acemq_python_amqp.Dict.{Dict, get, keep_keys, Unique, or_else, get-keep_keys}
use acemq_python_amqp.Headers
use acemq_python_amqp.Headers.{
  HeaderValue, integer, text, Interpreter, is_reserved, is_known, one_of, or_absent, text_of,
  number_of,
}
use acemq_python_amqp.Envelope.{
  Instant, Envelope, or_text, any_reserved, post_init, filled, reserved_names, IsValid, to_headers,
  from_headers, read_envelope, read_fields, seen_millis, out_of_range, default_type,
}
use acemq_python_amqp.Envelope.Lookups.{
  OnWire, get-to_headers, get-to_headers_application, get_unknown, if_text, to_headers-OnWire,
  none_reserved,
}

any_reserved-keep_keys :
    (d : Dict HeaderValue) → any_reserved (keep_keys (λ k. not (is_reserved k)) d) ≡ false
unfolding any_reserved keep_keys
any_reserved-keep_keys [] = refl
any_reserved-keep_keys ((k, v) ∷ d) = ground (arith, any_reserved-keep_keys d)

Unique-keep_keys :
    (keep : String → Bool) (d : Dict HeaderValue) → Unique d → Unique (keep_keys keep d)
unfolding keep_keys
Unique-keep_keys keep [] u = tt
Unique-keep_keys keep ((k, v) ∷ d) u = elim (Bool-cases (keep k)) [
  | inl kept ↦ rw kept (rw (get-keep_keys keep k d) (rw kept u.0), Unique-keep_keys keep d u.1)
  | inr left ↦ rw left (Unique-keep_keys keep d u.1)
]

pub filled-IsValid :
    (e : Envelope) → Unique e.headers → any_reserved e.headers ≡ false → IsValid (filled e)
unfolding filled
filled-IsValid e u r = record {
  attempt_from_one = ground arith;
  version_from_one = ground arith;
  position_from_zero = ground arith;
  correlated = λ named empty. ground (arith, eq_iff e.correlation_id "");
  unique = u;
  application = λ k reserved. none_reserved e.headers k r reserved;
}

-- `__post_init__` raises exactly when an application header has a reserved name; an envelope that it
-- lets through is valid, if the headers are those of a dict.
post_init_cases :
    (e : Envelope)
    → Unique e.headers
    → (post_init e ≡ err reserved_names) × (any_reserved e.headers ≡ true)
      ⊎ (post_init e ≡ ok (filled e)) × IsValid (filled e)
unfolding post_init
post_init_cases e u = elim (Bool-cases (any_reserved e.headers)) [
  | inl bad ↦ inl (rw bad, bad)
  | inr fine ↦ inr (rw fine, filled-IsValid e u fine)
]

-- `from_headers` raises exactly when the first-seen header names an instant that `fromtimestamp` does
-- not reach; else the envelope that it makes is valid, whatever else the headers of the delivery hold:
-- its attempt and version are at least 1, its route position at least 0, it has a correlation if it
-- has an id, and none of its application headers has a reserved name.
pub from_headers_cases :
    (py : Interpreter) (fresh : String) (now : Instant) (raw : Dict HeaderValue)
    (rk message_id : String)
    → Unique raw
    → (py.from_millis (seen_millis py now raw) ≡ none)
        × (from_headers py fresh now raw rk message_id ≡ err out_of_range)
      ⊎ (seen : Instant) × (py.from_millis (seen_millis py now raw) ≡ some seen)
        × (from_headers py fresh now raw rk message_id
            ≡ ok (filled (read_fields py fresh seen raw rk message_id)))
        × IsValid (filled (read_fields py fresh seen raw rk message_id))
unfolding from_headers read_envelope post_init
from_headers_cases py fresh now raw rk message_id u =
    let fine = any_reserved-keep_keys raw in
    elim (Option-cases (py.from_millis (seen_millis py now raw))) [
      | inl beyond ↦ inl (beyond, rw beyond)
      | inr (seen, e) ↦ inr (
        seen,
        e,
        rw e (unfold read_fields in rw fine),
        filled-IsValid (read_fields py fresh seen raw rk message_id)
            (unfold read_fields in Unique-keep_keys (λ k. not (is_reserved k)) raw u)
            (unfold read_fields in fine),
      )
    ]

all_reserved : List String → Bool
all_reserved [] = true
all_reserved (k ∷ ks) = is_reserved k && all_reserved ks

is_reserved-of_one_of :
    (k : String) (ks : List String)
    → all_reserved ks ≡ true
    → one_of k ks ≡ true
    → is_reserved k ≡ true
unfolding all_reserved
is_reserved-of_one_of k [] h m = cc
is_reserved-of_one_of k (j ∷ ks) h m = ground (arith, is_reserved-of_one_of k ks, eq_iff k j)

reserved_lem : all_reserved Headers.reserved ≡ true
unfolding all_reserved is_reserved
reserved_lem = refl

not_both : (b : Bool) → b ≡ true → b ≡ false → ⊥
not_both b is_true is_false = cc

known-is_reserved : (k : String) → is_known k ≡ true → is_reserved k ≡ true
unfolding is_known
known-is_reserved k m = is_reserved-of_one_of k Headers.reserved reserved_lem m

-- A name that is not reserved is not one that the library knows.
is_known-of-not_reserved : (k : String) → is_reserved k ≡ false → is_known k ≡ false
is_known-of-not_reserved k h = elim (Bool-cases (is_known k)) [
  | inl known ↦ absurd (not_both (is_reserved k) (known-is_reserved k known) h)
  | inr unknown ↦ unknown
]

or_else-none : (o : Option HeaderValue) → or_else o none ≡ o
or_else-none none = refl
or_else-none (some v) = refl

-- What a reader has of an envelope that was written: all of it, but for an empty type, which is the
-- routing key or the default, for the route's position and run without a route, and for `first_seen`,
-- which is what the wire's milliseconds say.
pub record Carried (rk : String) (seen : Instant) (e e' : Envelope) : Type 0 where
  pub id : e'.id ≡ e.id
  pub type : e'.type ≡ or_text (or_text e.type rk) default_type
  pub version : e'.version ≡ e.version
  pub correlation_id : e'.correlation_id ≡ e.correlation_id
  pub causation_id : e'.causation_id ≡ e.causation_id
  pub attempt : e'.attempt ≡ e.attempt
  pub first_seen : e'.first_seen ≡ seen
  pub origin : e'.origin ≡ e.origin
  pub error : e'.error ≡ e.error
  pub claim : e'.claim ≡ e.claim
  pub route : e'.route ≡ e.route
  pub route_position : e.route ≢ "" → e'.route_position ≡ e.route_position
  pub route_id : e.route ≢ "" → e'.route_id ≡ e.route_id
  pub headers : (k : String) → get k e'.headers ≡ get k e.headers
  pub extensions : (k : String) → is_known k ≡ false → get k e'.extensions ≡ get k e.extensions

module _ (py : Interpreter) (e : Envelope) (fresh : String) (seen : Instant)
    (rk message_id : String) (v : IsValid e) (named : e.id ≢ "")
    (extended : (k : String) → is_reserved k ≡ false → get k e.extensions ≡ none) where
  -- The fields that are read, before `__post_init__`.
  abbrev read : Envelope
  read = read_fields py fresh seen (to_headers py e rk) rk message_id

  if_text_of : (a : String) → text_of py (or_absent (if_text a)) ≡ a
  unfolding text_of
  if_text_of a = ground (arith, eq_iff a "")

  if_routed :
      e.route ≢ ""
      → text_of py (or_absent (if str_eq e.route "" then none else if_text e.route_id)) ≡ e.route_id
  if_routed routed = ground (arith, eq_iff e.route "", if_text_of e.route_id)

  wire : OnWire py e rk (to_headers py e rk)
  wire = to_headers-OnWire py e rk v

  read_id : read.id ≡ e.id
  unfolding read_fields text_of
  read_id = rw (wire.id) (ground (arith, eq_iff e.id ""))

  read_headers : (k : String) → get k (filled read).headers ≡ get k e.headers
  unfolding filled read_fields
  read_headers k = elim (Bool-cases (is_reserved k)) [
    | inl ours ↦ rw get-keep_keys (rw ours (sym (v.application k ours)))
    | inr theirs ↦ rw get-keep_keys (
        rw theirs (
          get-to_headers_application py e rk v k theirs
          ∙ ap (or_else (get k e.headers))
              (get_unknown py e rk k (is_known-of-not_reserved k theirs) ∙ extended k theirs)
          ∙ or_else-none (get k e.headers)))
  ]

  read_extensions :
      (k : String) → is_known k ≡ false → get k (filled read).extensions ≡ get k e.extensions
  unfolding filled read_fields
  read_extensions k unknown = elim (Bool-cases (is_reserved k)) [
    | inl ours ↦
        rw get-keep_keys
          (rw (ours, unknown) (get-to_headers py e rk v k ours ∙ get_unknown py e rk k unknown))
    | inr theirs ↦ rw get-keep_keys (rw theirs (sym (extended k theirs)))
  ]

  read_correlation : (filled read).correlation_id ≡ e.correlation_id
  unfolding filled read_fields text_of
  read_correlation =
      let c = v.correlated named in
      rw (wire.correlation) (ground (arith, eq_iff e.correlation_id ""))

  read-Carried : Carried rk seen e (filled read)
  unfolding filled read_fields text_of number_of
  read-Carried =
      let a = v.attempt_from_one in
      let b = v.version_from_one in
      let c = v.position_from_zero in
      record {
        id = read_id;
        type =
            rw (wire.type) (ground (arith, eq_iff (or_text (or_text e.type rk) default_type) ""));
        version = rw (wire.version) (ground arith);
        correlation_id = read_correlation;
        causation_id = rw (wire.causation) (if_text_of e.causation_id);
        attempt = rw (wire.attempt) (ground arith);
        first_seen = refl;
        origin = rw (wire.origin) (if_text_of e.origin);
        error = rw (wire.error) (if_text_of e.error);
        claim = rw (wire.claim) (if_text_of e.claim);
        route = rw (wire.route) (if_text_of e.route);
        route_position = λ routed. rw (wire.route_position) (ground (arith, eq_iff e.route ""));
        route_id = λ routed. rw (wire.route_id) (if_routed routed);
        headers = read_headers;
        extensions = read_extensions;
      }

seen_back :
    (py : Interpreter) (e : Envelope) (now : Instant) (rk : String)
    → OnWire py e rk (to_headers py e rk)
    → seen_millis py now (to_headers py e rk) ≡ py.millis e.first_seen
unfolding number_of
seen_back py e now rk wire = rw (wire.first_seen)

-- The round trip: an envelope with an id, whose extensions have reserved names only and whose
-- first-seen instant `fromtimestamp` reads back from milliseconds, comes back from `from_headers` as it
-- was when `to_headers` wrote it, whatever the delivery's routing key and AMQP message id: reading
-- does not raise, and each field that `Carried` names is kept.
pub from_headers-to_headers :
    (py : Interpreter) (e : Envelope) (fresh : String) (now seen : Instant) (rk message_id : String)
    → IsValid e
    → e.id ≢ ""
    → ((k : String) → is_reserved k ≡ false → get k e.extensions ≡ none)
    → py.from_millis (py.millis e.first_seen) ≡ some seen
    → (e' : Envelope) × (from_headers py fresh now (to_headers py e rk) rk message_id ≡ ok e')
      × Carried rk seen e e'
unfolding from_headers read_envelope post_init
from_headers-to_headers py e fresh now seen rk message_id v named extended back =
    let wire = to_headers-OnWire py e rk v in
    (
      filled (read_fields py fresh seen (to_headers py e rk) rk message_id),
      rw (seen_back py e now rk wire, back) (unfold read_fields in rw any_reserved-keep_keys),
      read-Carried py e fresh seen rk message_id v named extended,
    )

or_text_kept : (t k : String) → str_eq t "" ≡ false → or_text t k ≡ t
or_text_kept t k named = rw named refl

default_named : (t : String) → str_eq (or_text t default_type) "" ≡ false
default_named t = elim (Bool-cases (str_eq t "")) [
  | inl blank ↦ rw blank refl
  | inr named ↦ rw named named
]

-- The routing key does not matter to a reader: a type is always written.
type_written :
    (a rk rk' : String)
    → or_text (or_text (or_text (or_text a rk) default_type) rk') default_type
      ≡ or_text (or_text a rk) default_type
type_written a rk rk' =
    let t = or_text (or_text a rk) default_type in
    let named = default_named (or_text a rk) in
    let first : or_text t rk' ≡ t = or_text_kept t rk' named in
    rw first (or_text_kept t default_type named)

module _ (py : Interpreter) (e : Envelope) (fresh rk rk' message_id : String) (v : IsValid e) where
  read_fields-key :
      (seen : Instant)
      → read_fields py fresh seen (to_headers py e rk) rk' message_id
        ≡ read_fields py fresh seen (to_headers py e rk) rk message_id
  unfolding read_fields text_of
  read_fields-key seen =
      let wire = to_headers-OnWire py e rk v in
      rw (wire.type) (rw (type_written e.type rk rk', type_written e.type rk rk) refl)

  read_envelope-key :
      (seen : Option Instant)
      → read_envelope py seen fresh (to_headers py e rk) rk' message_id
        ≡ read_envelope py seen fresh (to_headers py e rk) rk message_id
  unfolding read_envelope
  read_envelope-key none = refl
  read_envelope-key (some seen) = ap post_init (read_fields-key seen)

  pub from_headers-key :
      (now : Instant)
      → from_headers py fresh now (to_headers py e rk) rk' message_id
        ≡ from_headers py fresh now (to_headers py e rk) rk message_id
  unfolding from_headers
  from_headers-key now =
      read_envelope-key (py.from_millis (seen_millis py now (to_headers py e rk)))
