-- ===== src/Envelope/Lookups.antt =====
-- envelope.py: what `to_headers` leaves under each name.
use acemq_python_amqp.Prelude.{
  String, ◌≡◌, ◌∙◌, ap, refl, Bool, Bool-cases, true, false, not, [], ◌∷◌, Option, some, none,
  if◌then◌else◌, arith, inl, inr, str_eq, eq_iff,
}
use acemq_python_amqp.Dict.{
  Dict, get, put, update, keep_keys, Unique, or_else, get-put, get-update, get-keep_keys,
}
use acemq_python_amqp.Headers
use acemq_python_amqp.Headers.{HeaderValue, integer, text, Interpreter, is_reserved, is_known}
use acemq_python_amqp.Envelope.{
  Envelope, or_text, any_reserved, IsValid, put_text, always_written, put_route, reserved_headers,
  to_headers, default_type,
}

get-put_text :
    (k j v : String) (d : Dict HeaderValue)
    → get j (put_text k v d)
      ≡ (if str_eq v "" then get j d else if str_eq j k then some (text v) else get j d)
unfolding put_text
get-put_text k j v d = ground (arith, get-put k j (text v) d)

pub none_reserved :
    (d : Dict HeaderValue) (k : String)
    → any_reserved d ≡ false
    → is_reserved k ≡ true
    → get k d ≡ none
unfolding any_reserved get
none_reserved [] k h r = refl
none_reserved ((j, v) ∷ d) k h r = ground (arith, none_reserved d k, eq_iff k j)

-- The reader's `text_or_absent`: a text that is written only when it is not empty.
abbrev pub if_text : String → Option HeaderValue
if_text v = if str_eq v "" then none else some (text v)

get_if_same : {V : Type 0} (b : Bool) (o : Option V) → (if b then o else o) ≡ o
get_if_same true o = refl
get_if_same false o = refl

module _ (py : Interpreter) (e : Envelope) (rk : String) where
  always_written-Unique : Unique (always_written py e rk)
  unfolding always_written get
  always_written-Unique = ground arith

  abbrev carried : Dict HeaderValue
  carried = keep_keys (λ k. not (is_known k)) e.extensions

  abbrev known_headers : Dict HeaderValue
  known_headers = update carried (always_written py e rk)

  get_known :
      (j : String)
      → is_known j ≡ true
      → get j known_headers ≡ or_else (get j (always_written py e rk)) none
  get_known j k =
      rw (get-update j carried (always_written py e rk) always_written-Unique)
        (rw (get-keep_keys (λ k. not (is_known k)) j e.extensions) (rw k))

get-put_text_beside :
    (k j v : String) (d : Dict HeaderValue) → str_eq j k ≡ false → get j (put_text k v d) ≡ get j d
get-put_text_beside k j v d other =
    get-put_text k j v d ∙ rw other (get_if_same (str_eq v "") (get j d))

get-put_text_new :
    (k v : String) (d : Dict HeaderValue) → get k d ≡ none → get k (put_text k v d) ≡ if_text v
get-put_text_new k v d n = get-put_text k k v d ∙ rw n (ground (arith, eq_iff k k))

get-put_route_beside :
    (py : Interpreter) (e : Envelope) (j : String) (d : Dict HeaderValue)
    → str_eq j Headers.route_header ≡ false
    → str_eq j Headers.route_position_header ≡ false
    → str_eq j Headers.route_id_header ≡ false
    → get j (put_route py e d) ≡ get j d
unfolding put_route
get-put_route_beside py e j d r p i = elim (Bool-cases (str_eq e.route "")) [
  | inl empty ↦ rw empty
  | inr routed ↦ rw routed (
      get-put_text_beside Headers.route_id_header j e.route_id _ i
      ∙ rw get-put (rw p (rw get-put (rw r))))
]

get-put_route :
    (py : Interpreter) (e : Envelope) (d : Dict HeaderValue)
    → get Headers.route_header d ≡ none
    → get Headers.route_position_header d ≡ none
    → get Headers.route_id_header d ≡ none
    → (get Headers.route_header (put_route py e d) ≡ if_text e.route)
      × (get Headers.route_position_header (put_route py e d)
          ≡ (if str_eq e.route "" then none else some (integer e.route_position)))
      × (get Headers.route_id_header (put_route py e d)
          ≡ (if str_eq e.route "" then none else if_text e.route_id))
unfolding put_route
get-put_route py e d r p i = elim (Bool-cases (str_eq e.route "")) [
  | inl empty ↦ (rw empty r, rw empty p, rw empty i)
  | inr routed ↦
      let placed = put Headers.route_header (text e.route) d in
      let inner = put Headers.route_position_header (integer e.route_position) placed in
      (
        rw routed (
            get-put_text_beside Headers.route_id_header Headers.route_header e.route_id inner refl
            ∙ get-put Headers.route_position_header Headers.route_header (integer e.route_position)
                placed
            ∙ get-put Headers.route_header Headers.route_header (text e.route) d),
        rw routed (
            get-put_text_beside Headers.route_id_header Headers.route_position_header e.route_id
              inner refl
            ∙ get-put Headers.route_position_header Headers.route_position_header
                (integer e.route_position) placed),
        rw routed (
            get-put_text_new Headers.route_id_header e.route_id inner (
              get-put Headers.route_position_header Headers.route_id_header
                (integer e.route_position) placed
              ∙ get-put Headers.route_header Headers.route_id_header (text e.route) d
              ∙ i)),
      )
]

-- What stands in the reserved headers of an envelope, name by name.
pub record OnWire (py : Interpreter) (e : Envelope) (rk : String) (d : Dict HeaderValue)
    : Type 0 where
  pub id : get Headers.id_header d ≡ some (text e.id)
  pub type : get Headers.type_header d ≡ some (text (or_text (or_text e.type rk) default_type))
  pub version : get Headers.version_header d ≡ some (integer e.version)
  pub correlation : get Headers.correlation_header d ≡ some (text (or_text e.correlation_id e.id))
  pub attempt : get Headers.attempt_header d ≡ some (integer e.attempt)
  pub first_seen : get Headers.first_seen_header d ≡ some (integer (py.millis e.first_seen))
  pub causation : get Headers.causation_header d ≡ if_text e.causation_id
  pub origin : get Headers.origin_header d ≡ if_text e.origin
  pub error : get Headers.error_header d ≡ if_text e.error
  pub claim : get Headers.claim_header d ≡ if_text e.claim
  pub route : get Headers.route_header d ≡ if_text e.route
  pub route_position :
      get Headers.route_position_header d
      ≡ (if str_eq e.route "" then none else some (integer e.route_position))
  pub route_id :
      get Headers.route_id_header d ≡ (if str_eq e.route "" then none else if_text e.route_id)

module _ (py : Interpreter) (e : Envelope) (rk : String) where
  -- The application's headers stand beside the reserved ones.
  pub get-to_headers :
      IsValid e
      → (j : String) → is_reserved j ≡ true
      → get j (to_headers py e rk) ≡ get j (reserved_headers py e rk)
  unfolding to_headers
  get-to_headers v j r =
      rw (get-update j (reserved_headers py e rk) e.headers v.unique) (rw (v.application j r))

  pub get-to_headers_application :
      IsValid e
      → (j : String) → is_reserved j ≡ false
      → get j (to_headers py e rk) ≡ or_else (get j e.headers) (get j (reserved_headers py e rk))
  unfolding to_headers
  get-to_headers_application v j r = get-update j (reserved_headers py e rk) e.headers v.unique

  abbrev then_causation : Dict HeaderValue
  then_causation = put_text Headers.causation_header e.causation_id (known_headers py e rk)

  abbrev then_origin : Dict HeaderValue
  then_origin = put_text Headers.origin_header e.origin then_causation

  abbrev then_error : Dict HeaderValue
  then_error = put_text Headers.error_header e.error then_origin

  abbrev then_claim : Dict HeaderValue
  then_claim = put_text Headers.claim_header e.claim then_error

  -- A name that is none of the route's.
  beside_route :
      (j : String)
      → str_eq j Headers.route_header ≡ false
      → str_eq j Headers.route_position_header ≡ false
      → str_eq j Headers.route_id_header ≡ false
      → get j (reserved_headers py e rk) ≡ get j then_claim
  unfolding reserved_headers
  beside_route j r p i = get-put_route_beside py e j then_claim r p i

  -- A name that is written always, or never, among the known ones.
  always :
      (j : String)
      → str_eq j Headers.causation_header ≡ false
      → str_eq j Headers.origin_header ≡ false
      → str_eq j Headers.error_header ≡ false
      → str_eq j Headers.claim_header ≡ false
      → is_known j ≡ true
      → get j then_claim ≡ or_else (get j (always_written py e rk)) none
  always j c o r l k =
      get-put_text_beside Headers.claim_header j e.claim then_error l
      ∙ get-put_text_beside Headers.error_header j e.error then_origin r
      ∙ get-put_text_beside Headers.origin_header j e.origin then_causation o
      ∙ get-put_text_beside Headers.causation_header j e.causation_id (known_headers py e rk) c
      ∙ get_known py e rk j k

  wire_always :
      IsValid e
      → (j : String) → is_reserved j ≡ true
      → is_known j ≡ true
      → str_eq j Headers.route_header ≡ false
      → str_eq j Headers.route_position_header ≡ false
      → str_eq j Headers.route_id_header ≡ false
      → str_eq j Headers.causation_header ≡ false
      → str_eq j Headers.origin_header ≡ false
      → str_eq j Headers.error_header ≡ false
      → str_eq j Headers.claim_header ≡ false
      → get j (to_headers py e rk) ≡ or_else (get j (always_written py e rk)) none
  wire_always v j s k r p i c o f l =
      get-to_headers v j s ∙ beside_route j r p i ∙ always j c o f l k

  known_none :
      (j : String)
      → is_known j ≡ true
      → get j (always_written py e rk) ≡ none
      → get j (known_headers py e rk) ≡ none
  known_none j k n = get_known py e rk j k ∙ rw n

  wire_causation :
      IsValid e → get Headers.causation_header (to_headers py e rk) ≡ if_text e.causation_id
  unfolding is_known is_reserved always_written get
  wire_causation v =
      get-to_headers v Headers.causation_header refl
      ∙ beside_route Headers.causation_header refl refl refl
      ∙ get-put_text_beside Headers.claim_header Headers.causation_header e.claim then_error refl
      ∙ get-put_text_beside Headers.error_header Headers.causation_header e.error then_origin refl
      ∙ get-put_text_beside Headers.origin_header Headers.causation_header e.origin then_causation
          refl
      ∙ get-put_text_new Headers.causation_header e.causation_id (known_headers py e rk)
          (known_none Headers.causation_header refl refl)

  wire_origin : IsValid e → get Headers.origin_header (to_headers py e rk) ≡ if_text e.origin
  unfolding is_known is_reserved always_written get
  wire_origin v =
      get-to_headers v Headers.origin_header refl
      ∙ beside_route Headers.origin_header refl refl refl
      ∙ get-put_text_beside Headers.claim_header Headers.origin_header e.claim then_error refl
      ∙ get-put_text_beside Headers.error_header Headers.origin_header e.error then_origin refl
      ∙ get-put_text_new Headers.origin_header e.origin then_causation (
          get-put_text_beside Headers.causation_header Headers.origin_header e.causation_id
            (known_headers py e rk) refl
          ∙ known_none Headers.origin_header refl refl)

  wire_error : IsValid e → get Headers.error_header (to_headers py e rk) ≡ if_text e.error
  unfolding is_known is_reserved always_written get
  wire_error v =
      get-to_headers v Headers.error_header refl
      ∙ beside_route Headers.error_header refl refl refl
      ∙ get-put_text_beside Headers.claim_header Headers.error_header e.claim then_error refl
      ∙ get-put_text_new Headers.error_header e.error then_origin (
          get-put_text_beside Headers.origin_header Headers.error_header e.origin then_causation
            refl
          ∙ get-put_text_beside Headers.causation_header Headers.error_header e.causation_id
              (known_headers py e rk) refl
          ∙ known_none Headers.error_header refl refl)

  wire_claim : IsValid e → get Headers.claim_header (to_headers py e rk) ≡ if_text e.claim
  unfolding is_known is_reserved always_written get
  wire_claim v =
      get-to_headers v Headers.claim_header refl
      ∙ beside_route Headers.claim_header refl refl refl
      ∙ get-put_text_new Headers.claim_header e.claim then_error (
          get-put_text_beside Headers.error_header Headers.claim_header e.error then_origin refl
          ∙ get-put_text_beside Headers.origin_header Headers.claim_header e.origin then_causation
              refl
          ∙ get-put_text_beside Headers.causation_header Headers.claim_header e.causation_id
              (known_headers py e rk) refl
          ∙ known_none Headers.claim_header refl refl)

  wire_route :
      IsValid e
      → (get Headers.route_header (to_headers py e rk) ≡ if_text e.route)
        × (get Headers.route_position_header (to_headers py e rk)
            ≡ (if str_eq e.route "" then none else some (integer e.route_position)))
        × (get Headers.route_id_header (to_headers py e rk)
            ≡ (if str_eq e.route "" then none else if_text e.route_id))
  unfolding is_known is_reserved reserved_headers always_written get
  wire_route v =
      let (route, position, id) =
        get-put_route py e then_claim (always Headers.route_header refl refl refl refl refl)
          (always Headers.route_position_header refl refl refl refl refl)
          (always Headers.route_id_header refl refl refl refl refl) in
      (
        get-to_headers v Headers.route_header refl ∙ route,
        get-to_headers v Headers.route_position_header refl ∙ position,
        get-to_headers v Headers.route_id_header refl ∙ id,
      )

  pub to_headers-OnWire : IsValid e → OnWire py e rk (to_headers py e rk)
  unfolding is_known is_reserved always_written get
  to_headers-OnWire v =
      let (route, position, route_id) = wire_route v in
      record {
        id = wire_always v Headers.id_header refl refl refl refl refl refl refl refl refl;
        type = wire_always v Headers.type_header refl refl refl refl refl refl refl refl refl;
        version = wire_always v Headers.version_header refl refl refl refl refl refl refl refl refl;
        correlation =
            wire_always v Headers.correlation_header refl refl refl refl refl refl refl refl refl;
        attempt = wire_always v Headers.attempt_header refl refl refl refl refl refl refl refl refl;
        first_seen =
            wire_always v Headers.first_seen_header refl refl refl refl refl refl refl refl refl;
        causation = wire_causation v;
        origin = wire_origin v;
        error = wire_error v;
        claim = wire_claim v;
        route = route;
        route_position = position;
        route_id = route_id;
      }

-- A name that the library does not know is none of those that it writes.
known_ne : (j k : String) → is_known j ≡ false → is_known k ≡ true → str_eq j k ≡ false
known_ne j k u n = elim (Bool-cases (str_eq j k)) [
  | inl same ↦ cc ((eq_iff j k).0 same)
  | inr differ ↦ differ
]

module _ (j : String) (unknown : is_known j ≡ false) where
  get-put_unknown :
      (k : String) (v : HeaderValue) (d : Dict HeaderValue)
      → is_known k ≡ true
      → get j (put k v d) ≡ get j d
  get-put_unknown k v d n = rw get-put (rw (known_ne j k unknown n))

  get-put_text_unknown :
      (k v : String) (d : Dict HeaderValue) → is_known k ≡ true → get j (put_text k v d) ≡ get j d
  get-put_text_unknown k v d n = rw get-put_text (rw (known_ne j k unknown n) (ground arith))

module _ (py : Interpreter) (e : Envelope) (rk j : String) (unknown : is_known j ≡ false) where
  get-put_route_unknown : (d : Dict HeaderValue) → get j (put_route py e d) ≡ get j d
  unfolding put_route is_known
  get-put_route_unknown d = elim (Bool-cases (str_eq e.route "")) [
    | inl empty ↦ rw empty
    | inr routed ↦ rw routed (
        get-put_text_unknown j unknown Headers.route_id_header e.route_id _ refl
        ∙ get-put_unknown j unknown Headers.route_position_header (integer e.route_position) _ refl
        ∙ get-put_unknown j unknown Headers.route_header (text e.route) d refl)
  ]

  get-always_written_unknown : get j (always_written py e rk) ≡ none
  unfolding always_written get is_known
  get-always_written_unknown = ground arith

  get-carried_unknown : get j (carried py e rk) ≡ get j e.extensions
  get-carried_unknown = rw (get-keep_keys (λ k. not (is_known k)) j e.extensions) (rw unknown)

  -- A reserved name that this library does not know is carried on.
  pub get_unknown : get j (reserved_headers py e rk) ≡ get j e.extensions
  unfolding reserved_headers is_known
  get_unknown =
      get-put_route_unknown _
      ∙ get-put_text_unknown j unknown Headers.claim_header e.claim _ refl
      ∙ get-put_text_unknown j unknown Headers.error_header e.error _ refl
      ∙ get-put_text_unknown j unknown Headers.origin_header e.origin _ refl
      ∙ get-put_text_unknown j unknown Headers.causation_header e.causation_id _ refl
      ∙ get-update j (carried py e rk) (always_written py e rk) (always_written-Unique py e rk)
      ∙ ap (λ o. or_else o (get j (carried py e rk))) get-always_written_unknown
      ∙ get-carried_unknown
