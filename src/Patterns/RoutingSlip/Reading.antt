-- ===== src/Patterns/RoutingSlip/Reading.antt =====
-- patterns/routingslip.py: `slip_from`, the slip of a message in either form.
use acemq_python_amqp.Prelude.{
  ℕ, String, Bool, Option, some, none, List, [], ◌∷◌, map, length, take, drop, leb, Result, ok, err,
  concat, if◌then◌else◌, str_eq,
}
use acemq_python_amqp.Prelude.Int.{pos_part}
use acemq_python_amqp.Dict.{get}
use acemq_python_amqp.Headers.{HeaderValue, absent, bytes, text, Interpreter, or_absent}
use acemq_python_amqp.Envelope.{Envelope}
use acemq_python_amqp.Ack.{Failure, fatal}
use acemq_python_amqp.Patterns.RoutingSlip.Texts.{comma_split, strip}
use acemq_python_amqp.Patterns.RoutingSlip.Json.{
  Json, Items, array, object, nil, cons, empty, field, JsonText, field_of, text_or_empty,
}
use acemq_python_amqp.Patterns.RoutingSlip.Slip.{
  slip_header, SlipForm, Step, bare_step, RoutingSlip,
}
use Prim.Native.Char.{Char}

-- What reading a slip calls: JSON, the white space of `strip`, the name of a value's class, and what
-- the exception says of a text that is no slip.
pub record SlipText : Type 0 where
  pub json : JsonText
  pub is_space : Char → Bool
  pub type_name : HeaderValue → String
  pub complaint : String → String

module _ (py : Interpreter) (st : SlipText) where
  -- `Step.from_json`; `none` is its ValueError.
  unfoldable pub from_json : Json → Option Step
  from_json (object fields) = some (record {
    exchange = text_or_empty st.json (field_of "exchange" fields);
    routing_key = text_or_empty st.json (field_of "routingKey" fields);
    name = text_or_empty st.json (field_of "name" fields);
    completed_at = text_or_empty st.json (field_of "completedAt" fields);
  })
  from_json _ = none

  abbrev pub cons_step : Option Step → Option (List Step) → Option (List Step)
  cons_step (some step) (some rest) = some (step ∷ rest)
  cons_step _ _ = none

  unfoldable pub steps_of : Items → Option (List Step)
  unfolding from_json
  steps_of nil = some []
  steps_of (cons value rest) = cons_step (from_json value) (steps_of rest)

  -- `tuple(Step.from_json(step) for step in value or ())`: what is empty has no steps, and of the rest
  -- only an array holds objects.
  unfoldable pub read_steps : Json → Option (List Step)
  unfolding steps_of
  read_steps Json.null = some []
  read_steps (Json.boolean b) = if b then none else some []
  read_steps (Json.number is_zero s) = if is_zero then some [] else none
  read_steps (Json.text s) = if str_eq s "" then some [] else none
  read_steps (array items) = steps_of items
  read_steps (object empty) = some []
  read_steps (object (field name value rest)) = none

  abbrev pub slip_of : Option (List Step) → Option (List Step) → Option RoutingSlip
  slip_of (some steps) (some done) =
      some (record { steps = steps; done = done; run_id = ""; form = SlipForm.json })
  slip_of _ _ = none

  unfoldable pub read_json : Option Json → Option RoutingSlip
  unfolding read_steps
  read_json (some (object fields)) =
      slip_of (read_steps (field_of "steps" fields)) (read_steps (field_of "done" fields))
  read_json _ = none

  abbrev pub fatal_error : List String → Failure
  fatal_error pieces = record { kind = fatal; name = "FatalError"; text = concat pieces }

  abbrev pub or_unreadable :
      String → String → Option RoutingSlip → Result Failure (Option RoutingSlip)
  or_unreadable id raw (some slip) = ok (some slip)
  or_unreadable id raw none = err (
      fatal_error
        ("acemq: cannot read the routing slip on message " ∷ id ∷ ": " ∷ st.complaint raw ∷ []))

  unfoldable pub from_text : String → String → Result Failure (Option RoutingSlip)
  unfolding read_json
  from_text id raw = or_unreadable id raw (read_json (st.json.loads raw))

  -- `tuple(name.strip() for name in … if name.strip())`
  unfoldable pub stripped : List String → List String
  stripped [] = []
  stripped (name ∷ rest) =
      let words = stripped rest in
      if str_eq (strip st.is_space name) "" then words else strip st.is_space name ∷ words

  -- The steps of the names, cut at the position. No envelope has a negative position.
  abbrev pub cut_at : ℕ → String → String → List String → Option RoutingSlip
  cut_at position pipeline run [] = none
  cut_at position pipeline run (name ∷ rest) =
      let steps = map (λ n. bare_step pipeline n n) (name ∷ rest) in
      let at = if leb position (length steps) then position else length steps in
      some (record {
        steps = drop at steps;
        done = take at steps;
        run_id = run;
        form = SlipForm.step_names;
      })

  -- `_declared_route`
  unfoldable pub declared_route : Envelope → String → Option RoutingSlip
  unfolding stripped
  declared_route e pipeline =
      cut_at (pos_part e.route_position) pipeline e.route_id (stripped (comma_split e.route))

  unfoldable pub read_slip : HeaderValue → Envelope → String → Result Failure (Option RoutingSlip)
  unfolding declared_route from_text
  read_slip absent e pipeline = ok (declared_route e pipeline)
  read_slip (bytes raw) e pipeline = from_text e.id (py.decode_utf8 raw)
  read_slip (text raw) e pipeline = from_text e.id raw
  read_slip value e pipeline = err (
      fatal_error (
        "acemq: the routing slip on message "
        ∷ e.id
        ∷ " is a "
        ∷ st.type_name value
        ∷ ", not text"
        ∷ []))

  -- `slip_from`
  unfoldable pub slip_from : Envelope → String → Result Failure (Option RoutingSlip)
  unfolding read_slip
  slip_from e pipeline = read_slip (or_absent (get slip_header e.headers)) e pipeline
