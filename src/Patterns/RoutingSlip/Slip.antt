-- ===== src/Patterns/RoutingSlip/Slip.antt =====
-- patterns/routingslip.py: `Step` and `RoutingSlip`, and a slip on an envelope.
use acemq_python_amqp.Prelude.{
  String, Bool, true, not, ◌&&◌, Option, some, none, List, [], ◌∷◌, ◌++◌, map, length, Result, ok,
  err, ◌>>=◌, if◌then◌else◌, str_eq, concat,
}
use acemq_python_amqp.Prelude.Int.{pos}
use acemq_python_amqp.Dict.{put}
use acemq_python_amqp.Headers.{text as text_header}
use acemq_python_amqp.Envelope.{Envelope, EnvelopeError, post_init}
use acemq_python_amqp.Patterns.RoutingSlip.Texts.{has_comma, comma_join}
use acemq_python_amqp.Patterns.RoutingSlip.Json.{
  Json, Items, Fields, text, array, object, nil, cons, empty, field, JsonText,
}

abbrev pub slip_header : String
slip_header = "acemq-routing-slip"

pub data SlipForm : Type 0 where
  json step_names : SlipForm

pub record Step : Type 0 where
  pub exchange : String
  pub routing_key : String
  pub name : String
  pub completed_at : String

-- `Step(exchange, routing_key, name=name)`
abbrev pub bare_step : String → String → String → Step
bare_step exchange routing_key name = record {
  exchange = exchange;
  routing_key = routing_key;
  name = name;
  completed_at = "";
}

unfoldable pub put_field : String → String → Fields → Fields
put_field key value rest = if str_eq value "" then rest else field key (text value) rest

-- `str` of a step.
unfoldable pub text_of_step : Step → String
text_of_step s = if str_eq s.name "" then concat (s.exchange ∷ "/" ∷ s.routing_key ∷ []) else s.name

-- `Step.to_json`
unfoldable pub to_json : Step → Json
unfolding put_field
to_json s = object (
    field "exchange" (text s.exchange) (
      field "routingKey" (text s.routing_key)
        (put_field "name" s.name (put_field "completedAt" s.completed_at empty))))

pub record RoutingSlip : Type 0 where
  pub steps : List Step
  pub done : List Step
  pub run_id : String
  pub form : SlipForm

-- The ValueErrors of a slip, and that of the envelope it is put on.
pub data SlipError : Type 0 where
  no_steps nameless : SlipError
  several_exchanges : List String → SlipError
  two_words : String → String → SlipError
  comma_in : String → SlipError
  no_envelope : EnvelopeError → SlipError

-- `then`
unfoldable pub and_then : String → String → String → RoutingSlip → RoutingSlip
and_then exchange routing_key name slip = record slip {
  steps = slip.steps ++ (bare_step exchange routing_key name ∷ []);
}

-- `next`
unfoldable pub next_of : List Step → Option Step
next_of [] = none
next_of (step ∷ rest) = some step

unfoldable pub next_step : RoutingSlip → Option Step
unfolding next_of
next_step slip = next_of slip.steps

-- `advance`, at the instant that `now` writes.
unfoldable pub advance_by : String → List Step → RoutingSlip → RoutingSlip
advance_by now [] slip = slip
advance_by now (step ∷ rest) slip = record slip {
  steps = rest;
  done = slip.done ++ (record step { completed_at = now } ∷ []);
}

unfoldable pub advance : String → RoutingSlip → RoutingSlip
unfolding advance_by
advance now slip = advance_by now slip.steps slip

unfoldable pub items_of : List Step → Items
unfolding to_json
items_of [] = nil
items_of (step ∷ rest) = cons (to_json step) (items_of rest)

-- The object of `to_header`, and `to_header`.
unfoldable pub slip_object : RoutingSlip → Json
unfolding items_of
slip_object slip =
    object (
      field "steps" (array (items_of slip.steps)) (field "done" (array (items_of slip.done)) empty))

unfoldable pub to_header : JsonText → RoutingSlip → String
unfolding slip_object
to_header j slip = j.dumps (slip_object slip)

-- The steps of one exchange.
unfoldable pub all_on : String → List Step → Bool
all_on exchange [] = true
all_on exchange (step ∷ rest) = str_eq exchange step.exchange && all_on exchange rest

-- `step.name or step.routing_key`
abbrev pub word_of : Step → String
word_of step = if str_eq step.name "" then step.routing_key else step.name

-- The checks of one step, in their order.
unfoldable pub step_word : Step → Result SlipError String
step_word step =
    if str_eq (word_of step) ""
    then err nameless
    else if not (str_eq step.name "")
        && not (str_eq step.routing_key "")
        && not (str_eq step.name step.routing_key)
    then err (two_words step.name step.routing_key)
    else if has_comma (word_of step)
    then err (comma_in (word_of step))
    else ok (word_of step)

unfoldable pub words_of : List Step → Result SlipError (List String)
unfolding step_word
words_of [] = ok []
words_of (step ∷ rest) = step_word step >>= λ word. words_of rest >>= λ words. ok (word ∷ words)

-- `step_names`, of the steps done and to do.
unfoldable pub names_of_all : List Step → Result SlipError (List String)
unfolding all_on words_of
names_of_all [] = err no_steps
names_of_all (step ∷ rest) =
    if all_on step.exchange rest
    then words_of (step ∷ rest)
    else err (several_exchanges (map (λ s. s.exchange) (step ∷ rest)))

unfoldable pub names_of : RoutingSlip → Result SlipError (List String)
unfolding names_of_all
names_of slip = names_of_all (slip.done ++ slip.steps)

-- `run_id or str(uuid4())`
abbrev pub run_or : String → String → String
run_or run_id fresh = if str_eq run_id "" then fresh else run_id

-- `written_as`
unfoldable pub written_as : String → SlipForm → RoutingSlip → Result SlipError RoutingSlip
unfolding names_of
written_as fresh SlipForm.json slip = ok (record slip { form = SlipForm.json })
written_as fresh SlipForm.step_names slip =
    let switched : RoutingSlip = record slip {
      form = SlipForm.step_names;
      run_id = run_or slip.run_id fresh;
    } in
    names_of switched >>= λ _. ok switched

abbrev pub envelope_result : Result EnvelopeError Envelope → Result SlipError Envelope
envelope_result (ok e) = ok e
envelope_result (err x) = err (no_envelope x)

-- `onto`
unfoldable pub onto_as :
    JsonText → String → SlipForm → RoutingSlip → Envelope → Result SlipError Envelope
unfolding to_header names_of
onto_as j fresh SlipForm.json slip e =
    envelope_result (
      post_init (record e { headers = put slip_header (text_header (to_header j slip)) e.headers }))
onto_as j fresh SlipForm.step_names slip e = names_of slip >>= λ names. envelope_result (
    post_init (record e {
      route = comma_join names;
      route_position = pos (length slip.done);
      route_id = run_or slip.run_id fresh;
    }))

unfoldable pub onto : JsonText → String → RoutingSlip → Envelope → Result SlipError Envelope
unfolding onto_as
onto j fresh slip e = onto_as j fresh slip.form slip e

-- `route_of`
unfoldable pub route_of : String → List String → String → String → Result SlipError RoutingSlip
route_of pipeline [] run_id fresh = err no_steps
route_of pipeline (name ∷ rest) run_id fresh = ok (record {
  steps = map (λ n. bare_step pipeline n n) (name ∷ rest);
  done = [];
  run_id = run_or run_id fresh;
  form = SlipForm.step_names;
})
