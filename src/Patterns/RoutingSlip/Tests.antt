-- ===== src/Patterns/RoutingSlip/Tests.antt =====
-- A pipeline of two steps.
use acemq_python_amqp.Prelude.{
  ℕ, ◌≡◌, refl, String, Bool, false, some, none, List, [], ◌∷◌, ok, ◌==◌,
}
use acemq_python_amqp.Prelude.Int.{pos}
use acemq_python_amqp.Dict.{get}
use acemq_python_amqp.Headers.{is_reserved}
use acemq_python_amqp.Envelope.{Envelope, any_reserved}
use acemq_python_amqp.Envelope.Tests.{plain, order}
use acemq_python_amqp.Consumer.Effects.{Message}
use acemq_python_amqp.Publisher.Tests.{shop, english}
use acemq_python_amqp.Patterns.RoutingSlip.Slip.{
  slip_header, SlipForm, bare_step, RoutingSlip, slip_object, onto,
}
use acemq_python_amqp.Patterns.RoutingSlip.Reading.{SlipText, slip_from}
use acemq_python_amqp.Patterns.RoutingSlip.Travel.{World, Follower, travel}
use acemq_python_amqp.Patterns.RoutingSlip.Accounted.{IsAccounted, travel-IsAccounted}
use acemq_python_amqp.Patterns.RoutingSlip.Builder.{PipelineStep, PipelineBuilder, Pipeline, route}
use acemq_python_amqp.Patterns.RoutingSlip.Parsed.{slip_from-onto}
use Prim.Native.Char.{Char, code}

-- Only the space is white, and one slip is known to JSON.
abbrev is_blank : Char → Bool
is_blank c = code c == 32

abbrev texts : SlipText
texts = record {
  json = record { dumps = λ j. "{}"; loads = λ s. none; str = λ j. "" };
  is_space = is_blank;
  type_name = λ v. "int";
  complaint = λ s. "Expecting value";
}

abbrev follower : Follower ℕ ℕ
follower = record {
  pipeline = "orders";
  form = none;
  unslipped = none;
  py = plain;
  words = english;
  texts = texts;
  step = λ m n. (ok (some m.payload), n);
  publisher = shop;
  isoformat = λ w. "2026-01-01T00:00:00+00:00";
  fresh_id = λ w. "m-2";
  fresh_run = λ w. "r-1";
  says = λ x. "";
}

abbrev quiet : World ℕ
quiet = record { own = 0; sent = []; runs = [] }

abbrev routed_order : Envelope
routed_order = record order { route = "reserve,pay"; route_id = "r-1" }

abbrev message : Message ℕ
message = record {
  payload = 7;
  envelope = routed_order;
  routing_key = "reserve";
  content_type = none;
  redelivered = false;
  body = [];
  reply_to = "";
}

travel-IsAccounted_example :
    let left = travel follower message quiet in IsAccounted follower message quiet left.0 left.1
travel-IsAccounted_example = travel-IsAccounted follower message quiet

abbrev a_step : String → PipelineStep ℕ ℕ
a_step name = record { name = name; handler = 0; consumers = pos 1; settings = 0 }

abbrev builder : List (PipelineStep ℕ ℕ) → PipelineBuilder ℕ ℕ
builder steps = record { name = "orders"; steps = steps }

abbrev orders : Pipeline
orders = record { name = "orders"; steps = "reserve" ∷ "pay" ∷ [] }

clean_order : (any_reserved order.headers ≡ false) × (get slip_header order.headers ≡ none)
unfolding any_reserved get is_reserved
clean_order = (refl, refl)

-- A slip that is half done, and a JSON that knows it.
abbrev half_done : RoutingSlip
half_done = record {
  steps = bare_step "orders" "pay" "" ∷ [];
  done = record (bare_step "orders" "reserve" "first") { completed_at = "12:00" } ∷ [];
  run_id = "";
  form = SlipForm.json;
}

abbrev knowing : SlipText
knowing = record texts {
  json = record { dumps = λ j. "{}"; loads = λ s. some (slip_object half_done); str = λ j. "" };
}

slip_from-onto_example :
    (e' : Envelope) × (onto knowing.json "r-9" half_done order ≡ ok e')
    × (slip_from plain knowing e' "" ≡ ok (some half_done))
slip_from-onto_example =
    slip_from-onto plain knowing "r-9" "" half_done order refl refl clean_order.0
