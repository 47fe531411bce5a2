-- ===== src/Patterns/RoutingSlip/Visits.antt =====
-- patterns/routingslip.py: the pipelines that `PipelineBuilder` accepts run to their end.
use acemq_python_amqp.Prelude.{◌≡◌, String, true, some, none, List, [], ◌∷◌, map, ok}
use acemq_python_amqp.Envelope.{Envelope}
use acemq_python_amqp.Patterns.RoutingSlip.Slip.{next_step, Step, SlipForm, RoutingSlip, bare_step}
use acemq_python_amqp.Patterns.RoutingSlip.Travel.{World, Follower}
use acemq_python_amqp.Patterns.RoutingSlip.Journey.{Travels}
use acemq_python_amqp.Patterns.RoutingSlip.Publishing.{Unhindered}
use acemq_python_amqp.Consumer.Effects.{Message}
use acemq_python_amqp.Patterns.RoutingSlip.Builder.{
  is_step_name, PipelineStep, PipelineBuilder, add_step, new_builder, Pipeline,
}
use Prim.Native.Char.{Char}

-- The builders that `PipelineBuilder(...)` and `step` make.
pub data Accepted {H S : Type 0} : PipelineBuilder H S → Type 0 where
  begun : (name : String) {b : PipelineBuilder H S} → new_builder name ≡ ok b → Accepted b
  added :
      (s : PipelineStep H S) {b c : PipelineBuilder H S}
      → Accepted b
      → add_step s b ≡ ok c
      → Accepted c

abbrev Named : List String → Type 0
Named [] = Unit {0}
Named (n ∷ names) = (is_step_name n ≡ true) × Named names

abbrev step_names_of : {H S : Type 0} → List (PipelineStep H S) → List String
step_names_of steps = map (λ s. s.name) steps

abbrev route_over : String → List String → String → RoutingSlip
route_over pipeline names run = record {
  steps = map (λ m. bare_step pipeline m m) names;
  done = [];
  run_id = run;
  form = SlipForm.step_names;
}

module _ {W P : Type 0} (f : Follower W P) (form : f.form ≡ none) (free : Unhindered f.publisher)
    (works : (m : Message P) (own : W)
      → (payload : P) × (own' : W) × (f.step m own ≡ (ok (some payload), own'))) where
  -- A message that starts on a slip goes through the steps of a pipeline.
  abbrev pub Completes : Pipeline → RoutingSlip → Envelope → Type 0
  Completes p slip e' =
      (first : Step) × (keys : List String) × (next_step slip ≡ some first)
      × (p.steps ≡ first.routing_key ∷ keys)
      × ((m : Message P) (w : World W)
          → (w' : World W) × Travels f w (record m { envelope = e' }) keys w')
