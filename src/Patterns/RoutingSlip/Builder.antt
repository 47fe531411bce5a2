-- ===== src/Patterns/RoutingSlip/Builder.antt =====
-- patterns/routingslip.py: `start`, `PipelineBuilder` and `Pipeline`, as far as they run no consumer.
use acemq_python_amqp.Prelude.{
  ℕ, zero, suc, String, Bool, true, false, not, ◌&&◌, ◌||◌, Option, some, none, List, [], ◌∷◌, ◌++◌,
  map, leb, ◌==◌, Result, ok, err, ◌>>=◌, concat, if◌then◌else◌, str_eq,
}
use acemq_python_amqp.Prelude.Int.{ℤ, pos, ltb_ℤ}
use acemq_python_amqp.Envelope.{Envelope}
use acemq_python_amqp.Publisher.Outstanding.{PublishResult, PublishFault}
use acemq_python_amqp.Publisher.Sending.{Publisher, PublishEvent, new_envelope, or_default, send}
use acemq_python_amqp.Patterns.RoutingSlip.Json.{JsonText}
use acemq_python_amqp.Patterns.RoutingSlip.Slip.{
  SlipForm, SlipError, no_steps, Step, RoutingSlip, next_step, advance, onto, route_of,
}
use acemq_python_amqp.Patterns.RoutingSlip.Travel.{in_form, bound_for}
use Prim.Native.Char.{Char, code}

abbrev between : ℕ → ℕ → ℕ → Bool
between low high c = leb low c && leb c high

-- `[A-Za-z0-9]` and `[A-Za-z0-9.\-]`
unfoldable pub is_alphanumeric : Char → Bool
is_alphanumeric c =
    between b'A' b'Z' (code c) || between b'a' b'z' (code c) || between b'0' b'9' (code c)

unfoldable pub is_name_char : Char → Bool
unfolding is_alphanumeric
is_name_char c = is_alphanumeric c || code c == b'.' || code c == b'-'

unfoldable pub all_name_chars : String → Bool
all_name_chars String.[] = true
all_name_chars (String.◌∷◌ c s) = is_name_char c && all_name_chars s

-- `_STEP_NAME.fullmatch(name)`
unfoldable pub is_step_name : String → Bool
unfolding is_alphanumeric all_name_chars
is_step_name String.[] = false
is_step_name (String.◌∷◌ c s) = is_alphanumeric c && all_name_chars s

-- `_PipelineStep`, whose retry policy, prefetch and concurrency are `S`.
pub record PipelineStep (H S : Type 0) : Type 0 where
  pub name : String
  pub handler : H
  pub consumers : ℤ
  pub settings : S

pub record PipelineBuilder (H S : Type 0) : Type 0 where
  pub name : String
  pub steps : List (PipelineStep H S)

pub data BuildError : Type 0 where
  unnamed without_steps : BuildError
  bad_name declared_twice no_consumers unknown_step : String → BuildError

unfoldable pub new_builder : {H S : Type 0} → String → Result BuildError (PipelineBuilder H S)
new_builder name = if str_eq name "" then err unnamed else ok (record { name = name; steps = [] })

unfoldable pub any_step_named : {H S : Type 0} → String → List (PipelineStep H S) → Bool
any_step_named name [] = false
any_step_named name (step ∷ rest) = str_eq step.name name || any_step_named name rest

-- `PipelineBuilder.step`
unfoldable pub add_step :
    {H S : Type 0}
    → PipelineStep H S
    → PipelineBuilder H S
    → Result BuildError (PipelineBuilder H S)
unfolding any_step_named is_step_name
add_step s b =
    if not (is_step_name s.name)
    then err (bad_name s.name)
    else if any_step_named s.name b.steps
    then err (declared_twice s.name)
    else if ltb_ℤ s.consumers (pos 1)
    then err (no_consumers s.name)
    else ok (record b { steps = b.steps ++ (s ∷ []) })

-- `Pipeline`, without the consumer groups that it closes.
pub record Pipeline : Type 0 where
  pub name : String
  pub steps : List String

-- `build`, before it declares and starts anything.
unfoldable pub pipeline_named :
    {H S : Type 0} → String → List (PipelineStep H S) → Result BuildError Pipeline
pipeline_named name [] = err without_steps
pipeline_named name (step ∷ rest) =
    ok (record { name = name; steps = map (λ s. s.name) (step ∷ rest) })

unfoldable pub pipeline_of : {H S : Type 0} → PipelineBuilder H S → Result BuildError Pipeline
unfolding pipeline_named
pipeline_of b = pipeline_named b.name b.steps

unfoldable pub contains_name : String → List String → Bool
contains_name name [] = false
contains_name name (step ∷ rest) = str_eq name step || contains_name name rest

-- `queue_for`
unfoldable pub queue_for : Pipeline → String → Result BuildError String
unfolding contains_name
queue_for p step =
    if contains_name step p.steps
    then ok (concat (p.name ∷ "." ∷ step ∷ []))
    else err (unknown_step step)

-- `Pipeline.route`
unfoldable pub route : Pipeline → String → String → Result SlipError RoutingSlip
unfolding route_of
route p run_id fresh = route_of p.name p.steps run_id fresh

-- The slip that `build` gives the step at a position, for a message that has none.
unfoldable pub slip_at : String → ℕ → RoutingSlip → RoutingSlip
slip_at now zero slip = slip
slip_at now (suc position) slip = slip_at now position (advance now slip)

-- `start`: a slip's ValueError, or what the publisher of the first step says.
unfoldable pub start_on :
    {P : Type 0}
    → Publisher P
    → P
    → Result SlipError Envelope
    → Step
    → List PublishEvent
    → Result SlipError (Result PublishFault PublishResult × List PublishEvent)
start_on p payload (err x) first t = err x
start_on p payload (ok outgoing) first t =
    ok (send (bound_for p first) payload (some outgoing) none "" t)

unfoldable pub start_from :
    {P : Type 0}
    → Publisher P
    → JsonText
    → String
    → RoutingSlip
    → P
    → Option Envelope
    → Option SlipForm
    → Option Step
    → List PublishEvent
    → Result SlipError (Result PublishFault PublishResult × List PublishEvent)
unfolding start_on
start_from p j fresh slip payload envelope form none t = err no_steps
start_from p j fresh slip payload envelope form (some first) t =
    let outgoing = or_default envelope (new_envelope (p.fresh_id t) (p.now t) p.origin) in
    start_on p payload (in_form form fresh slip >>= λ written. onto j fresh written outgoing) first
      t

unfoldable pub start :
    {P : Type 0}
    → Publisher P
    → JsonText
    → String
    → RoutingSlip
    → P
    → Option Envelope
    → Option SlipForm
    → List PublishEvent
    → Result SlipError (Result PublishFault PublishResult × List PublishEvent)
unfolding start_from
start p j fresh slip payload envelope form t =
    start_from p j fresh slip payload envelope form (next_step slip) t
