-- ===== src/Patterns/Saga.antt =====
-- patterns/saga.py: steps that run in order, and are undone in reverse when one of them fails.
pub mod Nested
mod Tests
use acemq_python_amqp.Prelude.{
  String, Bool, true, false, ◌||◌, Option, none, some, List, [], ◌∷◌, ◌++◌, Result, ok, err,
  if◌then◌else◌, str_eq,
}
use mathlib.Core.List.{reverse}
use acemq_python_amqp.Ack.{Failure}

-- A step works on a subject, in a world `W` that it may change also when it raises.
abbrev pub SagaAction : Type 0 → Type 0 → Type 0
SagaAction T W = T → W → Result Failure Unit × W

pub record SagaStep (T W : Type 0) : Type 0 where
  pub name : String
  pub action : SagaAction T W
  pub compensation : Option (SagaAction T W)

-- The field `saga`, the name of the saga, is that of `Saga`.
pub record SagaResult : Type 0 where
  pub saga : String
  pub completed : List String
  pub failed_at : Option String
  pub failure : Option Failure
  pub unresolved : List String

unfoldable pub complete? : SagaResult → Bool
complete? r = elim r.failed_at [ none ↦ true | some name ↦ false ]

unfoldable pub compensated? : SagaResult → Bool
compensated? r = elim r.failed_at [ none ↦ false | some name ↦ true ]

unfoldable pub has_unresolved : SagaResult → Bool
has_unresolved r = elim r.unresolved [ [] ↦ false | (name ∷ names) ↦ true ]

pub record Saga (T W : Type 0) : Type 0 where
  pub name : String
  pub steps : List (SagaStep T W)

-- The ValueErrors, and the AssertionError of `_step_named`.
pub data SagaError : Type 0 where
  unnamed no_steps : SagaError
  unnamed_step : SagaError
  already_has no_step_called : String → SagaError

-- The names that one step of `_compensate` adds to the unresolved.
abbrev pub unresolved_of : String → Result Failure Unit → List String
unresolved_of name (ok done) = []
unresolved_of name (err failure) = name ∷ []

abbrev pub prepend :
    {W : Type 0}
    → List String
    → Result SagaError (List String) × W
    → Result SagaError (List String) × W
prepend names (ok rest, w) = (ok (names ++ rest), w)
prepend names (err e, w) = (err e, w)

module _ {T W : Type 0} where
  unfoldable pub new_saga : String → Result SagaError (Saga T W)
  new_saga name = if str_eq name "" then err unnamed else ok (record { name = name; steps = [] })

  unfoldable pub any_named : String → List (SagaStep T W) → Bool
  any_named name [] = false
  any_named name (existing ∷ rest) = str_eq existing.name name || any_named name rest

  -- `step`
  unfoldable pub step :
      String → SagaAction T W → Option (SagaAction T W) → Saga T W → Result SagaError (Saga T W)
  step name action compensation s =
      let added : SagaStep T W = record {
        name = name;
        action = action;
        compensation = compensation;
      } in
      if str_eq name ""
      then err unnamed_step
      else if any_named name s.steps
      then err (already_has name)
      else ok (record s { steps = s.steps ++ added ∷ [] })

  unfoldable pub step_named : String → List (SagaStep T W) → Option (SagaStep T W)
  step_named name [] = none
  step_named name (s ∷ rest) = if str_eq s.name name then some s else step_named name rest

  unfoldable pub undo : Option (SagaAction T W) → String → T → W → List String × W
  undo none name subject w = ([], w)
  undo (some compensation) name subject w =
      let (returned, w') = compensation subject w in (unresolved_of name returned, w')

  -- The loop of `_compensate`, over the names from the latest to the first.
  unfoldable pub undo_named :
      List (SagaStep T W) → List String → T → W → Result SagaError (List String) × W
  undo_named steps [] subject w = (ok [], w)
  undo_named steps (name ∷ names) subject w = elim (step_named name steps) [
    | none ↦ (err (no_step_called name), w)
    | some s ↦
        let (unresolved, w') = undo s.compensation name subject w in
        prepend unresolved (undo_named steps names subject w')
  ]

  -- `_compensate`
  unfoldable pub compensate :
      List (SagaStep T W) → List String → T → W → Result SagaError (List String) × W
  compensate steps completed subject w = undo_named steps (reverse completed) subject w

  module _ (s : Saga T W) (subject : T) where
    -- The result of a step that failed, once the earlier ones are undone.
    abbrev pub failed_result :
        List String
        → String
        → Failure
        → Result SagaError (List String) × W
        → Result SagaError SagaResult × W
    failed_result completed name failure (ok unresolved, w) = (
      ok (record {
        saga = s.name;
        completed = completed;
        failed_at = some name;
        failure = some failure;
        unresolved = unresolved;
      }),
      w,
    )
    failed_result completed name failure (err e, w) = (err e, w)

    -- The loop of `run`, from the names of the steps that are completed.
    unfoldable pub run_steps :
        List String → List (SagaStep T W) → W → Result SagaError SagaResult × W
    run_steps completed [] w = (
      ok (record {
        saga = s.name;
        completed = completed;
        failed_at = none;
        failure = none;
        unresolved = [];
      }),
      w,
    )
    run_steps completed (next ∷ rest) w =
        let (returned, w') = next.action subject w in
        elim returned [
          | ok done ↦ run_steps (completed ++ next.name ∷ []) rest w'
          | err failure ↦
              failed_result completed next.name failure (compensate s.steps completed subject w')
        ]

    -- `run`
    unfoldable pub run_any : List (SagaStep T W) → W → Result SagaError SagaResult × W
    run_any [] w = (err no_steps, w)
    run_any (first ∷ rest) w = run_steps [] (first ∷ rest) w

    unfoldable pub run : W → Result SagaError SagaResult × W
    run w = run_any s.steps w
