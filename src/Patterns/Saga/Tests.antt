-- ===== src/Patterns/Saga/Tests.antt =====
-- saga.py at a saga of three steps whose last one fails. The world is the list of what was done.
use acemq_python_amqp.Prelude.{ℕ, String, ◌≡◌, refl, some, none, List, [], ◌∷◌, ◌++◌, ok, err}
use acemq_python_amqp.Ack.{Failure, ordinary}
use acemq_python_amqp.Patterns.Saga.{
  SagaAction, SagaStep, SagaResult, Saga, any_named, step, run, new_saga,
}
use acemq_python_amqp.Patterns.Saga.Nested.{DistinctSteps, attempt, report, run-attempt}

abbrev Done : Type 0
Done = List String

abbrev does : String → SagaAction ℕ Done
does what subject w = (ok tt, what ∷ w)

abbrev declined : Failure
declined = record { kind = ordinary; name = "RuntimeError"; text = "declined" }

abbrev reserve : SagaStep ℕ Done
reserve = record { name = "reserve"; action = does "reserve"; compensation = some (does "release") }

abbrev pack : SagaStep ℕ Done
pack = record { name = "pack"; action = does "pack"; compensation = none }

abbrev charge : SagaStep ℕ Done
charge = record { name = "charge"; action = λ subject w. (err declined, w); compensation = none }

abbrev order : Saga ℕ Done
order = record { name = "order"; steps = reserve ∷ pack ∷ charge ∷ [] }

order-DistinctSteps : DistinctSteps order.steps
unfolding any_named
order-DistinctSteps = (refl, (refl, (refl, tt)))

undone : attempt order.steps 0 [] ≡ (
  record { ran = "reserve" ∷ "pack" ∷ []; stopped = some ("charge", declined); left = [] },
  "release" ∷ "pack" ∷ "reserve" ∷ [],
)
unfolding acemq_python_amqp.Patterns.Saga.undo
undone = refl

run-attempt_example :
    run order 0 []
    ≡ (ok (report "order" (attempt order.steps 0 []).0), (attempt order.steps 0 []).1)
run-attempt_example = run-attempt order 0 reserve (pack ∷ charge ∷ []) [] refl order-DistinctSteps

abbrev longer : Saga ℕ Done
longer = record order {
  steps =
      order.steps ++ record { name = "notify"; action = does "notify"; compensation = none } ∷ [];
}

added : step "notify" (does "notify") none order ≡ ok longer
unfolding step any_named
added = refl
