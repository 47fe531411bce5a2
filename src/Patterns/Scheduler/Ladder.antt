-- ===== src/Patterns/Scheduler/Ladder.antt =====
-- scheduler.py: which rung a message waits in.
use acemq_python_amqp.Prelude.{List, [], ◌∷◌, arith}
use acemq_python_amqp.Prelude.Int.{◌≤ℤ◌}
use acemq_python_amqp.Retry.{Duration}
use acemq_python_amqp.Patterns.Scheduler.{schedule_rungs, shortest_rung, first_rung}

-- No rung between the one that was picked and what remains.
abbrev pub NoneBetween : Duration → Duration → List Duration → Type 0
NoneBetween picked remaining [] = Unit {0}
NoneBetween picked remaining (rung ∷ rungs) =
    (rung ≤ℤ remaining → rung ≤ℤ picked) × NoneBetween picked remaining rungs

-- A message that is not yet due by a second waits in the longest rung that does not overshoot: the
-- rung is no longer than what remains, and each rung of the ladder that is no longer than what remains
-- is no longer than it.
pub first_rung_longest :
    (remaining : Duration)
    → shortest_rung ≤ℤ remaining
    → (shortest_rung ≤ℤ first_rung schedule_rungs remaining)
      × (first_rung schedule_rungs remaining ≤ℤ remaining)
      × NoneBetween (first_rung schedule_rungs remaining) remaining schedule_rungs
unfolding first_rung
first_rung_longest remaining h = ground arith
