-- ===== src/Patterns/Scheduler/Tests.antt =====
-- scheduler.py at concrete delays, with a broker that takes everything.
use acemq_python_amqp.Prelude.{ℕ, ◌+◌, ◌<◌, ◌≤◌, ◌≡◌, refl, Option, none, List, [], ◌∷◌, arith}
use acemq_python_amqp.Prelude.Int.{pos, pos_part, ◌≤ℤ◌, ◌-ℤ◌}
use acemq_python_amqp.Dict.{Dict, get}
use acemq_python_amqp.Headers.{HeaderValue, text, integer}
use acemq_python_amqp.Envelope.Tests.{plain}
use acemq_python_amqp.Retry.{Duration}
use acemq_python_amqp.Ack.{Failure}
use acemq_python_amqp.Ack.Answers as answers
use acemq_python_amqp.Patterns.Scheduler.{
  Sent, Scheduler, shortest_rung, schedule_rungs, first_rung, number, send, hop, after_delivery,
  deliver, route, forward_at, forward_due, forward,
}
use acemq_python_amqp.Patterns.Scheduler.Ladder.{NoneBetween, first_rung_longest}
use acemq_python_amqp.Patterns.Scheduler.Journey.{no_delay, total, Delivers, journey_in_time}
use acemq_python_amqp.Patterns.Scheduler.Kept.{Moved, forward-Moved}

-- A minute and a half.
abbrev ninety : Duration
ninety = pos 90000000

first_rung_longest_example :
    (shortest_rung ≤ℤ first_rung schedule_rungs ninety)
    × (first_rung schedule_rungs ninety ≤ℤ ninety)
    × NoneBetween (first_rung schedule_rungs ninety) ninety schedule_rungs
first_rung_longest_example = first_rung_longest ninety (omega arith)

abbrev takes_all : List (Sent × Option Failure) → Sent → Option Failure
takes_all sent message = none

abbrev idle : Scheduler
idle = record { scheduled = 0; delivered = 0; hops = 0; sent = [] }

abbrev headers : Dict HeaderValue
headers =
    ("x-schedule-exchange", text "")
    ∷ ("x-schedule-routing-key", text "orders")
    ∷ ("x-schedule-due-at", integer (pos 95000))
    ∷ []

forward-Moved_example :
    Moved plain
      (pos 5000000)
      (1 ∷ 2 ∷ [])
      headers
      idle
      (forward plain (pos 5000000) takes_all (1 ∷ 2 ∷ []) headers idle).1
unfolding get number route hop send forward forward_due forward_at first_rung answers.accept ◌-ℤ◌
    deliver after_delivery
forward-Moved_example = forward-Moved plain (pos 5000000) takes_all (1 ∷ 2 ∷ []) headers idle refl

-- The message is ninety seconds away from its target.
journey_in_time_example :
    (rungs : List Duration) × (s' : Scheduler) × Delivers plain takes_all
      (1 ∷ 2 ∷ [])
      headers
      no_delay
      91
      (pos 5000000)
      idle
      rungs
      s'
    × (s'.delivered ≡ 1)
    × (total rungs ≤ pos_part (pos 95000000 -ℤ pos 5000000))
    × (((k : ℕ) → no_delay k ≡ 0) → pos_part (pos 95000000 -ℤ pos 5000000) < total rungs + 1000000)
unfolding get number ◌-ℤ◌
journey_in_time_example =
    journey_in_time plain takes_all (1 ∷ 2 ∷ []) headers no_delay (λ t m. refl) refl (pos 95000)
      (pos 95000000) refl refl 91 (pos 5000000) idle (omega arith)
