-- ===== src/Naming.antt =====
-- src/acemq_amqp/naming.py: where a message goes when it cannot be handled.
use acemq_python_amqp.Prelude.{ℕ, ◌/◌, ◌%◌, String, concat, ◌==◌, if◌then◌else◌, [], ◌∷◌}
use acemq_python_amqp.Prelude.Int.{pos, pos_part}
use acemq_python_amqp.Headers.{Interpreter}
use acemq_python_amqp.Retry.{Duration}

unfoldable pub dead_letter_queue : String → String
dead_letter_queue queue = concat (queue ∷ ".dlq" ∷ [])

unfoldable pub parked_queue : String → String
parked_queue queue = concat (queue ∷ ".parked" ∷ [])

-- `int(delay.total_seconds())`, for a delay that is not negative; a negative one counts as 0 below.
abbrev pub whole_seconds : Duration → ℕ
whole_seconds delay = pos_part delay / 1000000

module _ (py : Interpreter) where
  unfoldable pub short : Duration → String
  short delay =
      let seconds = whole_seconds delay in
      if seconds == 0
      then "0s"
      else if seconds % 3600 == 0
      then concat (py.str_of_int (pos (seconds / 3600)) ∷ "h" ∷ [])
      else if seconds % 60 == 0
      then concat (py.str_of_int (pos (seconds / 60)) ∷ "m" ∷ [])
      else concat (py.str_of_int (pos seconds) ∷ "s" ∷ [])

  unfoldable pub retry_queue : String → Duration → String
  unfolding short
  retry_queue queue delay = concat (queue ∷ ".retry." ∷ short delay ∷ [])
