-- ===== src/Ack/Answers.antt =====
-- ack.py: the functions that build a handler's answer.
use acemq_python_amqp.Prelude.{Option, some, none}
use acemq_python_amqp.Retry.{Duration}
use acemq_python_amqp.Ack.{Ack, Action, Failure}

unfoldable pub accept : Ack
accept = record { action = Action.accept; error = none; delay = none }

unfoldable pub retry : Option Failure → Ack
retry error = record { action = Action.retry; error = error; delay = none }

unfoldable pub reject : Option Failure → Ack
reject error = record { action = Action.reject; error = error; delay = none }

unfoldable pub park : Option Failure → Ack
park error = record { action = Action.park; error = error; delay = none }

unfoldable pub in_progress : Duration → Ack
in_progress delay = record { action = Action.in_progress; error = none; delay = some delay }
