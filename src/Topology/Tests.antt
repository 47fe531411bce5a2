-- ===== src/Topology/Tests.antt =====
-- A policy whose long waits are held by the broker, and two delays that share a name.
use acemq_python_amqp.Prelude.{◌≡◌, refl, arith, true, some, List, [], ◌∷◌, ok, err}
use acemq_python_amqp.Prelude.Int.{pos}
use acemq_python_amqp.Retry.{Duration, zero_duration}
use acemq_python_amqp.Retry.Tests.{
  whole, doubling, minute, delays, doubling-delays, doubling_rungs, KeepsGrowing-doubling,
  next_wait_seventh,
}
use acemq_python_amqp.Envelope.Tests.{plain}
use acemq_python_amqp.Naming.{dead_letter_queue, parked_queue, retry_queue}
use acemq_python_amqp.Topology.{
  retry_exchange, dead_letter_exchange, plain_queue, rung_args, managed_exchange, Declaration,
  exchange, queue, binding, declare_where_failures_go, Topology, empty_topology, add_rungs,
  queue_twice, validate,
}
use acemq_python_amqp.Topology.Failures.{Declares, failures_declared}

failures_declared_example :
    (declared : List Declaration) × (declare_where_failures_go whole plain "orders" (some doubling)
      ≡ ok declared)
    × Declares (queue (dead_letter_queue "orders") (plain_queue true [])) declared
    × Declares
        (binding (dead_letter_queue "orders") dead_letter_exchange (dead_letter_queue "orders"))
        declared
    × Declares (queue (parked_queue "orders") (plain_queue true [])) declared
    × Declares
        (binding (parked_queue "orders") dead_letter_exchange (parked_queue "orders"))
        declared
    × ((delay : Duration) × (retry_queue plain "orders" delay ≡ retry_queue plain "orders" minute)
        × Declares
            (queue
              (retry_queue plain "orders" minute)
              (plain_queue true (rung_args "orders" delay)))
            declared)
    × Declares (exchange retry_exchange managed_exchange) declared
    × Declares (binding "orders" retry_exchange "orders") declared
failures_declared_example =
    failures_declared whole plain "orders" doubling 0 (pos 7) zero_duration delays
      (pos 32000000 ∷ minute ∷ []) (record { delay = minute; in_broker = true })
      KeepsGrowing-doubling doubling-delays doubling_rungs (omega arith) next_wait_seventh refl

abbrev with_orders : Topology
with_orders = record empty_topology { queues = ("orders", plain_queue true []) ∷ [] }

-- Delays of 30.2 and of 30.7 seconds are two queues of one name.
shared_name :
    validate (add_rungs plain "orders" true (pos 30200000 ∷ pos 30700000 ∷ []) with_orders)
    ≡ err (queue_twice "orders.retry.1s")
unfolding validate add_rungs retry_queue
shared_name = refl
