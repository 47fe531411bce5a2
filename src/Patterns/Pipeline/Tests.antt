-- ===== src/Patterns/Pipeline/Tests.antt =====
-- A step that sends on twice the number that it gets.
use acemq_python_amqp.Prelude.{ℕ, ◌+◌, false, none, [], ◌∷◌, ok}
use acemq_python_amqp.Envelope.Tests.{order}
use acemq_python_amqp.Consumer.Effects.{Message}
use acemq_python_amqp.Publisher.Tests.{shop}
use acemq_python_amqp.Patterns.Pipeline.{World, onward, onwards}
use acemq_python_amqp.Patterns.Pipeline.Settled.{Settled, onwards-Settled}

abbrev seven : Message ℕ
seven = record {
  payload = 7;
  envelope = order;
  routing_key = "order.placed";
  content_type = none;
  redelivered = false;
  body = 7 ∷ [];
  reply_to = "";
}

abbrev no_world : World ℕ
no_world = record { own = 0; sent = [] }

onwards-Settled_example :
    let left = onwards shop (λ m w. (ok (onward (m.payload + m.payload)), w)) seven no_world in
    Settled shop (λ m w. (ok (onward (m.payload + m.payload)), w)) seven no_world left.0 left.1
onwards-Settled_example =
    onwards-Settled shop (λ m w. (ok (onward (m.payload + m.payload)), w)) seven no_world
