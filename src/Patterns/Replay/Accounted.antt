-- ===== src/Patterns/Replay/Accounted.antt =====
-- patterns/replay.py: a pass settles what it took, and its result counts that.
use acemq_python_amqp.Prelude.{◌≡◌, String, List, Result}
use acemq_python_amqp.Envelope.{Envelope}
use acemq_python_amqp.Consumer.Effects.{Outbound, Delivery}
use acemq_python_amqp.Publisher.Outstanding.{PublishResult, PublishFault}
use acemq_python_amqp.Patterns.Replay.{ReplayEvent, Replay}
use acemq_python_amqp.Patterns.Replay.Pass.{Pass, Turn, after_move}
use acemq_python_amqp.Patterns.Replay.Endings.{IsSound, offered}

module _ (s : Replay) (p : Pass) (sound : IsSound p) (d : Delivery) where
  module _ (key : String) (o : Outbound) (same : o.body ≡ d.body) where
    abbrev out : Result PublishFault PublishResult → List ReplayEvent
    out answer = offered p sound d s.exchange key o same answer

  abbrev turned : Result PublishFault Unit × List ReplayEvent → Turn
  turned left = after_move s left.0 (record p { trace = left.1 })
