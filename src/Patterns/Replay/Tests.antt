-- ===== src/Patterns/Replay/Tests.antt =====
-- A pass over two dead letters, of which the filter takes one.
use acemq_python_amqp.Prelude.{◌≡◌, refl, String, true, false, some, none, [], ◌∷◌, ok, str_eq}
use acemq_python_amqp.Prelude.Int.{pos}
use acemq_python_amqp.Consumer.Effects.{Delivery}
use acemq_python_amqp.Publisher.Tests.{shop}
use acemq_python_amqp.Patterns.Replay.{Replay, without_last, replayed_at}

abbrev letter : String → Delivery
letter id = record {
  body = 7 ∷ [];
  content_type = none;
  routing_key = "orders";
  message_id = id;
  headers = [];
  redelivered = false;
  reply_to = "";
}

abbrev dead_letters : Replay
dead_letters = record {
  queue = "orders.dlq";
  exchange = "";
  routing_key = none;
  limit = pos 0;
  deadline = some (pos 60000000);
  only = some (λ t e body. ok (str_eq e.id "m-2"));
  restart = true;
  return_wait = pos 0;
  max_outstanding = 2;
  confirm_timeout = shop.confirm_timeout;
  py = shop.py;
  words = shop.words;
  iso_millis = λ when. "2026-02-03T04:05:06.789+00:00";
  weather = λ t. shop.weather [];
  ack_answer = λ t. ok tt;
  nack_answer = λ t. none;
  clock = λ t. pos 0;
  now = λ t. pos 0;
  fresh_id = λ t. "m-9";
}

stamped : replayed_at "2026-02-03T04:05:06.789+00:00" ≡ "2026-02-03T04:05:06.789Z"
unfolding replayed_at without_last
stamped = refl
