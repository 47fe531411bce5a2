-- ===== src/Patterns/RequestReply/Tests.antt =====
-- One request and its reply.
use acemq_python_amqp.Prelude.{ℕ, ◌+◌, ◌≡◌, ◌⊎◌, refl, String, true, false, some, none, [], ◌∷◌, ok}
use acemq_python_amqp.Prelude.Int.{pos}
use acemq_python_amqp.Dict.{get, put}
use acemq_python_amqp.Envelope.Tests.{order}
use acemq_python_amqp.Consumer.Effects.{Message}
use acemq_python_amqp.Publisher.Tests.{shop}
use acemq_python_amqp.Patterns.RequestReply.Requester.{
  Reply, pending, resolved, nobody_waits, begin_ask, receive,
}
use acemq_python_amqp.Patterns.RequestReply.Matched.{
  Reach, start, then_steps, asks, is_there, is_live, replies_matched,
}
use acemq_python_amqp.Patterns.RequestReply.Responder.{World, Service, handle}
use acemq_python_amqp.Patterns.RequestReply.Answered.{Settled, handle-Settled}

abbrev reply_to : String → Reply
reply_to c = record {
  payload = [];
  envelope = record order { correlation_id = c };
  routing_key = "acemq-reply-1";
  content_type = none;
  redelivered = false;
  body = 7 ∷ [];
  reply_to = "";
}

asked : Reach (begin_ask "c-1" nobody_waits)
unfolding get
asked = then_steps start (asks "c-1" refl refl)

replies_matched_example :
    let s = begin_ask "c-1" nobody_waits in
    let t = (receive (reply_to "c-1") s).1 in
    (get "c-1" s.futures ≡ some (resolved (reply_to "c-2"))
      → (reply_to "c-2").envelope.correlation_id ≡ "c-1")
    × (is_there (get "c-1" s.waiting) ≡ true → is_live (get "c-1" s.futures) ≡ true)
    × (get "c-1" t.waiting ≡ none)
    × (((get "c-1" s.futures ≡ some pending)
          × (t.futures ≡ put "c-1" (resolved (reply_to "c-1")) s.futures)
          × (t.unmatched ≡ s.unmatched))
        ⊎ ((t.futures ≡ s.futures) × (t.unmatched ≡ s.unmatched + 1)))
replies_matched_example =
    replies_matched (begin_ask "c-1" nobody_waits) "c-1" (reply_to "c-2") (reply_to "c-1") asked

abbrev doubling : Service ℕ ℕ ℕ
doubling = record {
  respond = λ m w. (ok (m.payload + m.payload), w);
  publisher = record {
    exchange = "";
    routing_key = "";
    persistent = true;
    mandatory = true;
    content_type = "application/json";
    origin = "doubler";
    max_outstanding = 2;
    confirm_timeout = shop.confirm_timeout;
    py = shop.py;
    words = shop.words;
    encode = λ t answer. ok [];
    weather = shop.weather;
    interceptors = λ t. [];
    fresh_id = λ t. "m-9";
    now = λ t. pos 0;
  };
  str_of_bytes = λ b. "";
}

abbrev request : Message ℕ
request = record {
  payload = 4;
  envelope = order;
  routing_key = "double";
  content_type = none;
  redelivered = false;
  body = [];
  reply_to = "acemq-reply-1";
}

abbrev fresh_world : World ℕ
fresh_world = record { own = 0; sent = []; answered = pos 0; unanswerable = 0 }

handle-Settled_example :
    let left = handle doubling request fresh_world in
    Settled doubling request fresh_world left.0 left.1
handle-Settled_example = handle-Settled doubling request fresh_world
