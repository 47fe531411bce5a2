-- ===== src/Patterns/Replay/Copies.antt =====
-- patterns/replay.py: a message that a pass has read can be sent back, and a copy that was routed was
-- confirmed.
use acemq_python_amqp.Prelude.{
  ℕ, ◌≡◌, refl, arith, inl, inr, true, false, Bool-cases, String, Option, some, none, ok,
}
use acemq_python_amqp.Prelude.Int.{pos}
use acemq_python_amqp.Envelope.{
  Envelope, Instant, post_init, filled, any_reserved, from_headers, read_envelope, read_fields,
  seen_millis,
}
use acemq_python_amqp.Consumer.Effects.{Delivery}
use acemq_python_amqp.Publisher.Outstanding.{
  PublishResult, Request, Wording, Weather, publish_raw, conclude_publish, after_look, after_permit,
  look, acquire, Reply, silent, failed, answered,
}
use acemq_python_amqp.Patterns.Replay.{Replay, going_back}

-- An envelope that could be read can be made anew.
pub post_init-ok : (e : Envelope) → any_reserved e.headers ≡ false → post_init e ≡ ok (filled e)
unfolding post_init
post_init-ok e free = rw free refl

pub post_init-free : (e₀ e : Envelope) → post_init e₀ ≡ ok e → any_reserved e.headers ≡ false
unfolding post_init filled
post_init-free e₀ e made = ground arith

pub read_envelope-free :
    (s : Replay) (fresh : String) (seen : Option Instant) (d : Delivery) (e : Envelope)
    → read_envelope s.py seen fresh d.headers d.routing_key d.message_id ≡ ok e
    → any_reserved e.headers ≡ false
unfolding read_envelope
read_envelope-free s fresh none d e read = cc
read_envelope-free s fresh (some seen) d e read =
    post_init-free (read_fields s.py fresh seen d.headers d.routing_key d.message_id) e read

pub from_headers-free :
    (s : Replay) (fresh : String) (now : Instant) (d : Delivery) (e : Envelope)
    → from_headers s.py fresh now d.headers d.routing_key d.message_id ≡ ok e
    → any_reserved e.headers ≡ false
unfolding from_headers
from_headers-free s fresh now d e read =
    read_envelope-free s fresh (s.py.from_millis (seen_millis s.py now d.headers)) d e read

pub going_back-ok :
    (s : Replay) (e : Envelope)
    → any_reserved e.headers ≡ false
    → (back : Envelope) × (going_back s e ≡ ok back)
unfolding going_back
going_back-ok s e free = elim (Bool-cases s.restart) [
  | inl again ↦ (filled (record e { attempt = pos 1; error = "" }), rw again (post_init-ok _ free))
  | inr as_is ↦ (e, rw as_is refl)
]

-- A publish that comes back with a routed result was confirmed.
pub conclude_publish_confirmed :
    (words : Wording) (most : ℕ) (timeout : Instant) (r : Request) (reply : Reply)
    (result : PublishResult)
    → conclude_publish words most timeout r reply ≡ ok result
    → result.routed ≡ true
    → result.confirmed ≡ true
unfolding conclude_publish
conclude_publish_confirmed words most timeout r silent result e routed = cc
conclude_publish_confirmed words most timeout r (failed fault) result e routed = cc
conclude_publish_confirmed words most timeout r (answered got) result e routed = ground arith

pub publish_raw_confirmed :
    (words : Wording) (most : ℕ) (timeout : Instant) (r : Request) (w : Weather)
    (result : PublishResult)
    → publish_raw words most timeout r w ≡ ok result
    → result.routed ≡ true
    → result.confirmed ≡ true
unfolding publish_raw after_look after_permit look acquire
publish_raw_confirmed words most timeout r w result e routed =
    ground (arith, conclude_publish_confirmed words most timeout r w.reply result)
