-- ===== src/Patterns/Idempotency/Tests.antt =====
-- idempotency.py at concrete stores: a window of ten seconds. The handler's world is the clock and the
-- number of its runs.
use acemq_python_amqp.Prelude.{ℕ, suc, ◌≡◌, ◌≢◌, refl, true, false, none, [], ◌∷◌, ok, err, arith}
use acemq_python_amqp.Prelude.Int.{pos, ◌-ℤ◌}
use acemq_python_amqp.Dict.{get}
use acemq_python_amqp.Envelope.{Instant}
use acemq_python_amqp.Envelope.Tests.{order}
use acemq_python_amqp.Ack.{Ack, Failure, ordinary}
use acemq_python_amqp.Ack.Answers as answers
use acemq_python_amqp.Consumer.Effects.{Message}
use acemq_python_amqp.Patterns.Idempotency.{
  Claim, Memory, Call, sweep, sweep_seen, claim_swept, claim,
}
use acemq_python_amqp.Patterns.Idempotency.Window.{
  in_window, told, fresh, claim_refines, claim_of, confirm_of, forget_of, after_requests,
  claim_once,
}
use acemq_python_amqp.Patterns.Idempotency.Guard.{guard, accepted_once, failed_runs_again}
use acemq_python_amqp.Dict.{or_else}

abbrev empty : Memory
empty = record { ttl = pos 10000000; seen = [] }

abbrev second : Instant
second = pos 1000000

-- "b" is past its window at 12 s, "c" is not.
abbrev two_keys : Memory
two_keys = record {
  ttl = pos 10000000;
  seen =
      ("b", record { claimed_at = second; confirmed = true })
      ∷ ("c", record { claimed_at = pos 5000000; confirmed = true })
      ∷ [];
}

claim_refines_example :
    ((claim "b" (pos 12000000) two_keys).0
      ≡ told (in_window (pos 12000000 -ℤ pos 10000000) (get "b" two_keys.seen)))
    × (get "c" (claim "b" (pos 12000000) two_keys).1.seen
        ≡ or_else
            (in_window (pos 12000000 -ℤ pos 10000000) (get "c" two_keys.seen))
            (fresh "b" (pos 12000000) "c"))
claim_refines_example =
    claim_refines "b" "c" (pos 12000000) two_keys (unfold get in (refl, (refl, tt)))
      ((omega arith, tt), (tt, tt))

first_claim : (claim "a" second empty).0 ≡ Claim.claimed
unfolding claim sweep sweep_seen claim_swept get
first_claim = refl

claim_once_example :
    (claim "a" (pos 9000000) (
      after_requests
        (claim_of "b" (pos 2000000) ∷ confirm_of "a" ∷ forget_of "b" ∷ [])
        (claim "a" second empty).1)).0
    ≢ Claim.claimed
claim_once_example =
    claim_once "a" second (pos 9000000)
      (claim_of "b" (pos 2000000) ∷ confirm_of "a" ∷ forget_of "b" ∷ []) empty first_claim
      (unfold ◌-ℤ◌ in (omega arith, (tt, (refl, tt)))) (unfold ◌-ℤ◌ in omega arith)

-- The clock, and how often the handler has run.
abbrev Work : Type 0
Work = Instant × ℕ

abbrev clock : Work → Instant
clock r = r.0

abbrev counts : Message ℕ → Call Work Ack
counts message r = (
  ok (record { action = acemq_python_amqp.Ack.Action.accept; error = none; delay = none }),
  (r.0, suc r.1),
)

abbrev lost : Failure
lost = record { kind = ordinary; name = "ConnectionError"; text = "lost" }

abbrev breaks : Message ℕ → Call Work Ack
breaks message r = (err lost, (r.0, suc r.1))

abbrev message : Message ℕ
message = record {
  payload = 0;
  envelope = order;
  routing_key = "orders";
  content_type = none;
  redelivered = false;
  body = [];
  reply_to = "";
}

order_claim : (claim "m1" second empty).0 ≡ Claim.claimed
unfolding claim sweep sweep_seen claim_swept get
order_claim = refl

accepted_once_example :
    ((guard clock counts second none message empty (second, 0)).0 ≡ ok answers.accept)
    × ((guard clock counts second none message empty (second, 0)).1.1 ≡ (second, 1))
    × ((guard clock counts second none message
          (guard clock counts second none message empty (second, 0)).1.0
          (pos 3000000, 1)).0
        ≡ ok answers.accept)
    × ((guard clock counts second none message
          (guard clock counts second none message empty (second, 0)).1.0
          (pos 3000000, 1)).1.1
        ≡ (pos 3000000, 1))
accepted_once_example =
    accepted_once clock counts second none message empty (second, 0) (pos 3000000, 1) refl
      order_claim (unfold answers.accept in refl) (unfold ◌-ℤ◌ in omega arith)

failed_runs_again_example :
    ((guard clock breaks second none message empty (second, 0)).0 ≡ err lost)
    × ((guard clock breaks second none message
          (guard clock breaks second none message empty (second, 0)).1.0
          (pos 3000000, 1)).0
        ≡ err lost)
    × ((guard clock breaks second none message
          (guard clock breaks second none message empty (second, 0)).1.0
          (pos 3000000, 1)).1.1
        ≡ (pos 3000000, 2))
failed_runs_again_example =
    failed_runs_again clock breaks second none message empty (second, 0) (pos 3000000, 1) refl
      order_claim tt
