-- ===== src/Consumer/Ledger.antt =====
-- connection.py: the books of a trace. Each settlement, each copy that reached a queue and each
-- message that was counted as acknowledged is an entry; the steps of a settlement keep the books
-- balanced.
use acemq_python_amqp.Prelude.{
  ℕ, ◌+◌, ◌≡◌, refl, Bool, true, false, List, [], ◌∷◌, Result, ok, err, arith,
}
use acemq_python_amqp.Ack.{Outcome, Failure}
use acemq_python_amqp.Consumer.Effects.{
  Effect, ack, nack, published, consume_total, routed, World, emit,
}

abbrev pub weigh : (Effect → ℕ) → List Effect → ℕ
weigh f [] = 0
weigh f (e ∷ t) = f e + weigh f t

-- The delivery was acknowledged.
abbrev pub is_ack : Effect → ℕ
is_ack ack = 1
is_ack _ = 0

-- The delivery was returned to the broker, to be delivered again.
abbrev pub is_requeue : Effect → ℕ
is_requeue (nack true) = 1
is_requeue _ = 0

-- The delivery was rejected without requeue, which drops it.
abbrev pub is_drop : Effect → ℕ
is_drop (nack false) = 1
is_drop _ = 0

-- A copy of the message reached a queue.
abbrev pub is_copy : Effect → ℕ
is_copy (published q out routed) = 1
is_copy _ = 0

-- The message was counted as acknowledged.
abbrev pub is_accepted : Effect → ℕ
is_accepted (consume_total Outcome.acked) = 1
is_accepted _ = 0

-- From `w` to `w'` the consumer settled `n` deliveries; each acknowledgement was for a message that
-- was counted as acknowledged or for one whose copy reached a queue, and each of those was
-- acknowledged; nothing was dropped.
pub record Books (n : ℕ) (w w' : World) : Type 0 where
  pub balanced :
      weigh is_ack w'.trace + weigh is_copy w.trace + weigh is_accepted w.trace
      ≡ weigh is_ack w.trace + weigh is_copy w'.trace + weigh is_accepted w'.trace
  pub settled :
      weigh is_ack w'.trace + weigh is_requeue w'.trace
      ≡ n + weigh is_ack w.trace + weigh is_requeue w.trace
  pub kept : weigh is_drop w'.trace ≡ weigh is_drop w.trace

-- 1 for an action that returned.
abbrev pub returned : {A : Type 0} → Result Failure A → ℕ
returned (ok a) = 1
returned (err e) = 0

-- 1 for an action that returned true.
abbrev pub took : Result Failure Bool → ℕ
took (ok true) = 1
took _ = 0

-- Nothing of the books is in the effect.
abbrev pub IsSilent : Effect → Type 0
IsSilent e =
    (is_ack e ≡ 0) × (is_requeue e ≡ 0) × (is_drop e ≡ 0) × (is_copy e ≡ 0) × (is_accepted e ≡ 0)

pub Books-refl : (w : World) → Books 0 w w
Books-refl w = record { balanced = refl; settled = omega arith; kept = refl }

-- Steps that settle nothing, then the rest.
pub Books-trans : {m : ℕ} (u v w : World) → Books 0 u v → Books m v w → Books m u w
Books-trans u v w a b = record { balanced = omega arith; settled = omega arith; kept = omega arith }

pub Books-silent : (e : Effect) (w : World) → IsSilent e → Books 0 w (emit e w).1
Books-silent e w s = record { balanced = omega arith; settled = omega arith; kept = omega arith }
