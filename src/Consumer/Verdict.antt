-- ===== src/Consumer/Verdict.antt =====
-- connection.py: the books of a consumer, over whole deliveries.
use acemq_python_amqp.Prelude.{
  none, ◌+◌, ◌≡◌, Bool, true, false, List, [], ◌∷◌, Option, Result, ok, err, arith,
}
use acemq_python_amqp.Envelope.{Envelope, seen_millis, from_headers, read_envelope}
use acemq_python_amqp.Retry.{FloatTime, Wait}
use acemq_python_amqp.Ack.{Settlement, Failure}
use acemq_python_amqp.Consumer.Effects.{
  Setup, nack, announced, consume_attempts, consume_duration, Delivery, World, emit, continue,
}
use acemq_python_amqp.Consumer.Settle.{value_error}
use acemq_python_amqp.Consumer.Deliver.{
  announce, conclude, finish, run_chain, park_undecodable, handle_decoded, handle_unless,
  handle_one, envelope_of, set_in_flight, and_finally, handle_envelope, handle, work_loop,
  return_pending,
}
use acemq_python_amqp.Consumer.Ledger.{
  weigh, is_ack, is_drop, is_copy, is_accepted, Books, returned, Books-refl, Books-trans,
  Books-silent,
}
use acemq_python_amqp.Consumer.Conserved.{carry_out-Books, park_counted-Books}

module _ {P : Type 0} (ft : FloatTime) (c : Setup ft P) where
  conclude-Books :
      (d : Delivery) (e : Envelope) (r : Result Failure (Settlement × Option Wait)) (w : World)
      → Books (returned (continue r (conclude ft c d e) w).0) w (continue r (conclude ft c d e) w).1
  unfolding conclude announce
  conclude-Books d e (err f) w = Books-refl w
  conclude-Books d e (ok (s, wait)) w =
      let u = (emit (consume_duration s.outcome) w).1 in
      let v = (emit (announced s) u).1 in
      Books-trans w v _
        (Books-trans w u v (Books-silent (consume_duration s.outcome) w (omega arith))
          (Books-silent (announced s) u (omega arith)))
        (carry_out-Books ft c d e s wait v)

  handle_decoded-Books :
      (d : Delivery) (e : Envelope) (r : Result Failure P) (w : World)
      → Books (returned (handle_decoded ft c d e r w).0) w (handle_decoded ft c d e r w).1
  unfolding handle_decoded park_undecodable run_chain finish
  handle_decoded-Books d e (err f) w = park_counted-Books ft c d e _ w
  handle_decoded-Books d e (ok payload) w = conclude-Books d _ _ w

  handle_unless-Books :
      (halted : Bool) (d : Delivery) (e : Envelope) (w : World)
      → Books (returned (handle_unless ft c halted d e w).0) w (handle_unless ft c halted d e w).1
  unfolding handle_unless
  handle_unless-Books true d e w = ground arith
  handle_unless-Books false d e w =
      handle_decoded-Books d e (c.decode w.trace d.body d.content_type) w

  handle_envelope-Books :
      (d : Delivery) (e : Envelope) (w : World)
      → Books (returned (handle_envelope ft c d e w).0) w (handle_envelope ft c d e w).1
  unfolding handle_envelope and_finally set_in_flight handle_one
  handle_envelope-Books d e w =
      let v = (set_in_flight ft c (w.in_flight + 1) (emit (consume_attempts e.attempt) w).1).1 in
      let b = handle_unless-Books w.halted d e v in
      record { balanced = omega arith; settled = omega arith; kept = omega arith }

  read-Books :
      (d : Delivery) (r : Result Failure Envelope) (w : World)
      → Books
          (returned (continue r (handle_envelope ft c d) w).0)
          w
          (continue r (handle_envelope ft c d) w).1
  read-Books d (ok e) w = handle_envelope-Books d e w
  read-Books d (err f) w = Books-refl w

-- Handling one delivery, whatever the handler, the interceptors, the codec and the broker's answers to
-- the publishes are, where acknowledging and returning a delivery do not themselves raise: if it
-- returns, the delivery has been settled exactly once, and if it raises, not at all; each
-- acknowledgement is matched by a message that was counted as acknowledged or by a copy that reached
-- a queue, and each of those by an acknowledgement; and nothing is rejected without requeue.
pub handle-Books :
    {P : Type 0} (ft : FloatTime) (c : Setup ft P) (d : Delivery) (w : World)
    → Books (returned (handle ft c d w).0) w (handle ft c d w).1
unfolding handle
handle-Books ft c d w = read-Books ft c d (envelope_of ft c d w) w

-- A delivery whose first-seen header names an instant that `fromtimestamp` does not reach: handling
-- it raises before anything else, and the delivery is neither acknowledged nor returned to the broker.
pub handle_unread :
    {P : Type 0} (ft : FloatTime) (c : Setup ft P) (d : Delivery) (w : World)
    → c.py.from_millis (seen_millis c.py (c.now w.trace) d.headers) ≡ none
    → handle ft c d w ≡ (err value_error, w)
unfolding handle envelope_of from_headers read_envelope
handle_unread ft c d w beyond = rw beyond

-- No message is lost: every acknowledgement stands for a message that was handled or copied.
pub record IsConserved (w : World) : Type 0 where
  pub matched : weigh is_ack w.trace ≡ weigh is_copy w.trace + weigh is_accepted w.trace
  pub undropped : weigh is_drop w.trace ≡ 0

return_pending-IsConserved :
    {P : Type 0} (ft : FloatTime) (c : Setup ft P) (ds : List Delivery) (w : World)
    → IsConserved w
    → IsConserved (return_pending ft c ds w)
unfolding return_pending
return_pending-IsConserved ft c [] w h = h
return_pending-IsConserved ft c (d ∷ ds) w h =
    return_pending-IsConserved ft c ds (emit (nack true) w).1
      (record { matched = omega arith; undropped = omega arith })

-- Over any sequence of deliveries, and the return of those that no worker had started, a consumer
-- keeps the number of acknowledgements equal to the number of copies that reached a queue plus the
-- number of messages counted as acknowledged, and rejects nothing without requeue.
pub work_loop-IsConserved :
    {P : Type 0} (ft : FloatTime) (c : Setup ft P) (ds pending : List Delivery) (w : World)
    → IsConserved w
    → IsConserved (return_pending ft c pending (work_loop ft c ds w))
unfolding work_loop
work_loop-IsConserved ft c [] pending w h = return_pending-IsConserved ft c pending w h
work_loop-IsConserved ft c (d ∷ ds) pending w h =
    let b = handle-Books ft c d w in
    work_loop-IsConserved ft c ds pending (handle ft c d w).1
      (record { matched = omega arith; undropped = omega arith })
