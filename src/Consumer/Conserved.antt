-- ===== src/Consumer/Conserved.antt =====
-- connection.py: each step of a settlement keeps the books of `Consumer.Ledger`.
use acemq_python_amqp.Prelude.{
  Bool, Bool-cases, true, false, Option, some, none, Result, ok, err, arith, inl, inr, String,
}
use acemq_python_amqp.Prelude.Int.{ltb_ℤ}
use acemq_python_amqp.Envelope.{Envelope}
use acemq_python_amqp.Retry.{Duration, zero_duration, FloatTime, Wait}
use acemq_python_amqp.Naming.{dead_letter_queue, parked_queue}
use acemq_python_amqp.Ack.{Outcome, Settlement, Failure}
use acemq_python_amqp.Consumer.Effects.{
  Setup, slept, dead_lettered_total, consume_total, Delivery, World, emit, continue,
}
use acemq_python_amqp.Consumer.Settle.{
  or_empty, next_attempt, with_error, sleep_if_positive, hop_of, halt, republish, after_rung,
  retry_in_broker, after_retry, retry_again, after_put_back, put_back, after_set_aside, set_aside,
  park, dead_letter, wait_here, go_round, waited, carry_wait, carry, carry_out,
}
use acemq_python_amqp.Consumer.Ledger.{Books, returned, took, Books-trans, Books-silent}

module _ {P : Type 0} (ft : FloatTime) (c : Setup ft P) where
  retry_again-Books :
      (d : Delivery) (e : Envelope) (w : World)
      → Books (returned (retry_again ft c d e w).0) w (retry_again ft c d e w).1
  unfolding retry_again next_attempt republish after_retry hop_of
  retry_again-Books d e w = ground arith

  retry_in_broker-Books :
      (d : Delivery) (e : Envelope) (delay : Duration) (w : World)
      → Books (took (retry_in_broker ft c d e delay w).0) w (retry_in_broker ft c d e delay w).1
  unfolding retry_in_broker next_attempt republish after_rung hop_of
  retry_in_broker-Books d e delay w = ground arith

  put_back-Books :
      (d : Delivery) (e : Envelope) (delay : Duration) (w : World)
      → Books (returned (put_back ft c d e delay w).0) w (put_back ft c d e delay w).1
  unfolding put_back sleep_if_positive republish after_put_back hop_of
  put_back-Books d e delay w = ground arith

  set_aside-Books :
      (d : Delivery) (e : Envelope) (target reason : String) (w : World)
      → Books
          (returned (set_aside ft c d e target reason w).0)
          w
          (set_aside ft c d e target reason w).1
  unfolding set_aside with_error republish after_set_aside hop_of
  set_aside-Books d e target reason w = ground arith

  park-Books :
      (d : Delivery) (e : Envelope) (reason : String) (w : World)
      → Books (returned (park ft c d e reason w).0) w (park ft c d e reason w).1
  unfolding park
  park-Books d e reason w =
      let v = (emit (dead_lettered_total Outcome.parked) w).1 in
      Books-trans w v _ (Books-silent (dead_lettered_total Outcome.parked) w (omega arith))
        (set_aside-Books d e (parked_queue c.queue) reason v)

  dead_letter-Books :
      (d : Delivery) (e : Envelope) (reason : String) (w : World)
      → Books (returned (dead_letter ft c d e reason w).0) w (dead_letter ft c d e reason w).1
  unfolding dead_letter
  dead_letter-Books d e reason w =
      let v = (emit (dead_lettered_total Outcome.dead_lettered) w).1 in
      Books-trans w v _ (Books-silent (dead_lettered_total Outcome.dead_lettered) w (omega arith))
        (set_aside-Books d e (dead_letter_queue c.queue) reason v)

  wait_here-Books :
      (d : Delivery) (e : Envelope) (delay : Duration) (w : World)
      → Books (returned (wait_here ft c d e delay false w).0) w (wait_here ft c d e delay false w).1
  unfolding wait_here sleep_if_positive
  wait_here-Books d e delay w = elim (Bool-cases (ltb_ℤ zero_duration delay)) [
    | inl long ↦ rw long (
        let v = (emit (slept delay) w).1 in
        Books-trans w v _ (Books-silent (slept delay) w (omega arith)) (retry_again-Books d e v))
    | inr none_left ↦ rw none_left (retry_again-Books d e w)
  ]

  -- After a rung has answered, whatever it said.
  after_broker-Books :
      (d : Delivery) (e : Envelope) (delay : Duration) (w : World) (r : Result Failure Bool)
      (w' : World)
      → Books (took r) w w'
      → Books
          (returned (continue r (wait_here ft c d e delay) w').0)
          w
          (continue r (wait_here ft c d e delay) w').1
  unfolding wait_here
  after_broker-Books d e delay w (ok true) w' b = b
  after_broker-Books d e delay w (ok false) w' b =
      Books-trans w w' _ b (wait_here-Books d e delay w')
  after_broker-Books d e delay w (err f) w' b = b

  go_round-Books :
      (d : Delivery) (e : Envelope) (wait : Wait) (w : World)
      → Books (returned (go_round ft c d e wait w).0) w (go_round ft c d e wait w).1
  unfolding go_round
  go_round-Books d e wait w = elim (Bool-cases wait.in_broker) [
    | inl far ↦ rw far (
        after_broker-Books d e wait.delay w (retry_in_broker ft c d e wait.delay w).0
          (retry_in_broker ft c d e wait.delay w).1 (retry_in_broker-Books d e wait.delay w))
    | inr near ↦ rw near (wait_here-Books d e wait.delay w)
  ]

  waited-Books :
      (o : Outcome) (d : Delivery) (e : Envelope) (wait : Wait) (w : World)
      → Books (returned (waited ft c o d e wait w).0) w (waited ft c o d e wait w).1
  unfolding waited
  waited-Books Outcome.in_progress d e wait w = put_back-Books d e wait.delay w
  waited-Books _ d e wait w = go_round-Books d e wait w

  carry_wait-Books :
      (d : Delivery) (e : Envelope) (s : Settlement) (wait : Option Wait) (w : World)
      → Books (returned (carry_wait ft c d e s wait w).0) w (carry_wait ft c d e s wait w).1
  unfolding carry_wait
  carry_wait-Books d e s none w = dead_letter-Books d e (or_empty s.reason) w
  carry_wait-Books d e s (some wait) w = waited-Books s.outcome d e wait w

  -- `_carry_out`, from the count of the outcome on.
  counted_carry-Books :
      (o : Outcome) (d : Delivery) (e : Envelope) (s : Settlement) (wait : Option Wait) (w : World)
      → Books
          (returned (carry ft c o d e s wait (emit (consume_total o) w).1).0)
          w
          (carry ft c o d e s wait (emit (consume_total o) w).1).1
  unfolding carry
  counted_carry-Books Outcome.acked d e s wait w = ground arith
  counted_carry-Books Outcome.stopped d e s wait w = unfold halt in ground arith
  counted_carry-Books Outcome.parked d e s wait w =
      let v = (emit (consume_total Outcome.parked) w).1 in
      Books-trans w v _ (Books-silent (consume_total Outcome.parked) w (omega arith))
        (park-Books d e (or_empty s.reason) v)
  counted_carry-Books o d e s wait w =
      let v = (emit (consume_total o) w).1 in
      Books-trans w v _ (Books-silent (consume_total o) w (omega arith))
        (carry_wait-Books d e s wait v)

  pub carry_out-Books :
      (d : Delivery) (e : Envelope) (s : Settlement) (wait : Option Wait) (w : World)
      → Books (returned (carry_out ft c d e s wait w).0) w (carry_out ft c d e s wait w).1
  unfolding carry_out
  carry_out-Books d e s wait w = counted_carry-Books s.outcome d e s wait w

  pub park_counted-Books :
      (d : Delivery) (e : Envelope) (reason : String) (w : World)
      → Books
          (returned (park ft c d e reason (emit (consume_total Outcome.parked) w).1).0)
          w
          (park ft c d e reason (emit (consume_total Outcome.parked) w).1).1
  park_counted-Books d e reason w =
      let v = (emit (consume_total Outcome.parked) w).1 in
      Books-trans w v _ (Books-silent (consume_total Outcome.parked) w (omega arith))
        (park-Books d e reason v)
