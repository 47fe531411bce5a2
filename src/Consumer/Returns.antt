-- ===== src/Consumer/Returns.antt =====
-- connection.py: a settlement that is decided is carried out to its end.
use acemq_python_amqp.Prelude.{
  String, ◌≡◌, ◌∙◌, ap, ◌+◌, refl, Bool, Bool-cases, true, false, Option, some, none, Result, ok,
  err, arith, inl, inr, List,
}
use acemq_python_amqp.Envelope.{Envelope, any_reserved, post_init}
use acemq_python_amqp.Retry.{Duration, FloatTime, Wait}
use acemq_python_amqp.Ack.{Outcome, Settlement, Failure}
use acemq_python_amqp.Naming.{dead_letter_queue, parked_queue, retry_queue}
use acemq_python_amqp.Consumer.Effects.{
  Setup, Effect, Outbound, PublishAnswer, broke, Delivery, World, Exec, continue, emit,
  consume_total, dead_lettered_total,
}
use acemq_python_amqp.Consumer.Settle.{
  or_empty, hop_of, next_attempt, with_error, sleep_if_positive, halt, republish, after_rung,
  retry_in_broker, after_retry, retry_again, after_put_back, put_back, after_set_aside, set_aside,
  park, dead_letter, wait_here, go_round, waited, carry_wait, carry, carry_out,
}
use acemq_python_amqp.Consumer.Ledger.{weigh, is_ack, is_requeue, returned}
use acemq_python_amqp.Consumer.Conserved.{carry_out-Books}

-- The publish came back with an answer of the broker, or with its refusal.
abbrev pub Answers : PublishAnswer → Type 0
Answers (broke failure) = ⊥
Answers _ = Unit {0}

-- A chain of actions returns if each of them does.
continue_returns :
    {A B : Type 0} (r : Result Failure A) (f : A → Exec B) (w : World)
    → returned r ≡ 1
    → ((a : A) (w' : World) → returned (f a w').0 ≡ 1)
    → returned (continue r f w).0 ≡ 1
continue_returns (ok a) f w h g = g a w
continue_returns (err e) f w h g = omega arith

sleep_returns : (delay : Duration) (w : World) → returned (sleep_if_positive delay w).0 ≡ 1
unfolding sleep_if_positive
sleep_returns delay w = ground arith

-- No application header has a reserved name, so a copy of the envelope can be made.
next_attempt_returns :
    (e : Envelope) (w : World) → any_reserved e.headers ≡ false → returned (next_attempt e w).0 ≡ 1
unfolding next_attempt post_init
next_attempt_returns e w fine = rw fine

with_error_returns :
    (e : Envelope) (reason : String) (w : World)
    → any_reserved e.headers ≡ false
    → returned (with_error e reason w).0 ≡ 1
unfolding with_error post_init
with_error_returns e reason w fine = rw fine

module _ {P : Type 0} (ft : FloatTime) (c : Setup ft P)
    (answers : (t : List Effect) (queue : String) (out : Outbound)
      → Answers (c.publish t queue out)) where
  hop_returns : (a : PublishAnswer) → Answers a → returned (hop_of a) ≡ 1
  unfolding hop_of
  hop_returns a h = ground arith

  republish_returns :
      (d : Delivery) (queue : String) (e : Envelope) (w : World)
      → returned (republish ft c d queue e w).0 ≡ 1
  unfolding republish
  republish_returns d queue e w = hop_returns _ (answers w.trace queue _)

  put_back_returns :
      (d : Delivery) (e : Envelope) (delay : Duration) (w : World)
      → returned (put_back ft c d e delay w).0 ≡ 1
  unfolding put_back after_put_back
  put_back_returns d e delay w =
      continue_returns _ _ _ (sleep_returns delay w)
        (λ a u. continue_returns _ _ _ (republish_returns d c.queue e u) (λ hop v. ground arith))

  module _ (d : Delivery) (e : Envelope) (fine : any_reserved e.headers ≡ false) where
    retry_again_returns : (w : World) → returned (retry_again ft c d e w).0 ≡ 1
    unfolding retry_again after_retry
    retry_again_returns w = continue_returns _ _ _ (next_attempt_returns e w fine) (λ next u.
        continue_returns _ _ _ (republish_returns d c.queue next u) (λ hop v. ground arith))

    retry_in_broker_returns :
        (delay : Duration) (w : World) → returned (retry_in_broker ft c d e delay w).0 ≡ 1
    unfolding retry_in_broker after_rung
    retry_in_broker_returns delay w =
        continue_returns _ _ _ (next_attempt_returns e w fine) (λ next u.
          continue_returns _ _ _ (republish_returns d (retry_queue c.py c.queue delay) next u)
            (λ hop v. ground arith))

    set_aside_returns :
        (target reason : String) (w : World) → returned (set_aside ft c d e target reason w).0 ≡ 1
    unfolding set_aside after_set_aside
    set_aside_returns target reason w =
        continue_returns _ _ _ (with_error_returns e reason w fine) (λ failed u.
          continue_returns _ _ _ (republish_returns d target failed u) (λ hop v. ground arith))

    park_returns : (reason : String) (w : World) → returned (park ft c d e reason w).0 ≡ 1
    unfolding park
    park_returns reason w =
        set_aside_returns (parked_queue c.queue) reason
          (emit (dead_lettered_total Outcome.parked) w).1

    dead_letter_returns :
        (reason : String) (w : World) → returned (dead_letter ft c d e reason w).0 ≡ 1
    unfolding dead_letter
    dead_letter_returns reason w =
        set_aside_returns (dead_letter_queue c.queue) reason
          (emit (dead_lettered_total Outcome.dead_lettered) w).1

    wait_here_returns :
        (delay : Duration) (taken : Bool) (w : World)
        → returned (wait_here ft c d e delay taken w).0 ≡ 1
    unfolding wait_here
    wait_here_returns delay true w = refl
    wait_here_returns delay false w =
        continue_returns _ _ _ (sleep_returns delay w) (λ a u. retry_again_returns u)

    go_round_returns : (wait : Wait) (w : World) → returned (go_round ft c d e wait w).0 ≡ 1
    unfolding go_round
    go_round_returns wait w = elim (Bool-cases wait.in_broker) [
      | inl far ↦ rw far (
          continue_returns _ _ _ (retry_in_broker_returns wait.delay w)
            (λ taken u. wait_here_returns wait.delay taken u))
      | inr near ↦ rw near (wait_here_returns wait.delay false w)
    ]

    waited_returns :
        (o : Outcome) (wait : Wait) (w : World) → returned (waited ft c o d e wait w).0 ≡ 1
    unfolding waited
    waited_returns Outcome.in_progress wait w = put_back_returns d e wait.delay w
    waited_returns _ wait w = go_round_returns wait w

    carry_wait_returns :
        (s : Settlement) (wait : Option Wait) (w : World)
        → returned (carry_wait ft c d e s wait w).0 ≡ 1
    unfolding carry_wait
    carry_wait_returns s none w = dead_letter_returns (or_empty s.reason) w
    carry_wait_returns s (some wait) w = waited_returns s.outcome wait w

    carry_returns :
        (o : Outcome) (s : Settlement) (wait : Option Wait) (w : World)
        → returned (carry ft c o d e s wait w).0 ≡ 1
    unfolding carry
    carry_returns Outcome.acked s wait w = refl
    carry_returns Outcome.stopped s wait w = unfold halt in refl
    carry_returns Outcome.parked s wait w = park_returns (or_empty s.reason) w
    carry_returns o s wait w = carry_wait_returns s wait w

    carry_out_returns :
        (s : Settlement) (wait : Option Wait) (w : World)
        → returned (carry_out ft c d e s wait w).0 ≡ 1
    unfolding carry_out
    carry_out_returns s wait w = carry_returns s.outcome s wait (emit (consume_total s.outcome) w).1

    -- If the broker answers every publish and the envelope has no application header with a reserved
    -- name, a settlement that is decided is carried out to its end, whatever the decision: nothing
    -- raises, and the delivery is acknowledged or returned to the broker, one of the two, once.
    pub carry_out_settles :
        (s : Settlement) (wait : Option Wait) (w : World)
        → (returned (carry_out ft c d e s wait w).0 ≡ 1)
          × (weigh is_ack (carry_out ft c d e s wait w).1.trace
                + weigh is_requeue (carry_out ft c d e s wait w).1.trace
              ≡ 1 + weigh is_ack w.trace + weigh is_requeue w.trace)
    carry_out_settles s wait w =
        let r = carry_out_returns s wait w in
        let b = carry_out-Books ft c d e s wait w in
        (r, b.settled ∙ ap (λ n. n + weigh is_ack w.trace + weigh is_requeue w.trace) r)
