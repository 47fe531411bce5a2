-- ===== src/Consumer/Deliver.antt =====
-- connection.py: `_handle_one`, `_handle`, the work loop and what `close` does with the deliveries
-- that no worker has started.
use acemq_python_amqp.Prelude.{
  ℕ, ◌+◌, ◌-◌, Bool, true, false, Option, none, some, List, [], ◌∷◌, Result, ok, err, concat,
}
use acemq_python_amqp.Envelope.{Envelope, from_headers}
use acemq_python_amqp.Retry.{FloatTime, Wait}
use acemq_python_amqp.Ack.{Action, Outcome, Settlement, Failure, describe}
use acemq_python_amqp.Interceptors.{chain}
use acemq_python_amqp.Consumer.Effects.{
  Setup, Effect, nack, announced, consume_attempts, in_flight_gauge, consume_total,
  consume_duration, Delivery, ConsumeContext, Answer, decided, not_an_ack, World, Exec, lift, emit,
  ◌>>=◌, ◌>>◌,
}
use acemq_python_amqp.Consumer.Decide.{decide, settle_because}
use acemq_python_amqp.Consumer.Settle.{or_value_error, park, carry_out}

module _ {P : Type 0} (ft : FloatTime) (c : Setup ft P) where
  -- `_run_handler`, with what the handler may read of the past.
  unfoldable pub run_handler :
      List Effect → ConsumeContext P → Result Failure Answer × ConsumeContext P
  run_handler t context = (
    c.handler t (record {
      payload = context.payload;
      envelope = context.envelope;
      routing_key = context.routing_key;
      content_type = context.content_type;
      redelivered = context.redelivered;
      body = context.body;
      reply_to = context.reply_to;
    }),
    context,
  )

  unfoldable pub context_of : Delivery → Envelope → P → ConsumeContext P
  context_of d e payload = record {
    queue = c.queue;
    envelope = e;
    payload = payload;
    body = d.body;
    content_type = d.content_type;
    routing_key = d.routing_key;
    redelivered = d.redelivered;
    reports_settlement = true;
    reply_to = d.reply_to;
  }

  -- `except Exception as failure: decision = Ack(Action.RETRY, failure)`
  abbrev pub or_retry : Result Failure Answer → Answer
  or_retry (ok answer) = answer
  or_retry (err failure) =
      decided (record { action = Action.retry; error = some failure; delay = none })

  -- The settlement and the wait for what the handler returned.
  unfoldable pub verdict :
      List Effect → Envelope → Answer → Result Failure (Settlement × Option Wait)
  verdict t e (decided answer) = decide ft c t e answer
  verdict t e (not_an_ack class) = ok (
    settle_because Outcome.dead_lettered
        ("the handler returned " ∷ class ∷ " instead of an Ack" ∷ []),
    none,
  )

  unfoldable pub announce : Settlement → Exec Unit
  announce s = do emit (consume_duration s.outcome); emit (announced s)

  -- What is decided is announced, then carried out.
  unfoldable pub conclude : Delivery → Envelope → Settlement × Option Wait → Exec Unit
  conclude d e (s, wait) = do announce s; carry_out ft c d e s wait

  -- From the handler's answer to the settlement.
  unfoldable pub finish : Delivery → Envelope → Answer → Exec Unit
  finish d e answer w = (lift (verdict w.trace e answer) >>= conclude d e) w

  -- The chain of interceptors around the handler, then the settlement with the envelope that they
  -- left.
  unfoldable pub run_chain : Delivery → Envelope → P → Exec Unit
  run_chain d e payload w =
      let (answer, context) =
        chain (c.interceptors w.trace) (run_handler w.trace) (context_of d e payload) in
      finish d context.envelope (or_retry answer) w

  -- A body that the codec could not read.
  unfoldable pub park_undecodable : Delivery → Envelope → Failure → Exec Unit
  park_undecodable d e failure = do
    emit (consume_total Outcome.parked)
    park ft c d e (concat ("could not be decoded: " ∷ describe (some failure) ∷ []))

  unfoldable pub handle_decoded : Delivery → Envelope → Result Failure P → Exec Unit
  handle_decoded d e (err failure) = park_undecodable d e failure
  handle_decoded d e (ok payload) = run_chain d e payload

  -- `_handle_one`, by whether the consumer has halted.
  unfoldable pub handle_unless : Bool → Delivery → Envelope → Exec Unit
  handle_unless true d e w = emit (nack true) w
  handle_unless false d e w = handle_decoded d e (c.decode w.trace d.body d.content_type) w

  -- `_handle_one`
  unfoldable pub handle_one : Delivery → Envelope → Exec Unit
  handle_one d e w = handle_unless w.halted d e w

  -- `_in_flight`, and the gauge of it.
  unfoldable pub set_in_flight : ℕ → Exec Unit
  set_in_flight n w = (ok tt, record w { trace = in_flight_gauge n ∷ w.trace; in_flight = n })

  -- `try: … finally: …`
  unfoldable pub and_finally : Exec Unit → (World → ℕ) → Exec Unit
  and_finally body left w = let (r, w') = body w in (r, (set_in_flight (left w') w').1)

  -- `_handle`, once the envelope is read.
  unfoldable pub handle_envelope : Delivery → Envelope → Exec Unit
  handle_envelope d e w =
      (do
        emit (consume_attempts e.attempt)
        set_in_flight (w.in_flight + 1)
        and_finally (handle_one d e) (λ w'. w'.in_flight - 1))
        w

  -- `Envelope.from_headers(delivery.headers, …)`
  unfoldable pub envelope_of : Delivery → World → Result Failure Envelope
  envelope_of d w =
      or_value_error (
        from_headers c.py (c.fresh_id w.trace) (c.now w.trace) d.headers d.routing_key d.message_id)

  -- `_handle`
  unfoldable pub handle : Delivery → Exec Unit
  handle d w = (lift (envelope_of d w) >>= handle_envelope d) w

  -- `_work_loop`, over the deliveries that a worker takes before it is told to stop: what escapes
  -- from one is logged, and the next is taken.
  unfoldable pub work_loop : List Delivery → World → World
  work_loop [] w = w
  work_loop (d ∷ ds) w = work_loop ds (handle d w).1

  -- `close`: the deliveries that no worker has started are returned to the broker.
  unfoldable pub return_pending : List Delivery → World → World
  return_pending [] w = w
  return_pending (d ∷ ds) w = return_pending ds (emit (nack true) w).1
