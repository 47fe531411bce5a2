-- ===== src/Consumer/Settle.antt =====
-- connection.py: `_carry_out` and what it calls, from a republished copy to the settlement of the
-- delivery.
use acemq_python_amqp.Prelude.{
  String, Bool, true, false, Option, none, some, ◌∷◌, Result, ok, err, if◌then◌else◌,
}
use acemq_python_amqp.Prelude.Int.{pos, ltb_ℤ, ◌+ℤ◌}
use acemq_python_amqp.Envelope.{Envelope, EnvelopeError, post_init, to_headers}
use acemq_python_amqp.Retry.{Duration, zero_duration, FloatTime, Wait}
use acemq_python_amqp.Ack.{Outcome, Settlement, Failure, ordinary}
use acemq_python_amqp.Naming.{dead_letter_queue, parked_queue, retry_queue}
use acemq_python_amqp.Consumer.Effects.{
  Setup, ack, nack, published, slept, halting, consume_total, retried_total, rung_missing,
  dead_lettered_total, set_aside_failed, Outbound, Delivery, PublishAnswer, routed, unrouted,
  refused, broke, consumer, broker, requeued, Exec, pure, lift, emit, ◌>>=◌, ◌>>◌,
}

-- `x or ""`
abbrev pub or_empty : Option String → String
or_empty none = ""
or_empty (some s) = s

-- What an envelope raises, as the exception that leaves the consumer.
abbrev pub value_error : Failure
value_error = record { kind = ordinary; name = "ValueError"; text = "" }

abbrev pub or_value_error : Result EnvelopeError Envelope → Result Failure Envelope
or_value_error (ok e) = ok e
or_value_error (err x) = err value_error

-- `envelope.with_(attempt=envelope.attempt + 1)`: `replace` runs `__post_init__` again.
unfoldable pub next_attempt : Envelope → Exec Envelope
next_attempt e = lift (or_value_error (post_init (record e { attempt = e.attempt +ℤ pos 1 })))

-- `envelope.with_(error=reason)`
unfoldable pub with_error : Envelope → String → Exec Envelope
with_error e reason = lift (or_value_error (post_init (record e { error = reason })))

-- SET_ASIDE_REFUSED_DELAY
abbrev pub set_aside_refused_delay : Duration
set_aside_refused_delay = pos 1000000

-- `asyncio.sleep`, called for a positive delay only.
unfoldable pub sleep_if_positive : Duration → Exec Unit
sleep_if_positive delay = if ltb_ℤ zero_duration delay then emit (slept delay) else pure tt

-- What `_republish` says: the copy arrived, there was no queue, or the broker refused it, which is
-- the `_HopRefusedError` that every caller catches.
pub data Hop : Type 0 where
  arrived missing turned_away : Hop

unfoldable pub hop_of : PublishAnswer → Result Failure Hop
hop_of routed = ok arrived
hop_of unrouted = ok missing
hop_of (refused text) = ok turned_away
hop_of (broke failure) = err failure

-- `_halt`: the close that it starts is a task of its own.
unfoldable pub halt : Exec Unit
halt w = (ok tt, record w { trace = halting ∷ w.trace; halted = true })

module _ {P : Type 0} (ft : FloatTime) (c : Setup ft P) where
  -- The copy that `_republish` sends.
  unfoldable pub copy_of : Delivery → Envelope → Outbound
  copy_of d e = record {
    body = d.body;
    content_type = or_empty d.content_type;
    message_id = e.id;
    reply_to = "";
    headers = to_headers c.py e d.routing_key;
    persistent = true;
    mandatory = true;
  }

  unfoldable pub republish : Delivery → String → Envelope → Exec Hop
  republish d queue e w =
      let out = copy_of d e in
      let answer = c.publish w.trace queue out in
      (hop_of answer, record w { trace = published queue out answer ∷ w.trace })

  -- What `_retry_in_broker` does once the rung has answered.
  unfoldable pub after_rung : String → Hop → Exec Bool
  after_rung rung turned_away = do emit (retried_total requeued); emit (nack true); pure true
  after_rung rung missing = do emit (rung_missing rung); pure false
  after_rung rung arrived = do emit (retried_total broker); emit ack; pure true

  unfoldable pub retry_in_broker : Delivery → Envelope → Duration → Exec Bool
  retry_in_broker d e delay = do
    next ← next_attempt e
    hop ← republish d (retry_queue c.py c.queue delay) next
    after_rung (retry_queue c.py c.queue delay) hop

  unfoldable pub after_retry : Hop → Exec Unit
  after_retry arrived = do emit (retried_total consumer); emit ack
  after_retry _ = do emit (retried_total requeued); emit (nack true)

  unfoldable pub retry_again : Delivery → Envelope → Exec Unit
  retry_again d e = do next ← next_attempt e; hop ← republish d c.queue next; after_retry hop

  unfoldable pub after_put_back : Hop → Exec Unit
  after_put_back arrived = emit ack
  after_put_back _ = emit (nack true)

  unfoldable pub put_back : Delivery → Envelope → Duration → Exec Unit
  put_back d e delay = do sleep_if_positive delay; hop ← republish d c.queue e; after_put_back hop

  unfoldable pub after_set_aside : String → Hop → Exec Unit
  after_set_aside target arrived = emit ack
  after_set_aside target _ = do
    emit (set_aside_failed target)
    emit (slept set_aside_refused_delay)
    emit (nack true)

  unfoldable pub set_aside : Delivery → Envelope → String → String → Exec Unit
  set_aside d e target reason = do
    failed ← with_error e reason
    hop ← republish d target failed
    after_set_aside target hop

  unfoldable pub park : Delivery → Envelope → String → Exec Unit
  park d e reason = do
    emit (dead_lettered_total Outcome.parked)
    set_aside d e (parked_queue c.queue) reason

  unfoldable pub dead_letter : Delivery → Envelope → String → Exec Unit
  dead_letter d e reason = do
    emit (dead_lettered_total Outcome.dead_lettered)
    set_aside d e (dead_letter_queue c.queue) reason

  -- The wait in the consumer, and the copy after it.
  unfoldable pub wait_here : Delivery → Envelope → Duration → Bool → Exec Unit
  wait_here d e delay true = pure tt
  wait_here d e delay false = do sleep_if_positive delay; retry_again d e

  -- A retry: on a rung if the wait belongs there and the rung took it, else here.
  unfoldable pub go_round : Delivery → Envelope → Wait → Exec Unit
  go_round d e wait = do
    taken ← if wait.in_broker then retry_in_broker d e wait.delay else pure false
    wait_here d e wait.delay taken

  -- What `_carry_out` does with a wait.
  unfoldable pub waited : Outcome → Delivery → Envelope → Wait → Exec Unit
  waited Outcome.in_progress d e wait = put_back d e wait.delay
  waited _ d e wait = go_round d e wait

  -- The cases of `_carry_out` that ask for the wait.
  unfoldable pub carry_wait : Delivery → Envelope → Settlement → Option Wait → Exec Unit
  carry_wait d e s none = dead_letter d e (or_empty s.reason)
  carry_wait d e s (some wait) = waited s.outcome d e wait

  unfoldable pub carry : Outcome → Delivery → Envelope → Settlement → Option Wait → Exec Unit
  carry Outcome.acked d e s wait = emit ack
  carry Outcome.stopped d e s wait = do halt; emit (nack true)
  carry Outcome.parked d e s wait = park d e (or_empty s.reason)
  carry _ d e s wait = carry_wait d e s wait

  -- `_carry_out`
  unfoldable pub carry_out : Delivery → Envelope → Settlement → Option Wait → Exec Unit
  carry_out d e s wait = do emit (consume_total s.outcome); carry s.outcome d e s wait
