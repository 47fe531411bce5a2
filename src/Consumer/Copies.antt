-- ===== src/Consumer/Copies.antt =====
-- connection.py: what the copy of a retried message says when it is delivered.
use acemq_python_amqp.Prelude.{
  String, Bool, true, ◌≡◌, ◌≢◌, ◌∙◌, refl, false, none, some, ok, arith, eq_iff, List, [], ◌∷◌,
  ◌++◌,
}
use acemq_python_amqp.Prelude.Int.{pos, ◌+ℤ◌, +ℤ_parts, parts_cases}
use acemq_python_amqp.Dict.{get}
use acemq_python_amqp.Headers.{is_reserved}
use acemq_python_amqp.Envelope.{
  Instant, Envelope, IsValid, any_reserved, filled, post_init, from_headers,
}
use acemq_python_amqp.Envelope.RoundTrip.{filled-IsValid, from_headers-to_headers, from_headers-key}
use acemq_python_amqp.Retry.{FloatTime, Duration}
use acemq_python_amqp.Naming.{retry_queue}
use acemq_python_amqp.Consumer.Effects.{
  Setup, Delivery, Outbound, World, Effect, ack, nack, published, retried_total, rung_missing,
  PublishAnswer, routed, unrouted, refused, broke, consumer, broker, requeued, continue,
}
use acemq_python_amqp.Consumer.Settle.{
  next_attempt, copy_of, republish, hop_of, after_retry, after_rung, retry_again, retry_in_broker,
}

-- The envelope of a message's next attempt, as a consumer reads it.
pub record OnceMore (e e' : Envelope) : Type 0 where
  pub same_id : e'.id ≡ e.id
  pub one_more : e'.attempt ≡ e.attempt +ℤ pos 1
  pub same_correlation : e'.correlation_id ≡ e.correlation_id
  pub same_route : e'.route ≡ e.route
  pub same_headers : (k : String) → get k e'.headers ≡ get k e.headers

abbrev pub raised_attempt : Envelope → Envelope
raised_attempt e = record e { attempt = e.attempt +ℤ pos 1 }

next_attempt-eq-filled :
    (e : Envelope) (w : World)
    → any_reserved e.headers ≡ false
    → next_attempt e w ≡ (ok (filled (raised_attempt e)), w)
unfolding next_attempt post_init
next_attempt-eq-filled e w fine = rw fine

raised_lem :
    (e : Envelope)
    → IsValid e
    → e.id ≢ ""
    → ((filled (raised_attempt e)).attempt ≡ e.attempt +ℤ pos 1)
      × ((filled (raised_attempt e)).correlation_id ≡ e.correlation_id)
unfolding filled
raised_lem e v named =
    let a = v.attempt_from_one in
    let p = +ℤ_parts e.attempt (pos 1) in
    let c = parts_cases (e.attempt +ℤ pos 1) in
    let correlated = v.correlated named in
    (ground arith, ground (arith, eq_iff e.correlation_id ""))

abbrev is_published : Effect → Bool
is_published (published _ _ _) = true
is_published _ = false

-- Effects of which none is a publish.
abbrev pub NonePublished : List Effect → Type 0
NonePublished [] = Unit {0}
NonePublished (e ∷ t) = (is_published e ≡ false) × NonePublished t

module _ {P : Type 0} (ft : FloatTime) (c : Setup ft P) where
  -- A trace with one more publish, to a queue, and what the broker answered.
  abbrev pub SentTo : String → Outbound → List Effect → List Effect → Type 0
  SentTo queue out before t =
      (more : List Effect) × NonePublished more
      × (t ≡ more ++ (published queue out (c.publish before queue out) ∷ before))

  rest_again :
      (answer : PublishAnswer) (w : World)
      → (more : List Effect) × NonePublished more
        × ((continue (hop_of answer) (after_retry ft c) w).1.trace ≡ more ++ w.trace)
  unfolding hop_of after_retry
  rest_again routed w = (ack ∷ retried_total consumer ∷ [], (refl, (refl, tt)), refl)
  rest_again unrouted w = (nack true ∷ retried_total requeued ∷ [], (refl, (refl, tt)), refl)
  rest_again (refused text) w = (nack true ∷ retried_total requeued ∷ [], (refl, (refl, tt)), refl)
  rest_again (broke failure) w = ([], tt, refl)

  rest_rung :
      (rung : String) (answer : PublishAnswer) (w : World)
      → (more : List Effect) × NonePublished more
        × ((continue (hop_of answer) (after_rung ft c rung) w).1.trace ≡ more ++ w.trace)
  unfolding hop_of after_rung
  rest_rung rung routed w = (ack ∷ retried_total broker ∷ [], (refl, (refl, tt)), refl)
  rest_rung rung unrouted w = (rung_missing rung ∷ [], (refl, tt), refl)
  rest_rung rung (refused text) w =
      (nack true ∷ retried_total requeued ∷ [], (refl, (refl, tt)), refl)
  rest_rung rung (broke failure) w = ([], tt, refl)

  module _ (d : Delivery) (e : Envelope) (w : World) (fine : any_reserved e.headers ≡ false) where
    abbrev next_copy : Outbound
    next_copy = copy_of ft c d (filled (raised_attempt e))

    abbrev after_copy : String → World
    after_copy queue = record w {
      trace = published queue next_copy (c.publish w.trace queue next_copy) ∷ w.trace;
    }

    retry_again-SentTo : SentTo c.queue next_copy w.trace (retry_again ft c d e w).1.trace
    unfolding retry_again republish
    retry_again-SentTo =
        rw (next_attempt-eq-filled e w fine)
          (rest_again (c.publish w.trace c.queue next_copy) (after_copy c.queue))

    retry_in_broker-SentTo :
        (delay : Duration)
        → let rung = retry_queue c.py c.queue delay in
          SentTo rung next_copy w.trace (retry_in_broker ft c d e delay w).1.trace
    unfolding retry_in_broker republish
    retry_in_broker-SentTo delay =
        let rung = retry_queue c.py c.queue delay in
        rw (next_attempt-eq-filled e w fine)
          (rest_rung rung (c.publish w.trace rung next_copy) (after_copy rung))

-- A retry publishes one copy, to the consumer's own queue or, on a rung, to the queue of that delay:
-- for a valid envelope with an id, whose application headers and extensions are apart and whose
-- first-seen instant can be read back, it is the same copy, with the body of the delivery; and the
-- consumer that gets it, under its queue's name as routing key, reads the same id, correlation, route
-- and application headers, and an attempt that is one higher.
pub next_attempt_read :
    {P : Type 0} (ft : FloatTime) (c : Setup ft P) (d : Delivery) (e : Envelope) (w : World)
    (delay : Duration) (fresh : String) (now seen : Instant)
    → IsValid e
    → any_reserved e.headers ≡ false
    → e.id ≢ ""
    → ((k : String) → is_reserved k ≡ false → get k e.extensions ≡ none)
    → c.py.from_millis (c.py.millis e.first_seen) ≡ some seen
    → (out : Outbound) × (out.body ≡ d.body)
      × SentTo ft c c.queue out w.trace (retry_again ft c d e w).1.trace
      × SentTo ft c
          (retry_queue c.py c.queue delay)
          out
          w.trace
          (retry_in_broker ft c d e delay w).1.trace
      × (e' : Envelope) × (from_headers c.py fresh now out.headers c.queue out.message_id ≡ ok e')
      × OnceMore e e'
unfolding copy_of filled
next_attempt_read ft c d e w delay fresh now seen v fine named extended back =
    let next = filled (raised_attempt e) in
    let (attempt, correlation) = raised_lem e v named in
    let valid : IsValid next = filled-IsValid (raised_attempt e) v.unique fine in
    let (e', read, carried) =
      from_headers-to_headers c.py next fresh now seen d.routing_key next.id valid named extended
        back in
    (
      copy_of ft c d next,
      refl,
      retry_again-SentTo ft c d e w fine,
      retry_in_broker-SentTo ft c d e w fine delay,
      e',
      from_headers-key c.py next fresh d.routing_key c.queue next.id valid now ∙ read,
      record {
        same_id = carried.id;
        one_more = carried.attempt ∙ attempt;
        same_correlation = carried.correlation_id ∙ correlation;
        same_route = carried.route;
        same_headers = carried.headers;
      },
    )
