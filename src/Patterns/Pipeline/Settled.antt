-- ===== src/Patterns/Pipeline/Settled.antt =====
-- patterns/pipeline.py: a step of a pipeline accepts its message only once the next one is out.
use acemq_python_amqp.Prelude.{
  ◌≡◌, ap, sym, ◌⊎◌, inl, inr, refl, Bool-cases, String, some, none, List, Result, ok, err,
}
use mathlib.Core.Path.{subst}
use acemq_python_amqp.Envelope.{
  reserved_names, Envelope, EnvelopeError, Instant, or_text, post_init, filled, any_reserved,
}
use acemq_python_amqp.Ack.{Ack, Action}
use acemq_python_amqp.Ack.Answers as answers
use acemq_python_amqp.Consumer.Effects.{Message}
use acemq_python_amqp.Publisher.Outstanding.{
  PublishResult, PublishFault, paused, declined, raised, cancelled,
}
use acemq_python_amqp.Publisher.Sending.{PublishEvent, Publisher, send, new_envelope}
use acemq_python_amqp.Patterns.Pipeline.{
  Produced, nothing, onward, World, onward_envelope, send_onward, after_send, after_produced,
  onwards,
}

-- The envelope that goes on belongs to the run of the message.
pub record Follows (before after : Envelope) : Type 0 where
  pub correlated : after.correlation_id ≡ or_text before.correlation_id after.id
  pub caused : after.causation_id ≡ before.id
  pub first_seen : after.first_seen ≡ before.first_seen
  pub headers : after.headers ≡ before.headers
  pub extensions : after.extensions ≡ before.extensions

-- What `__post_init__` makes of an envelope.
post_init-filled : (e₀ e : Envelope) → post_init e₀ ≡ ok e → e ≡ filled e₀
unfolding post_init
post_init-filled e₀ e made = elim (Bool-cases (any_reserved e₀.headers)) [
  | inl clash ↦ let refused : post_init e₀ ≡ err reserved_names = rw clash refl in absurd cc
  | inr free ↦ let fine : post_init e₀ ≡ ok (filled e₀) = rw free refl in cc
]

module _ {W P R : Type 0} (publisher : Publisher R)
    (step : Message P → W → Result PublishFault (Produced R) × W) where
  onward_envelope-Follows :
      (id : String) (now : Instant) (e after : Envelope)
      → onward_envelope publisher step id now e ≡ ok after
      → Follows e after
  unfolding onward_envelope filled new_envelope
  onward_envelope-Follows id now e after made =
      subst (Follows e) (sym (post_init-filled _ after made)) (record {
        correlated = refl;
        caused = refl;
        first_seen = refl;
        headers = refl;
        extensions = refl;
      })

  module _ (m : Message P) (w : World W) where
    -- The next message went out, with an envelope of the same run.
    abbrev pub WentOut : R → List PublishEvent → Type 0
    WentOut payload sent =
        (e : Envelope) × Follows m.envelope e
        × (result : PublishResult) × (send publisher payload (some e) none "" w.sent
            ≡ (ok result, sent))

    -- The publish of the next message raised.
    abbrev pub Missed : R → Type 0
    Missed payload =
        let id = publisher.fresh_id w.sent in
        let e = onward_envelope publisher step id (publisher.now w.sent) m.envelope in
        (fault : PublishFault) × ((send_onward publisher step payload e w.sent).0 ≡ err fault)

    abbrev pub HasProduced : Produced R → Type 0
    HasProduced produced = (step m w.own).0 ≡ ok produced

    abbrev pub Settled : Result PublishFault Ack → World W → Type 0
    Settled (err fault) w' =
        ((step m w.own).0 ≡ err fault) × (w'.sent ≡ w.sent)
        ⊎ (payload : R) × HasProduced (onward payload) × (fault ≡ cancelled)
    Settled (ok a) w' =
        ((a ≡ answers.accept) × HasProduced nothing × (w'.sent ≡ w.sent))
        ⊎ (((payload : R) × (a ≡ answers.accept)
              × HasProduced (onward payload)
              × WentOut payload w'.sent)
            ⊎ ((payload : R) × (a.action ≡ Action.retry)
                × HasProduced (onward payload)
                × Missed payload))

    after_send-Settled :
        (own : W) (payload : R) (r : Result EnvelopeError Envelope)
        → ((e : Envelope) → r ≡ ok e → Follows m.envelope e)
        → HasProduced (onward payload)
        → (out : Result PublishFault PublishResult) (sent : List PublishEvent)
        → send_onward publisher step payload r w.sent ≡ (out, sent)
        → ((fault : PublishFault) → out ≡ err fault → Missed payload)
        → let left = after_send publisher step m out (record w { own = own; sent = sent }) in
          Settled left.0 left.1
    unfolding after_send send_onward answers.retry
    after_send-Settled own payload (ok e) follows made (ok result) sent sends missed =
        inr (inl (payload, refl, made, (e, follows e refl, result, sends)))
    after_send-Settled own payload (err x) follows made (ok result) sent sends missed =
        absurd (let refused = ap (λ p. p.0) sends in cc)
    after_send-Settled own payload r follows made (err cancelled) sent sends missed =
        inr (payload, made, refl)
    after_send-Settled own payload r follows made (err (paused e)) sent sends missed =
        inr (inr (payload, refl, made, missed (paused e) refl))
    after_send-Settled own payload r follows made (err (declined e)) sent sends missed =
        inr (inr (payload, refl, made, missed (declined e) refl))
    after_send-Settled own payload r follows made (err (raised f)) sent sends missed =
        inr (inr (payload, refl, made, missed (raised f) refl))

    after_produced-Settled :
        (own : W) (produced : Result PublishFault (Produced R))
        → (step m w.own).0 ≡ produced
        → let left = after_produced publisher step m produced (record w { own = own }) in
          Settled left.0 left.1
    unfolding after_produced
    after_produced-Settled own (err fault) made = inl (made, refl)
    after_produced-Settled own (ok nothing) made = inl (refl, made, refl)
    after_produced-Settled own (ok (onward payload)) made =
        let id = publisher.fresh_id w.sent in
        let now = publisher.now w.sent in
        let e = onward_envelope publisher step id now m.envelope in
        let out = send_onward publisher step payload e w.sent in
        after_send-Settled own payload e (onward_envelope-Follows id now m.envelope) made out.0
          out.1 refl (λ fault missed. (fault, missed))

    -- A step of a pipeline accepts its message only where it produced nothing to send on, and then
    -- nothing was sent, or where what it produced went out in an envelope with the message's
    -- correlation, or the new identifier where that is empty, its identifier as the causation, and its
    -- first-seen, headers and extensions. It asks for the message again only where publishing what it
    -- produced raised, and raises only what the step raised, having sent nothing, or the
    -- cancellation of its task during the publish.
    pub onwards-Settled : let left = onwards publisher step m w in Settled left.0 left.1
    unfolding onwards
    onwards-Settled =
        let produced = step m w.own in after_produced-Settled produced.1 produced.0 refl
