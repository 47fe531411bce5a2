-- ===== src/Patterns/RoutingSlip/Publishing.antt =====
-- connection.py, for patterns/routingslip.py: a publish that nothing hinders goes out to the publisher's
-- exchange, under its routing key.
use acemq_python_amqp.Prelude.{
  ◌≡◌, refl, true, false, some, none, List, [], ◌∷◌, ◌++◌, arith, ok, str_eq, Bool-cases, inl, inr,
}
use acemq_python_amqp.Interceptors.{chain, compose, link}
use acemq_python_amqp.Consumer.Effects.{Bytes, Outbound}
use acemq_python_amqp.Publisher.Outstanding.{PublishResult, Request, publish_raw}
use acemq_python_amqp.Publisher.Sending.{
  PublishEvent, handed_over, duration, total, confirmed, PublishContext, outbound, Publisher, send,
  send_envelope, send_encoded, hand_over, report, record_outcome, from_here,
}
use acemq_python_amqp.Envelope.{Envelope, any_reserved, filled, post_init}

-- A publisher whose publishes are confirmed and routed, with no interceptors and a codec that does not
-- raise.
pub record Unhindered {P : Type 0} (p : Publisher P) : Type 0 where
  pub plain : (t : List PublishEvent) → p.interceptors t ≡ []
  pub encodes : (t : List PublishEvent) (x : P) → (body : Bytes) × (p.encode t x ≡ ok body)
  pub arrives :
      (t : List PublishEvent) (r : Request)
      → (result : PublishResult) × (publish_raw p.words p.max_outstanding p.confirm_timeout r
            (p.weather t)
          ≡ ok result)
        × (result.routed ≡ true)

module _ {P : Type 0} (p : Publisher P) (free : Unhindered p) where
  from_here-ok :
      (e : Envelope) → any_reserved e.headers ≡ false → (e' : Envelope) × (from_here p e ≡ ok e')
  unfolding from_here post_init
  from_here-ok e clean = elim (Bool-cases (str_eq e.origin "")) [
    | inl nowhere ↦ (filled (record e { origin = p.origin }), rw nowhere (rw clean refl))
    | inr somewhere ↦ (e, rw somewhere refl)
  ]

  hand_over-out :
      (c : PublishContext P) (t : List PublishEvent)
      → (out : Outbound) × (result : PublishResult) × (hand_over p c t (p.encode t c.payload)
          ≡ (ok result, handed_over c.exchange c.routing_key out ∷ t))
        × (result.routed ≡ true)
  unfolding hand_over
  hand_over-out c t =
      let (body, encoded) = free.encodes t c.payload in
      let call : Request = record {
        message_id = c.envelope.id;
        exchange = c.exchange;
        routing_key = c.routing_key;
      } in
      let (result, came, routed) = free.arrives t call in
      (outbound p c body, result, rw encoded (rw came refl), routed)

  report-ok :
      (c : PublishContext P) (result : PublishResult) (t : List PublishEvent)
      → result.routed ≡ true
      → report p c (ok result) t ≡ (ok result, record_outcome p c confirmed t)
  unfolding report
  report-ok c result t routed = ground arith

  send_encoded-out :
      (c : PublishContext P) (t : List PublishEvent)
      → (out : Outbound) × (result : PublishResult) × (send_encoded p (c, t) ≡ (
        ok result,
        (c, record_outcome p c confirmed (handed_over c.exchange c.routing_key out ∷ t)),
      ))
  unfolding send_encoded
  send_encoded-out c t =
      let (out, result, handed, routed) = hand_over-out c t in
      (
        out,
        result,
        rw handed
            (rw (report-ok c result (handed_over c.exchange c.routing_key out ∷ t) routed) refl),
      )

  -- Such a publisher hands the message over to its exchange, under its routing key.
  pub send_out :
      (payload : P) (e : Envelope) (t : List PublishEvent)
      → any_reserved e.headers ≡ false
      → (out : Outbound) × (more : List PublishEvent) × (result : PublishResult) × (send p payload
            (some e)
            none
            ""
            t
          ≡ (ok result, more ++ (handed_over p.exchange p.routing_key out ∷ t)))
  unfolding send send_envelope record_outcome chain compose link
  send_out payload e t clean =
      let (e', made) = from_here-ok e clean in
      let c : PublishContext P = record {
        exchange = p.exchange;
        routing_key = p.routing_key;
        envelope = e';
        payload = payload;
        persistent = p.persistent;
        mandatory = p.mandatory;
        reply_to = "";
      } in
      let (out, result, sent) = send_encoded-out c t in
      (
        out,
        total p.exchange p.routing_key confirmed ∷ duration p.exchange p.routing_key confirmed ∷ [],
        result,
        rw made (rw (free.plain t) (rw sent refl)),
      )
