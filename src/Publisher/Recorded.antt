-- ===== src/Publisher/Recorded.antt =====
-- connection.py: what `publish_raw` returns for, and what `_send` records of each publish.
use acemq_python_amqp.Prelude.{
  ℕ, suc, ◌≡◌, ◌≢◌, ◌↔◌, ◌⊎◌, inl, inr, refl, Bool, true, false, not, ◌||◌, ◌&&◌, Bool-cases,
  Option, some, none, List, [], ◌∷◌, arith, String, Result, ok, err,
}
use acemq_python_amqp.Retry.{Duration}
use acemq_python_amqp.Consumer.Effects.{Bytes}
use acemq_python_amqp.Publisher.Outstanding.{
  PublishResult, PublishFault, paused, declined, raised, cancelled, Wording, Request, Weather,
  Permit, granted, none_free, interrupted, Reply, answered, silent, failed as breaks, look, acquire,
  after_look, after_permit, conclude_publish, publish_raw,
}
use acemq_python_amqp.Publisher.Sending.{
  PublishOutcome, confirmed, refused, failed, unroutable, PublishEvent, handed_over, duration,
  total, PublishContext, Publisher, hand_over, report, record_fault, record_outcome, send_encoded,
}

module _ (words : Wording) (most : ℕ) (timeout : Duration) (call : Request) where
  concluded_iff :
      (reply : Reply) (result : PublishResult)
      → (conclude_publish words most timeout call reply ≡ ok result)
        ↔ ((reply ≡ answered result) × ((result.confirmed || not result.routed) ≡ true))
  unfolding conclude_publish
  concluded_iff silent result = (λ h. absurd (cc), λ h. absurd (cc))
  concluded_iff (breaks fault) result = (λ h. absurd (cc), λ h. absurd (cc))
  concluded_iff (answered r) result = (λ h. ground arith, λ h. ground arith)

  looked_iff :
      (blocked : Option Bool) (reason : Option String) (permit : Permit) (reply : Reply)
      (result : PublishResult)
      → (after_look words most timeout call
            (look words most timeout call blocked reason)
            permit
            reply
          ≡ ok result)
        ↔ ((blocked ≢ some true)
            × (permit ≡ granted)
            × (conclude_publish words most timeout call reply ≡ ok result))
  unfolding after_look look after_permit acquire
  looked_iff (some true) reason permit reply result = (λ h. absurd (cc), λ h. absurd (h.0 refl))
  looked_iff (some false) reason granted reply result = (λ h. (λ e. cc, refl, h), λ h. h.2)
  looked_iff (some false) reason none_free reply result = (λ h. absurd (cc), λ h. absurd (cc))
  looked_iff (some false) reason interrupted reply result = (λ h. absurd (cc), λ h. absurd (cc))
  looked_iff none reason granted reply result = (λ h. (λ e. cc, refl, h), λ h. h.2)
  looked_iff none reason none_free reply result = (λ h. absurd (cc), λ h. absurd (cc))
  looked_iff none reason interrupted reply result = (λ h. absurd (cc), λ h. absurd (cc))

  -- `publish_raw` returns a result exactly when the connection was not known to be blocked, a permit
  -- came in time, the broker answered in time with that result, and the broker confirmed the message
  -- or could not route it. In every other case it raises.
  pub publish_raw-ok_iff :
      (w : Weather) (result : PublishResult)
      → (publish_raw words most timeout call w ≡ ok result) ↔ (
          (w.blocked ≢ some true)
          × (w.permit ≡ granted)
          × (w.reply ≡ answered result)
          × ((result.confirmed || not result.routed) ≡ true))
  unfolding publish_raw
  publish_raw-ok_iff w result =
      let looked = looked_iff w.blocked w.blocked_reason w.permit w.reply result in
      let concluded = concluded_iff w.reply result in
      (
        λ h.
            let (flowing, free, said) = looked.0 h in
            let (reply, kept) = concluded.0 said in (flowing, free, reply, kept),
        λ h. looked.1 (h.0, h.1, concluded.1 (h.2, h.3)),
      )

-- The outcomes counted and timed in a trace, and the messages handed to `publish_raw`.
pub counted : List PublishEvent → List PublishOutcome
counted [] = []
counted (total exchange key outcome ∷ t) = outcome ∷ counted t
counted (duration exchange key outcome ∷ t) = counted t
counted (handed_over exchange key message ∷ t) = counted t

pub timed : List PublishEvent → List PublishOutcome
timed [] = []
timed (total exchange key outcome ∷ t) = timed t
timed (duration exchange key outcome ∷ t) = outcome ∷ timed t
timed (handed_over exchange key message ∷ t) = timed t

pub handed : List PublishEvent → ℕ
handed [] = 0
handed (total exchange key outcome ∷ t) = handed t
handed (duration exchange key outcome ∷ t) = handed t
handed (handed_over exchange key message ∷ t) = suc (handed t)

-- One duration and one count more, both with one outcome.
abbrev pub Records : PublishOutcome → List PublishEvent → List PublishEvent → Type 0
Records outcome t t' = (counted t' ≡ outcome ∷ counted t) × (timed t' ≡ outcome ∷ timed t)

-- What is recorded of a publish, by what its caller hears.
abbrev pub IsRecorded :
    Bool → Result PublishFault PublishResult → List PublishEvent → List PublishEvent → Type 0
IsRecorded mandatory (ok result) t t' =
    Records confirmed t t'
    × (handed t' ≡ suc (handed t))
    × ((result.confirmed || not result.routed) ≡ true)
    × ((not mandatory || result.routed) ≡ true)
IsRecorded mandatory (err (paused e)) t t' = Records refused t t'
IsRecorded mandatory (err (raised e)) t t' = Records failed t t'
IsRecorded mandatory (err (declined e)) t t' =
    Records failed t t' ⊎ (Records unroutable t t' × (e.unroutable ≡ true) × (mandatory ≡ true))
IsRecorded mandatory (err cancelled) t t' = (counted t' ≡ counted t) × (timed t' ≡ timed t)

module _ {P : Type 0} (p : Publisher P) (c : PublishContext P) where
  fault-IsRecorded :
      (fault : PublishFault) (t u : List PublishEvent)
      → counted u ≡ counted t
      → timed u ≡ timed t
      → IsRecorded c.mandatory (err fault) t (record_fault p c fault u)
  unfolding record_fault record_outcome counted timed
  fault-IsRecorded (paused e) t u h k = ground arith
  fault-IsRecorded (raised e) t u h k = ground arith
  fault-IsRecorded (declined e) t u h k = inl (ground arith, ground arith)
  fault-IsRecorded cancelled t u h k = (h, k)

  report-IsRecorded :
      (answer : Result PublishFault PublishResult) (t u : List PublishEvent)
      → counted u ≡ counted t
      → timed u ≡ timed t
      → ((result : PublishResult)
          → answer ≡ ok result
          → (handed u ≡ suc (handed t)) × ((result.confirmed || not result.routed) ≡ true))
      → IsRecorded c.mandatory (report p c answer u).0 t (report p c answer u).1
  unfolding report record_outcome counted timed handed
  report-IsRecorded (err fault) t u h k good = fault-IsRecorded fault t u h k
  report-IsRecorded (ok result) t u h k good =
      let kept = good result refl in
      elim (Bool-cases (c.mandatory && not result.routed)) [
        | inl e ↦ rw e (inr ((ground arith, ground arith), refl, ground arith))
        | inr e ↦ rw e ((ground arith, ground arith), kept.0, kept.1, ground arith)
      ]

  hand_over-IsRecorded :
      (t : List PublishEvent) (encoded : Result PublishFault Bytes)
      → let handed_on = hand_over p c t encoded in
        let reported = report p c handed_on.0 handed_on.1 in
        IsRecorded c.mandatory reported.0 t reported.1
  unfolding hand_over counted timed handed
  hand_over-IsRecorded t (err fault) =
      report-IsRecorded (err fault) t t refl refl (λ result h. absurd (cc))
  hand_over-IsRecorded t (ok body) =
      let sent = hand_over p c t (ok body) in
      let call : Request = record {
        message_id = c.envelope.id;
        exchange = c.exchange;
        routing_key = c.routing_key;
      } in
      report-IsRecorded sent.0 t sent.1 refl refl λ result h.
        let returned =
          (publish_raw-ok_iff p.words p.max_outstanding p.confirm_timeout call (p.weather t)
              result).0
            h in
        (refl, returned.3)

  -- `_send` records every publish exactly once, a duration and a count with one outcome, unless its
  -- task is cancelled, when it records nothing: `confirmed` when it returns a result, whose message
  -- went to `publish_raw` once and was confirmed or unroutable, and reached a queue if that was
  -- mandatory; `refused` when it raises PublishingPausedError; `unroutable` only with an unroutable
  -- PublishError for a mandatory message; `failed` for all else.
  pub send_encoded-IsRecorded :
      (t : List PublishEvent)
      → let (result, left) = send_encoded p (c, t) in IsRecorded c.mandatory result t left.1
  unfolding send_encoded
  send_encoded-IsRecorded t = hand_over-IsRecorded t (p.encode t c.payload)
