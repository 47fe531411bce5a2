-- ===== src/Patterns/RequestReply/Answered.antt =====
-- patterns/requestreply.py: a request is acknowledged only once its answer went out, and counted so.
use acemq_python_amqp.Prelude.{
  ◌+◌, ◌≡◌, ◌⊎◌, inl, inr, refl, arith, Bool-cases, Option, some, none, List, Result, ok, err,
  str_eq, eq_iff,
}
use acemq_python_amqp.Prelude.Int.{ℤ, pos, ◌+ℤ◌, ◌-ℤ◌, +ℤ_parts, -ℤ_parts, eq_of_parts}
use acemq_python_amqp.Ack.{Ack, Action, Failure}
use acemq_python_amqp.Ack.Answers as answers
use acemq_python_amqp.Consumer.Effects.{Message}
use acemq_python_amqp.Publisher.Outstanding.{
  PublishResult, PublishFault, paused, declined, raised, cancelled,
}
use acemq_python_amqp.Publisher.Sending.{PublishEvent}
use acemq_python_amqp.Patterns.RoutingSlip.Travel.{failure_of}
use acemq_python_amqp.Patterns.RequestReply.Responder.{
  World, Service, reply, reply_address, nowhere, after_error, after_reply, after_respond, handle_at,
  handle,
}

taken_back : (n : ℤ) → (n +ℤ pos 1) -ℤ pos 1 ≡ n
taken_back n =
    eq_of_parts ((n +ℤ pos 1) -ℤ pos 1) n
      (omega (arith, +ℤ_parts n (pos 1), -ℤ_parts (n +ℤ pos 1) (pos 1)))

module _ {W P R : Type 0} (s : Service W P R) (request : Message P) where
  -- A reply went out: an answer, or an error.
  abbrev pub Replied : Option R → Option Failure → World W → World W → Type 0
  Replied answer failure w w' =
      (result : PublishResult) × (reply s (reply_address s request) request answer failure w.sent
        ≡ (ok result, w'.sent))

  abbrev pub SameCounts : World W → World W → Type 0
  SameCounts w w' = (w'.answered ≡ w.answered) × (w'.unanswerable ≡ w.unanswerable)

  abbrev pub Settled : World W → Result PublishFault Ack → World W → Type 0
  Settled w (err fault) w' = (fault ≡ cancelled) × (w'.unanswerable ≡ w.unanswerable)
  Settled w (ok a) w' =
      ((a ≡ answers.accept)
        × (w'.answered ≡ w.answered +ℤ pos 1)
        × (w'.unanswerable ≡ w.unanswerable)
        × ((answer : R) × Replied (some answer) none w w'))
      ⊎ (((a.action ≡ Action.retry) × SameCounts w w')
          ⊎ (((failure : Failure) × (a ≡ answers.reject (some failure))
                × SameCounts w w'
                × Replied none (some failure) w w')
              ⊎ ((a ≡ answers.reject (some (nowhere s request)))
                  × (reply_address s request ≡ "")
                  × (w'.sent ≡ w.sent)
                  × (w'.answered ≡ w.answered)
                  × (w'.unanswerable ≡ w.unanswerable + 1))))

  module _ (w : World W) where
    after_error-Settled :
        (failure : Failure) (result : Result PublishFault PublishResult) (sent : List PublishEvent)
        → reply s (reply_address s request) request none (some failure) w.sent ≡ (result, sent)
        → let left = after_error s failure result (record w { sent = sent }) in
          Settled w left.0 left.1
    unfolding after_error answers.retry
    after_error-Settled failure (ok r) sent e =
        inr (inr (inl (failure, refl, (refl, refl), (r, e))))
    after_error-Settled failure (err cancelled) sent e = (refl, refl)
    after_error-Settled failure (err (paused x)) sent e = inr (inl (refl, (refl, refl)))
    after_error-Settled failure (err (declined x)) sent e = inr (inl (refl, (refl, refl)))
    after_error-Settled failure (err (raised x)) sent e = inr (inl (refl, (refl, refl)))

    after_reply-Settled :
        (answer : R) (result : Result PublishFault PublishResult) (sent : List PublishEvent)
        → reply s (reply_address s request) request (some answer) none w.sent ≡ (result, sent)
        → let left =
            after_reply s result (record w { sent = sent; answered = w.answered +ℤ pos 1 }) in
          Settled w left.0 left.1
    unfolding after_reply answers.retry
    after_reply-Settled answer (ok r) sent e = inl (refl, refl, refl, (answer, (r, e)))
    after_reply-Settled answer (err cancelled) sent e = (refl, refl)
    after_reply-Settled answer (err (paused x)) sent e =
        inr (inl (refl, (taken_back w.answered, refl)))
    after_reply-Settled answer (err (declined x)) sent e =
        inr (inl (refl, (taken_back w.answered, refl)))
    after_reply-Settled answer (err (raised x)) sent e =
        inr (inl (refl, (taken_back w.answered, refl)))

    failed-Settled :
        (fault : PublishFault)
        → let failure = failure_of s.publisher.words fault in
          let sent = reply s (reply_address s request) request none (some failure) w.sent in
          let left = after_error s failure sent.0 (record w { sent = sent.1 }) in
          Settled w left.0 left.1
    failed-Settled fault =
        let failure = failure_of s.publisher.words fault in
        let sent = reply s (reply_address s request) request none (some failure) w.sent in
        after_error-Settled failure sent.0 sent.1 refl

    after_respond-Settled :
        (result : Result PublishFault R)
        → let left = after_respond s (reply_address s request) request result w in
          Settled w left.0 left.1
    unfolding after_respond
    after_respond-Settled (err cancelled) = (refl, refl)
    after_respond-Settled (err (paused e)) = failed-Settled (paused e)
    after_respond-Settled (err (declined e)) = failed-Settled (declined e)
    after_respond-Settled (err (raised e)) = failed-Settled (raised e)
    after_respond-Settled (ok answer) =
        let sent = reply s (reply_address s request) request (some answer) none w.sent in
        after_reply-Settled answer sent.0 sent.1 refl

  -- The handler of `serve` settles each request in one of four ways, and raises only the cancellation
  -- of its task: it accepts it after an answer went out, having counted one more in `answered`; it
  -- asks for it again and the counts are as they were; it rejects it with the failure that it sent as
  -- an error reply, and the counts are as they were; or, having no address to reply to, it rejects
  -- it having sent nothing and counted one more in `unanswerable`.
  pub handle-Settled : (w : World W) → let left = handle s request w in Settled w left.0 left.1
  unfolding handle handle_at
  handle-Settled w =
      let result = s.respond request w.own in
      elim (Bool-cases (str_eq (reply_address s request) "")) [
        | inl e ↦
            rw e
              (inr (inr (inr (refl, (eq_iff (reply_address s request) "").0 e, refl, refl, refl))))
        | inr e ↦ rw e (after_respond-Settled (record w { own = result.1 }) result.0)
      ]
