-- ===== src/Patterns/RoutingSlip/Accounted.antt =====
-- patterns/routingslip.py: a message leaves a step for the next one, or its run ends, or it comes back.
use acemq_python_amqp.Prelude.{
  ◌≡◌, ◌⊎◌, inl, inr, refl, true, false, Bool, Option, some, none, List, [], ◌∷◌, ◌++◌, sym, Result,
  ok, err, if◌then◌else◌,
}
use mathlib.Core.Path.{subst}
use acemq_python_amqp.Envelope.{Envelope}
use acemq_python_amqp.Ack.{Ack, Action, Failure}
use acemq_python_amqp.Ack.Answers as answers
use acemq_python_amqp.Consumer.Effects.{Message}
use acemq_python_amqp.Publisher.Outstanding.{
  PublishResult, PublishFault, paused, declined, raised, cancelled,
}
use acemq_python_amqp.Publisher.Sending.{PublishEvent, send}
use acemq_python_amqp.Patterns.RoutingSlip.Slip.{
  SlipError, Step, RoutingSlip, next_of, next_step, advance, advance_by,
}
use acemq_python_amqp.Patterns.RoutingSlip.Reading.{slip_from}
use acemq_python_amqp.Patterns.RoutingSlip.Travel.{
  World, Run, completed, ended_early, Follower, bound_for, write_on, record_run, failure_of,
  is_fatal, after_hop, hop_on, go_on, after_step, with_slip, or_unslipped, after_reading, travel,
}

-- Nothing comes after the first step.
abbrev pub IsLast : List Step → Type 0
IsLast [] = Unit {0}
IsLast (here ∷ []) = Unit {0}
IsLast (here ∷ onwards ∷ rest) = ⊥

module _ {W P : Type 0} (f : Follower W P) (message : Message P) (w : World W) where
  -- The slip of the message: its own, or that of a follower which takes messages without one.
  abbrev pub OnSlip : RoutingSlip → Type 0
  OnSlip slip =
      (found : Option RoutingSlip) × (slip_from f.py f.texts message.envelope f.pipeline ≡ ok found)
      × (or_unslipped f found ≡ some slip)

  abbrev pub Stepped : Option P → World W → Type 0
  Stepped payload w' = f.step message w.own ≡ (ok payload, w'.own)

  -- What the slip says once the step has run.
  abbrev pub done_with : RoutingSlip → Step → List Step → World W → RoutingSlip
  done_with slip here rest w₁ = record slip {
    steps = rest;
    done = slip.done ++ (record here { completed_at = f.isoformat w₁ } ∷ []);
  }

  -- The message is finished with, at the last step or for NOTHING: a run is recorded, which says so,
  -- and nothing is sent.
  abbrev pub Ends : Ack → World W → Type 0
  Ends a w' =
      (slip : RoutingSlip) × (payload : Option P) × (run : Run) × OnSlip slip
      × Stepped payload w'
      × ((IsLast slip.steps × (run.outcome ≡ completed))
          ⊎ ((payload ≡ none) × (run.outcome ≡ ended_early)))
      × (a ≡ answers.accept)
      × (w'.runs ≡ run ∷ w.runs)
      × (w'.sent ≡ w.sent)

  -- The message goes on: the publisher of the slip's second step sent what the step returned, with the
  -- slip on which the first step is done.
  abbrev pub GoesOn : Ack → World W → Type 0
  GoesOn a w' =
      (slip : RoutingSlip) × (here : Step) × (onwards : Step) × (rest : List Step) × (payload : P)
      × (outgoing : Envelope) × (result : PublishResult) × OnSlip slip
      × (slip.steps ≡ here ∷ onwards ∷ rest)
      × Stepped (some payload) w'
      × (let w₁ : World W = record w { own = w'.own } in
          write_on f (done_with slip here (onwards ∷ rest) w₁) message.envelope w₁ ≡ ok outgoing)
      × (send (bound_for f.publisher onwards) payload (some outgoing) none "" w.sent
          ≡ (ok result, w'.sent))
      × (a ≡ answers.accept)
      × (w'.runs ≡ w.runs)

  -- The message comes back to the consumer, which keeps it or sets it aside; no run is recorded.
  abbrev pub ComesBack : Ack → World W → Type 0
  ComesBack a w' = ((a.action ≡ Action.retry) ⊎ (a.action ≡ Action.reject)) × (w'.runs ≡ w.runs)

  abbrev pub IsAccounted : Result PublishFault Ack → World W → Type 0
  IsAccounted (ok a) w' = Ends a w' ⊎ (GoesOn a w' ⊎ ComesBack a w')
  IsAccounted (err fault) w' = (fault ≡ cancelled) × (w'.runs ≡ w.runs)

  module _ (slip : RoutingSlip) (on : OnSlip slip) (own : W) where
    abbrev w₁ : World W
    w₁ = record w { own = own }

    module _ (here onwards : Step) (rest : List Step) (steps : slip.steps ≡ here ∷ onwards ∷ rest)
        (payload : P) (stepped : f.step message w.own ≡ (ok (some payload), own)) where
      after_hop-IsAccounted :
          (outgoing : Envelope)
          → write_on f (done_with slip here (onwards ∷ rest) w₁) message.envelope w₁ ≡ ok outgoing
          → (result : Result PublishFault PublishResult) (sent : List PublishEvent)
          → send (bound_for f.publisher onwards) payload (some outgoing) none "" w.sent
            ≡ (result, sent)
          → let hop = after_hop f (some here) message result (record w₁ { sent = sent }) in
            IsAccounted hop.0 hop.1
      unfolding after_hop answers.retry
      after_hop-IsAccounted outgoing written (ok r) sent e = inr (
          inl (
            slip, here, onwards, rest, payload, outgoing, r, on, steps, stepped, written, e, refl,
            refl,
          ))
      after_hop-IsAccounted outgoing written (err cancelled) sent e = (refl, refl)
      after_hop-IsAccounted outgoing written (err (paused x)) sent e = inr (inr (inl refl, refl))
      after_hop-IsAccounted outgoing written (err (declined x)) sent e = inr (inr (inl refl, refl))
      after_hop-IsAccounted outgoing written (err (raised x)) sent e = inr (inr (inl refl, refl))

      hop_on-IsAccounted :
          (written : Result SlipError Envelope)
          → write_on f (done_with slip here (onwards ∷ rest) w₁) message.envelope w₁ ≡ written
          → let hop = hop_on f (some here) onwards payload message written w₁ in
            IsAccounted hop.0 hop.1
      unfolding hop_on answers.reject
      hop_on-IsAccounted (err x) e = inr (inr (inr refl, refl))
      hop_on-IsAccounted (ok outgoing) e =
          let answer =
            send (bound_for f.publisher onwards) payload (some outgoing) none "" w.sent in
          after_hop-IsAccounted outgoing e answer.0 answer.1 refl

    go_on-IsAccounted :
        (payload : Option P)
        → f.step message w.own ≡ (ok payload, own)
        → (steps : List Step) → slip.steps ≡ steps
        → let advanced = advance_by (f.isoformat w₁) steps slip in
          let gone = go_on f (next_of steps) advanced (next_of advanced.steps) payload message w₁ in
          IsAccounted gone.0 gone.1
    unfolding go_on record_run advance_by next_of
    go_on-IsAccounted payload stepped [] e =
        rw e (
          inl
            (slip, payload, _, on, stepped, inl (subst IsLast (sym e) tt, refl), refl, refl, refl))
    go_on-IsAccounted payload stepped (here ∷ []) e =
        inl (slip, payload, _, on, stepped, inl (subst IsLast (sym e) tt, refl), refl, refl, refl)
    go_on-IsAccounted none stepped (here ∷ onwards ∷ rest) e =
        inl (slip, none, _, on, stepped, inr (refl, refl), refl, refl, refl)
    go_on-IsAccounted (some payload) stepped (here ∷ onwards ∷ rest) e =
        hop_on-IsAccounted here onwards rest e payload stepped
          (write_on f (done_with slip here (onwards ∷ rest) w₁) message.envelope w₁) refl

    comes_back :
        (failure : Failure) (b : Bool)
        → ComesBack (if b then answers.reject (some failure) else answers.retry (some failure)) w₁
    unfolding answers.reject answers.retry
    comes_back failure true = (inr refl, refl)
    comes_back failure false = (inl refl, refl)

    after_step-IsAccounted :
        (answer : Result PublishFault (Option P))
        → f.step message w.own ≡ (answer, own)
        → let left = after_step f slip message answer w₁ in IsAccounted left.0 left.1
    unfolding after_step next_step advance
    after_step-IsAccounted (err cancelled) stepped = (refl, refl)
    after_step-IsAccounted (err (paused e)) stepped =
        let failure = failure_of f.words (paused e) in
        inr (inr (comes_back failure (is_fatal failure.kind)))
    after_step-IsAccounted (err (declined e)) stepped =
        let failure = failure_of f.words (declined e) in
        inr (inr (comes_back failure (is_fatal failure.kind)))
    after_step-IsAccounted (err (raised e)) stepped =
        let failure = failure_of f.words (raised e) in
        inr (inr (comes_back failure (is_fatal failure.kind)))
    after_step-IsAccounted (ok payload) stepped = go_on-IsAccounted payload stepped slip.steps refl

  with_slip-IsAccounted :
      (slip : Option RoutingSlip)
      → ((s : RoutingSlip) → slip ≡ some s → OnSlip s)
      → let left = with_slip f slip message w in IsAccounted left.0 left.1
  unfolding with_slip answers.reject
  with_slip-IsAccounted none on = inr (inr (inr refl, refl))
  with_slip-IsAccounted (some slip) on =
      let answer = f.step message w.own in
      after_step-IsAccounted slip (on slip refl) answer.1 answer.0 refl

  after_reading-IsAccounted :
      (read : Result Failure (Option RoutingSlip))
      → slip_from f.py f.texts message.envelope f.pipeline ≡ read
      → let left = after_reading f read message w in IsAccounted left.0 left.1
  unfolding after_reading answers.reject
  after_reading-IsAccounted (err unreadable) e = inr (inr (inr refl, refl))
  after_reading-IsAccounted (ok found) e =
      with_slip-IsAccounted (or_unslipped f found) (λ slip is. (found, e, is))

  -- `travel` answers each message in one of three ways, and raises only the cancellation of its task,
  -- recording nothing. It accepts the message and sends nothing, having recorded one run, after the
  -- step returned, at the last step of the message's slip, a completed run, or for NOTHING, a run that
  -- ended early. Or it accepts it, recording no run, after the mandatory publisher of the slip's second
  -- step came back, which was given what the step returned in an envelope with the slip on which the
  -- first step is done. Or it records no run and asks for the message to be retried or rejected.
  pub travel-IsAccounted : let left = travel f message w in IsAccounted left.0 left.1
  unfolding travel
  travel-IsAccounted =
      after_reading-IsAccounted (slip_from f.py f.texts message.envelope f.pipeline) refl
