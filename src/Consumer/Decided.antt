-- ===== src/Consumer/Decided.antt =====
-- connection.py: what `_decide` makes of a handler's answer.
use acemq_python_amqp.Prelude.{
  ◌≡◌, ◌≢◌, ◌∙◌, ap, sym, ◌↔◌, ◌⊎◌, refl, Option, some, none, Result-cases, ok, arith, inl, inr,
  List,
}
use acemq_python_amqp.Prelude.Int.{◌-ℤ◌}
use acemq_python_amqp.Envelope.{Envelope}
use acemq_python_amqp.Retry.{FloatTime, Wait, next_wait}
use acemq_python_amqp.Retry.Waits.{GivesUp, next_wait-none_iff}
use acemq_python_amqp.Ack.{
  Ack, Action, Outcome, Settlement, Failure, FailureKind, fatal, stop_reading, hop_refused,
  ordinary,
}
use mathlib.Core.Path.{subst}
use acemq_python_amqp.Consumer.Effects.{Setup, Effect, Delivery}
use acemq_python_amqp.Consumer.Settle.{carry, carry_wait, dead_letter, or_empty}
use acemq_python_amqp.Consumer.Decide.{
  answered, policy_said, ask_policy, kind_of, decide_kind, decide_retry, decide_action, decide,
}

-- A failure that is retried for as long as the policy allows.
abbrev pub Retryable : FailureKind → Type 0
Retryable fatal = ⊥
Retryable stop_reading = ⊥
Retryable _ = Unit {0}

module _ {P : Type 0} (ft : FloatTime) (c : Setup ft P) where
  -- A message is dead-lettered for a fatal failure, or for another one when its attempts or its age
  -- are used up.
  abbrev pub Doomed : List Effect → Envelope → FailureKind → Type 0
  Doomed t e kind =
      (kind ≡ fatal) ⊎ Retryable kind × GivesUp c.retry e.attempt (c.now t -ℤ e.first_seen)

  answered_dead :
      (e : Envelope) (error : Option Failure) (wait : Option Wait)
      → ((answered ft c e error wait).0.outcome ≡ Outcome.dead_lettered) ↔ (wait ≡ none)
  unfolding answered
  answered_dead e error none = (λ h. refl, λ h. refl)
  answered_dead e error (some wait) = (λ h. ground arith, λ h. ground arith)

  asked_dead :
      (t : List Effect) (e : Envelope) (error : Option Failure) (s : Settlement)
      (wait : Option Wait)
      → ask_policy ft c t e error ≡ ok (s, wait)
      → (s.outcome ≡ Outcome.dead_lettered) ↔ GivesUp c.retry e.attempt (c.now t -ℤ e.first_seen)
  unfolding ask_policy policy_said
  asked_dead t e error s wait h =
      let asked = next_wait ft c.retry (c.random t) e.attempt (c.now t -ℤ e.first_seen) in
      let gives = next_wait-none_iff ft c.retry (c.random t) e.attempt (c.now t -ℤ e.first_seen) in
      elim (Result-cases asked) [
        | inl (w, r) ↦
            let q : answered ft c e error w ≡ (s, wait) = cc (rw r at h) in
            let dead = answered_dead e error w in
            (
              λ d. gives.0 (r ∙ ap ok (dead.0 (ap (λ x. x.0.outcome) q ∙ d))),
              λ g. ap (λ x. x.0.outcome) (sym q) ∙ dead.1 (let n = gives.1 g in ground arith),
            )
        | inr (x, r) ↦ absurd (ground (arith, rw r at h))
      ]

  kind_dead :
      (kind : FailureKind) (t : List Effect) (e : Envelope) (error : Option Failure)
      (s : Settlement) (wait : Option Wait)
      → decide_kind ft c kind t e error ≡ ok (s, wait)
      → (s.outcome ≡ Outcome.dead_lettered) ↔ Doomed t e kind
  unfolding decide_kind
  kind_dead fatal t e error s wait h = (λ d. inl refl, λ d. ground arith)
  kind_dead stop_reading t e error s wait h =
      (λ d. absurd (ground arith), λ d. absurd (ground arith))
  kind_dead hop_refused t e error s wait h =
      let a = asked_dead t e error s wait h in (λ d. inr (tt, a.0 d), λ d. a.1 (ground arith))
  kind_dead ordinary t e error s wait h =
      let a = asked_dead t e error s wait h in (λ d. inr (tt, a.0 d), λ d. a.1 (ground arith))

  action_dead :
      (action : Action) (t : List Effect) (e : Envelope) (decision : Ack) (s : Settlement)
      (wait : Option Wait)
      → decide_action ft c action t e decision ≡ ok (s, wait)
      → (s.outcome ≡ Outcome.dead_lettered)
        ↔ ((action ≡ Action.retry) × Doomed t e (kind_of decision.error))
  unfolding decide_action decide_retry
  action_dead Action.retry t e decision s wait h =
      let k = kind_dead (kind_of decision.error) t e decision.error s wait h in
      (λ d. (refl, k.0 d), λ d. k.1 d.1)
  action_dead _ t e decision s wait h = (λ d. ground arith, λ d. ground arith)

  -- The outcomes that go to the dead letters.
  abbrev pub AtDeadLetters : Outcome → Type 0
  AtDeadLetters outcome = (outcome ≡ Outcome.dead_lettered) ⊎ (outcome ≡ Outcome.rejected)

  answered-none :
      (e : Envelope) (error : Option Failure) (w : Option Wait)
      → AtDeadLetters (answered ft c e error w).0.outcome
      → (answered ft c e error w).1 ≡ none
  unfolding answered
  answered-none e error none aside = refl
  answered-none e error (some wait) aside = absurd (ground arith)

  ask_policy-none :
      (t : List Effect) (e : Envelope) (error : Option Failure) (s : Settlement)
      (wait : Option Wait)
      → ask_policy ft c t e error ≡ ok (s, wait)
      → AtDeadLetters s.outcome
      → wait ≡ none
  unfolding ask_policy policy_said
  ask_policy-none t e error s wait h aside =
      let asked = next_wait ft c.retry (c.random t) e.attempt (c.now t -ℤ e.first_seen) in
      elim (Result-cases asked) [
        | inl (w, r) ↦
            let q : answered ft c e error w ≡ (s, wait) = cc (rw r at h) in
            let same =
              subst (λ z. AtDeadLetters z.0.outcome → z.1 ≡ none) q (answered-none e error w) in
            same aside
        | inr (x, r) ↦ absurd (ground (arith, rw r at h))
      ]

  decide_kind-none :
      (kind : FailureKind) (t : List Effect) (e : Envelope) (error : Option Failure)
      (s : Settlement) (wait : Option Wait)
      → decide_kind ft c kind t e error ≡ ok (s, wait)
      → AtDeadLetters s.outcome
      → wait ≡ none
  unfolding decide_kind
  decide_kind-none fatal t e error s wait h aside = ground arith
  decide_kind-none stop_reading t e error s wait h aside = ground arith
  decide_kind-none hop_refused t e error s wait h aside = ask_policy-none t e error s wait h aside
  decide_kind-none ordinary t e error s wait h aside = ask_policy-none t e error s wait h aside

  decide_action-none :
      (action : Action) (t : List Effect) (e : Envelope) (decision : Ack) (s : Settlement)
      (wait : Option Wait)
      → decide_action ft c action t e decision ≡ ok (s, wait)
      → AtDeadLetters s.outcome
      → wait ≡ none
  unfolding decide_action decide_retry
  decide_action-none Action.retry t e decision s wait h aside =
      decide_kind-none (kind_of decision.error) t e decision.error s wait h aside
  decide_action-none _ t e decision s wait h aside = ground arith

  carry_dead_letters :
      (outcome : Outcome) (wait : Option Wait) (d : Delivery) (e : Envelope) (s : Settlement)
      → AtDeadLetters outcome
      → wait ≡ none
      → carry ft c outcome d e s wait ≡ dead_letter ft c d e (or_empty s.reason)
  unfolding carry carry_wait
  carry_dead_letters outcome wait d e s (inl o) n = rw (o, n) refl
  carry_dead_letters outcome wait d e s (inr o) n = rw (o, n) refl

  answered-not_rejected :
      (e : Envelope) (error : Option Failure) (w : Option Wait)
      → (answered ft c e error w).0.outcome ≢ Outcome.rejected
  unfolding answered
  answered-not_rejected e error none r = ground arith
  answered-not_rejected e error (some wait) r = ground arith

  asked-not_rejected :
      (t : List Effect) (e : Envelope) (error : Option Failure) (s : Settlement)
      (wait : Option Wait)
      → ask_policy ft c t e error ≡ ok (s, wait)
      → s.outcome ≢ Outcome.rejected
  unfolding ask_policy policy_said
  asked-not_rejected t e error s wait h d =
      let asked = next_wait ft c.retry (c.random t) e.attempt (c.now t -ℤ e.first_seen) in
      elim (Result-cases asked) [
        | inl (w, r) ↦
            let q : answered ft c e error w ≡ (s, wait) = cc (rw r at h) in
            answered-not_rejected e error w (ap (λ x. x.0.outcome) q ∙ d)
        | inr (x, r) ↦ absurd (ground (arith, rw r at h))
      ]

  kind-not_rejected :
      (kind : FailureKind) (t : List Effect) (e : Envelope) (error : Option Failure)
      (s : Settlement) (wait : Option Wait)
      → decide_kind ft c kind t e error ≡ ok (s, wait)
      → s.outcome ≢ Outcome.rejected
  unfolding decide_kind
  kind-not_rejected fatal t e error s wait h d = ground arith
  kind-not_rejected stop_reading t e error s wait h d = ground arith
  kind-not_rejected hop_refused t e error s wait h d = asked-not_rejected t e error s wait h d
  kind-not_rejected ordinary t e error s wait h d = asked-not_rejected t e error s wait h d

  rejected_iff :
      (action : Action) (t : List Effect) (e : Envelope) (decision : Ack) (s : Settlement)
      (wait : Option Wait)
      → decide_action ft c action t e decision ≡ ok (s, wait)
      → (s.outcome ≡ Outcome.rejected) ↔ (action ≡ Action.reject)
  unfolding decide_action decide_retry
  rejected_iff Action.retry t e decision s wait h = (
    λ d. absurd (kind-not_rejected (kind_of decision.error) t e decision.error s wait h d),
    λ d. ground arith,
  )
  rejected_iff _ t e decision s wait h = (λ d. ground arith, λ d. ground arith)

  -- A decision that `_decide` reaches has the outcome dead-lettered exactly when the handler asked for a
  -- retry, and what it failed with is fatal, or else is not the reader's own stop and the policy gives
  -- the message up, for its attempts or for its age; and the outcome rejected exactly when the handler
  -- rejected the message. With either outcome `_carry_out` sends the message to the dead letters, for
  -- the reason that the decision states.
  pub decide-dead_lettered_iff :
      (t : List Effect) (e : Envelope) (decision : Ack) (s : Settlement) (wait : Option Wait)
      → decide ft c t e decision ≡ ok (s, wait)
      → ((s.outcome ≡ Outcome.dead_lettered)
          ↔ ((decision.action ≡ Action.retry) × Doomed t e (kind_of decision.error)))
        × ((s.outcome ≡ Outcome.rejected) ↔ (decision.action ≡ Action.reject))
        × (AtDeadLetters s.outcome
            → (d : Delivery)
            → carry ft c s.outcome d e s wait ≡ dead_letter ft c d e (or_empty s.reason))
  unfolding decide
  decide-dead_lettered_iff t e decision s wait h = (
    action_dead decision.action t e decision s wait h,
    rejected_iff decision.action t e decision s wait h,
    λ aside d.
        carry_dead_letters s.outcome wait d e s aside
          (decide_action-none decision.action t e decision s wait h aside),
  )
