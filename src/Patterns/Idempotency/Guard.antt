-- ===== src/Patterns/Idempotency/Guard.antt =====
-- idempotency.py: the guard around a handler, over the store in this process.
use acemq_python_amqp.Prelude.{
  ◌≡◌, ◌≢◌, ◌∙◌, ap, refl, String, false, Option, some, Result, ok, err, arith, str_eq,
}
use acemq_python_amqp.Prelude.Int.{◌<ℤ◌, ◌-ℤ◌}
use acemq_python_amqp.Envelope.{Instant}
use acemq_python_amqp.Retry.{Duration}
use acemq_python_amqp.Ack.{Ack, Action, Failure}
use acemq_python_amqp.Ack.Answers as answers
use acemq_python_amqp.Consumer.Effects.{Message}
use acemq_python_amqp.Patterns.Idempotency.{
  Claim, Memory, claim, first_time, confirm, forget, Call, Store, ask, confirm_quietly,
  forget_quietly, release, run_claimed, answer_claim, guard_key, identity, guarded,
}
use acemq_python_amqp.Patterns.Idempotency.Window.{forget-grants, confirm-answers}

module _ {R : Type 0} (now : R → Instant) where
  -- The store in this process beside all that the handler works on, with the clock that it reads.
  abbrev pub in_memory : Store (Memory × R)
  in_memory = record {
    first_time = λ key (s, r). let (answer, s') = first_time key (now r) s in (ok answer, (s', r));
    forget = λ key (s, r). (ok tt, (forget key s, r));
    claim = some (λ key (s, r). let (answer, s') = claim key (now r) s in (ok answer, (s', r)));
    confirm = some (λ key (s, r). (ok tt, (confirm key s, r)));
  }

  -- A handler that has no access to the store.
  abbrev pub beside : {P : Type 0} → (Message P → Call R Ack) → Message P → Call (Memory × R) Ack
  beside handler message (s, r) = let (decision, r') = handler message r in (decision, (s, r'))

  module _ {P : Type 0} (handler : Message P → Call R Ack) (delay : Duration)
      (key : Option (Message P → String)) where
    -- The guard over this store.
    abbrev pub guard : Message P → Memory → R → Result Failure Ack × (Memory × R)
    guard message s r = guarded in_memory (beside handler) delay key message (s, r)

    guard_claim :
        (k : String) (m : Message P) (s : Memory) (r : R)
        → str_eq k "" ≡ false
        → guard_key in_memory (beside handler) delay k m (s, r)
          ≡ answer_claim in_memory
              (beside handler)
              delay
              (ok (claim k (now r) s).0)
              k
              m
              ((claim k (now r) s).1, r)
    unfolding guard_key ask
    guard_claim k m s r e = rw e

    -- What the guard of a message with a key says after a claim that was granted, and the store then.
    guard_granted :
        (m : Message P) (s : Memory) (r : R)
        → str_eq (identity key m) "" ≡ false
        → (claim (identity key m) (now r) s).0 ≡ Claim.claimed
        → guard m s r
          ≡ run_claimed in_memory
              (beside handler)
              delay
              (identity key m)
              m
              ((claim (identity key m) (now r) s).1, r)
    unfolding guarded answer_claim
    guard_granted m s r e g = guard_claim (identity key m) m s r e ∙ rw g

    guard_duplicate :
        (m : Message P) (s : Memory) (r : R)
        → str_eq (identity key m) "" ≡ false
        → (claim (identity key m) (now r) s).0 ≡ Claim.duplicate
        → guard m s r ≡ (ok answers.accept, ((claim (identity key m) (now r) s).1, r))
    unfolding guarded answer_claim
    guard_duplicate m s r e g = guard_claim (identity key m) m s r e ∙ rw g

    guard_accepted :
        (m : Message P) (s : Memory) (r : R)
        → str_eq (identity key m) "" ≡ false
        → (claim (identity key m) (now r) s).0 ≡ Claim.claimed
        → (handler m r).0 ≡ ok answers.accept
        → guard m s r ≡ (
          ok answers.accept,
          (confirm (identity key m) (claim (identity key m) (now r) s).1, (handler m r).1),
        )
    unfolding run_claimed release confirm_quietly answers.accept
    guard_accepted m s r e g a = guard_granted m s r e g ∙ rw a

    -- What is not an acceptance: an answer with another action, or a raise.
    abbrev pub NotAccepted : Result Failure Ack → Type 0
    NotAccepted (ok decision) = decision.action ≢ Action.accept
    NotAccepted (err failure) = Unit {0}

    release_failed :
        (k : String) (d : Result Failure Ack) (s : Memory) (r : R)
        → NotAccepted d
        → release in_memory k d (s, r) ≡ (forget k s, r)
    unfolding release forget_quietly
    release_failed k (err failure) s r f = refl
    release_failed k (ok decision) s r f = ground arith

    release_beside :
        (k : String) (d : Result Failure Ack) (s : Memory) (r : R)
        → (release in_memory k d (s, r)).1 ≡ r
    unfolding release forget_quietly confirm_quietly
    release_beside k (err failure) s r = refl
    release_beside k (ok decision) s r = ground arith

    guard_failed :
        (m : Message P) (s : Memory) (r : R)
        → str_eq (identity key m) "" ≡ false
        → (claim (identity key m) (now r) s).0 ≡ Claim.claimed
        → NotAccepted (handler m r).0
        → guard m s r ≡ (
          (handler m r).0,
          (forget (identity key m) (claim (identity key m) (now r) s).1, (handler m r).1),
        )
    unfolding run_claimed
    guard_failed m s r e g f =
        guard_granted m s r e g
        ∙ ap (λ w. ((handler m r).0, w))
            (release_failed (identity key m) (handler m r).0 (claim (identity key m) (now r) s).1
              (handler m r).1 f)

    -- A message whose claim is granted and that the handler accepts: the handler has run, and when the
    -- same message arrives again within the window, it is accepted and nothing is run.
    pub accepted_once :
        (m : Message P) (s : Memory) (r r' : R)
        → str_eq (identity key m) "" ≡ false
        → (claim (identity key m) (now r) s).0 ≡ Claim.claimed
        → (handler m r).0 ≡ ok answers.accept
        → (now r' -ℤ s.ttl) <ℤ now r
        → ((guard m s r).0 ≡ ok answers.accept)
          × ((guard m s r).1.1 ≡ (handler m r).1)
          × ((guard m (guard m s r).1.0 r').0 ≡ ok answers.accept)
          × ((guard m (guard m s r).1.0 r').1.1 ≡ r')
    accepted_once m s r r' e g a young =
        let first = guard_accepted m s r e g a in
        let known = confirm-answers (identity key m) (now r) (now r') s g young in
        let second =
          guard_duplicate m (confirm (identity key m) (claim (identity key m) (now r) s).1) r' e
            known in
        rw first (refl, refl, rw second, rw second)

    -- A message whose claim is granted and that the handler does not accept, or raises on: its answer
    -- is passed on, and when the same message arrives again, at any time, the handler runs again.
    pub failed_runs_again :
        (m : Message P) (s : Memory) (r r' : R)
        → str_eq (identity key m) "" ≡ false
        → (claim (identity key m) (now r) s).0 ≡ Claim.claimed
        → NotAccepted (handler m r).0
        → ((guard m s r).0 ≡ (handler m r).0)
          × ((guard m (guard m s r).1.0 r').0 ≡ (handler m r').0)
          × ((guard m (guard m s r).1.0 r').1.1 ≡ (handler m r').1)
    unfolding run_claimed
    failed_runs_again m s r r' e g f =
        let first = guard_failed m s r e g f in
        let s' = (claim (identity key m) (now r) s).1 in
        let again =
          guard_granted m (forget (identity key m) s') r' e
            (forget-grants (identity key m) (now r') s') in
        rw first (
          refl,
          rw again,
          rw again (release_beside (identity key m) (handler m r').0 _ (handler m r').1),
        )
