-- ===== src/Patterns/Replay/Endings.antt =====
-- patterns/replay.py: the accounts of a pass between two turns and at its end.
use acemq_python_amqp.Prelude.{
  ◌+◌, ◌≤◌, ◌≡◌, refl, arith, Bool, true, false, String, Option, List, [], ◌∷◌, ◌++◌, Result, ok,
  err,
}
use mathlib.Core.Path.{subst}
use acemq_python_amqp.Ack.{Failure}
use acemq_python_amqp.Consumer.Effects.{Outbound, Delivery}
use acemq_python_amqp.Publisher.Outstanding.{PublishResult, PublishFault, cancelled}
use acemq_python_amqp.Patterns.Replay.{
  ReplayResult, ReplayEvent, pulled, handed_over, acked, ack_raised, return_event, Replay,
  ReplayFault, replay_failed, escaped,
}
use acemq_python_amqp.Patterns.Replay.Pass.{Pass, Turn, ends, goes_on, return_declined, ending}
use acemq_python_amqp.Patterns.Replay.Counts.{
  one_if, count_pulled, count_acked, count_back, count_held, count_held-append,
  return_declined-counts, return_event-counts, return_event-IsKept, any, IsKept,
  return_declined-IsKept, held_by, SaysSo, IsAccounted,
}

-- A pass between two turns: what it took and did not acknowledge, it declined.
pub record IsSound (p : Pass) : Type 0 where
  pub balanced :
      (is : Delivery → Bool)
      → count_pulled is p.trace ≡ count_acked is p.trace + count_held is p.declined
  pub none_returned : (is : Delivery → Bool) → count_back is p.trace ≡ 0
  pub moved_so : p.moved ≡ count_acked any p.trace
  pub skipped_so : p.skipped ≡ count_held any p.declined
  pub kept : IsKept p.trace

-- The end of the loop, before what was declined is returned.
pub record IsEnding (r : Result ReplayFault ReplayResult) (p : Pass) : Type 0 where
  pub kept : IsKept p.trace
  pub once :
      (is : Delivery → Bool)
      → count_acked is p.trace + (count_back is p.trace + count_held is p.declined)
        ≤ count_pulled is p.trace
  pub all :
      (is : Delivery → Bool)
      → count_pulled is p.trace
        ≤ (count_acked is p.trace + (count_back is p.trace + count_held is p.declined)) + held_by r
  pub says : SaysSo r (count_acked any p.trace) (count_back any p.trace + count_held any p.declined)

pub IsEnding-IsAccounted :
    (s : Replay) (r : Result ReplayFault ReplayResult) (p : Pass)
    → IsEnding r p
    → IsAccounted r (return_declined s p.declined p.trace)
IsEnding-IsAccounted s r p ending = record {
  kept = return_declined-IsKept s p.declined p.trace ending.kept;
  settled_once =
      λ is. omega (arith, return_declined-counts is s p.declined p.trace, ending.once is);
  settled = λ is. omega (arith, return_declined-counts is s p.declined p.trace, ending.all is);
  says_so =
      let counts = return_declined-counts any s p.declined p.trace in
      rw counts.1 (rw counts.2 ending.says);
}

abbrev pub IsTurn : Turn → Type 0
IsTurn (ends r p) = IsEnding r p
IsTurn (goes_on p) = IsSound p

pub one_at_most : (b : Bool) → one_if b ≤ 1
one_at_most true = omega arith
one_at_most false = omega arith

module _ (p : Pass) (sound : IsSound p) where
  pub says_of_counts :
      (r : Result ReplayFault ReplayResult)
      → SaysSo r p.moved p.skipped
      → SaysSo r (count_acked any p.trace) (count_back any p.trace + count_held any p.declined)
  says_of_counts r says =
      let skips : p.skipped ≡ count_back any p.trace + count_held any p.declined =
        omega (arith, sound.skipped_so, sound.none_returned any) in
      subst (λ acks. SaysSo r acks (count_back any p.trace + count_held any p.declined))
        sound.moved_so (subst (λ returns. SaysSo r p.moved returns) skips says)

  -- A pass that ends between two turns.
  pub ended_between :
      (r : Result ReplayFault ReplayResult) → SaysSo r p.moved p.skipped → IsEnding r p
  ended_between r says = record {
    kept = sound.kept;
    once = λ is. omega (arith, sound.balanced is, sound.none_returned is);
    all = λ is. omega (arith, sound.balanced is, sound.none_returned is);
    says = says_of_counts r says;
  }

  module _ (d : Delivery) where
    abbrev pub taken : List ReplayEvent
    taken = pulled d ∷ p.trace

    -- A message that a pass is left with.
    pub ended_holding :
        (fault : ReplayFault)
        → held_by (err fault) ≡ 1
        → SaysSo (err fault) p.moved p.skipped
        → IsEnding (err fault) (record p { trace = taken })
    ended_holding fault one says = record {
      kept = sound.kept;
      once = λ is. omega (arith, sound.balanced is, sound.none_returned is);
      all = λ is. omega (arith, sound.balanced is, sound.none_returned is, one_at_most (is d), one);
      says = says_of_counts (err fault) says;
    }

    -- A message that the filter declined.
    pub declined-IsSound :
        IsSound
          (record p { skipped = p.skipped + 1; declined = p.declined ++ (d ∷ []); trace = taken })
    declined-IsSound = record {
      balanced = λ is. omega (arith, sound.balanced is, count_held-append is p.declined d);
      none_returned = sound.none_returned;
      moved_so = sound.moved_so;
      skipped_so = omega (arith, sound.skipped_so, count_held-append any p.declined d);
      kept = sound.kept;
    }

    module _ (exchange key : String) (o : Outbound) (same : o.body ≡ d.body) where
      abbrev pub offered : Result PublishFault PublishResult → List ReplayEvent
      offered answer = handed_over exchange key o answer ∷ taken

      -- A message that went back: its original is acknowledged.
      pub moved-IsSound :
          (result : PublishResult)
          → result.confirmed ≡ true
          → result.routed ≡ true
          → IsSound (record p { moved = p.moved + 1; trace = acked d ∷ offered (ok result) })
      moved-IsSound result confirmed routed = record {
        balanced = λ is. omega (arith, sound.balanced is);
        none_returned = sound.none_returned;
        moved_so = omega (arith, sound.moved_so);
        skipped_so = sound.skipped_so;
        kept = ((same, confirmed, routed), sound.kept);
      }

      -- The acknowledgement raised, after the copy went out.
      pub ended_acked :
          (result : PublishResult) (reason what : String)
          → result.confirmed ≡ true
          → result.routed ≡ true
          → IsEnding
              (err (
                replay_failed
                  (record { moved = p.moved; skipped = p.skipped; reason = reason })
                  what))
              (record p { trace = ack_raised d ∷ offered (ok result) })
      ended_acked result reason what confirmed routed = record {
        kept = ((same, confirmed, routed), sound.kept);
        once = λ is. omega (arith, sound.balanced is, sound.none_returned is);
        all = λ is. omega (arith, sound.balanced is, sound.none_returned is);
        says = (
          sound.moved_so,
          omega (arith, sound.skipped_so, sound.none_returned any),
          omega (arith, sound.skipped_so, sound.none_returned any),
        );
      }

      -- The publish failed, and the message is returned.
      pub ended_returned :
          (nack : Option Failure) (answer : Result PublishFault PublishResult)
          (reason what : String)
          → IsEnding
              (err (
                replay_failed
                  (record { moved = p.moved; skipped = p.skipped; reason = reason })
                  what))
              (record p { trace = return_event nack d ∷ offered answer })
      ended_returned nack answer reason what = record {
        kept = return_event-IsKept nack d (offered answer) sound.kept;
        once = λ is. omega (
          arith,
          sound.balanced is,
          sound.none_returned is,
          return_event-counts is nack d (offered answer),
        );
        all = λ is. omega (
          arith,
          sound.balanced is,
          sound.none_returned is,
          return_event-counts is nack d (offered answer),
        );
        says = (
          omega (arith, sound.moved_so, return_event-counts any nack d (offered answer)),
          omega (
            arith,
            sound.skipped_so,
            sound.none_returned any,
            return_event-counts any nack d (offered answer),
          ),
          omega (
            arith,
            sound.skipped_so,
            sound.none_returned any,
            return_event-counts any nack d (offered answer),
          ),
        );
      }

      pub ended_cancelled :
          (answer : Result PublishFault PublishResult)
          → IsEnding (err (escaped cancelled)) (record p { trace = offered answer })
      ended_cancelled answer =
          let held = ended_holding (escaped cancelled) refl tt in
          record { kept = held.kept; once = held.once; all = held.all; says = held.says }
