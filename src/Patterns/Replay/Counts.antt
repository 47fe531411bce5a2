-- ===== src/Patterns/Replay/Counts.antt =====
-- patterns/replay.py: the messages that a pass took, acknowledged and returned, counted by any test.
use acemq_python_amqp.Prelude.{
  ℕ, ◌+◌, ◌≤◌, ◌≡◌, refl, ◌∙◌, Option, some, none, arith, Bool, true, false, List, [], ◌∷◌, ◌++◌,
  Result, ok, err,
}
use acemq_python_amqp.Ack.{Failure}
use acemq_python_amqp.Consumer.Effects.{Delivery}
use acemq_python_amqp.Patterns.Replay.{
  ReplayResult, ReplayEvent, pulled, handed_over, acked, ack_raised, returned, return_raised,
  Replay, return_event, return_quietly, ReplayFault, no_queue, negative_wait, replay_failed, unread,
  escaped,
}
use acemq_python_amqp.Patterns.Replay.Pass.{return_declined}

abbrev pub one_if : Bool → ℕ
one_if true = 1
one_if false = 0

-- How many of the messages that were taken, acknowledged or returned a test counts.
module _ (is : Delivery → Bool) where
  abbrev pub count_pulled : List ReplayEvent → ℕ
  count_pulled [] = 0
  count_pulled (pulled d ∷ t) = one_if (is d) + count_pulled t
  count_pulled (handed_over _ _ _ _ ∷ t) = count_pulled t
  count_pulled (acked d ∷ t) = count_pulled t
  count_pulled (ack_raised d ∷ t) = count_pulled t
  count_pulled (return_raised d ∷ t) = count_pulled t
  count_pulled (returned d ∷ t) = count_pulled t

  abbrev pub count_acked : List ReplayEvent → ℕ
  count_acked [] = 0
  count_acked (pulled d ∷ t) = count_acked t
  count_acked (handed_over _ _ _ _ ∷ t) = count_acked t
  count_acked (acked d ∷ t) = one_if (is d) + count_acked t
  count_acked (ack_raised d ∷ t) = count_acked t
  count_acked (return_raised d ∷ t) = count_acked t
  count_acked (returned d ∷ t) = count_acked t

  abbrev pub count_returned : List ReplayEvent → ℕ
  count_returned [] = 0
  count_returned (pulled d ∷ t) = count_returned t
  count_returned (handed_over _ _ _ _ ∷ t) = count_returned t
  count_returned (acked d ∷ t) = count_returned t
  count_returned (ack_raised d ∷ t) = count_returned t
  count_returned (return_raised d ∷ t) = count_returned t
  count_returned (returned d ∷ t) = one_if (is d) + count_returned t

  -- The messages whose `ack` or `nack` raised.
  abbrev pub count_refused : List ReplayEvent → ℕ
  count_refused [] = 0
  count_refused (pulled d ∷ t) = count_refused t
  count_refused (handed_over _ _ _ _ ∷ t) = count_refused t
  count_refused (acked d ∷ t) = count_refused t
  count_refused (returned d ∷ t) = count_refused t
  count_refused (ack_raised d ∷ t) = one_if (is d) + count_refused t
  count_refused (return_raised d ∷ t) = one_if (is d) + count_refused t

  -- The messages that were returned, or whose `ack` or `nack` raised.
  abbrev pub count_back : List ReplayEvent → ℕ
  count_back t = count_returned t + count_refused t

  abbrev pub count_held : List Delivery → ℕ
  count_held [] = 0
  count_held (d ∷ ds) = one_if (is d) + count_held ds

  pub count_held-append :
      (ds : List Delivery) (d : Delivery)
      → count_held (ds ++ (d ∷ [])) ≡ count_held ds + one_if (is d)
  count_held-append [] d = omega arith
  count_held-append (e ∷ ds) d = omega (arith, count_held-append ds d)

  -- A return, whatever `nack` does.
  pub return_event-counts :
      (answer : Option Failure) (d : Delivery) (t : List ReplayEvent)
      → (count_pulled (return_event answer d ∷ t) ≡ count_pulled t)
        × (count_acked (return_event answer d ∷ t) ≡ count_acked t)
        × (count_back (return_event answer d ∷ t) ≡ count_back t + one_if (is d))
  unfolding return_event
  return_event-counts none d t = (refl, refl, omega arith)
  return_event-counts (some failure) d t = (refl, refl, omega arith)

  pub return_declined-counts :
      (s : Replay) (ds : List Delivery) (t : List ReplayEvent)
      → (count_pulled (return_declined s ds t) ≡ count_pulled t)
        × (count_acked (return_declined s ds t) ≡ count_acked t)
        × (count_back (return_declined s ds t) ≡ count_back t + count_held ds)
  unfolding return_declined return_quietly
  return_declined-counts s [] t = (refl, refl, omega arith)
  return_declined-counts s (d ∷ ds) t =
      let one = return_event-counts (s.nack_answer t) d t in
      let rest = return_declined-counts s ds (return_event (s.nack_answer t) d ∷ t) in
      (rest.0 ∙ one.0, rest.1 ∙ one.1, omega (arith, rest.2, one.2))

abbrev pub any : Delivery → Bool
any d = true

-- The copy of a message that went out just before: it has the body, and was confirmed and routed.
abbrev pub CopyOut : Delivery → List ReplayEvent → Type 0
CopyOut d [] = ⊥
CopyOut d (pulled _ ∷ t) = ⊥
CopyOut d (handed_over _ _ o (err _) ∷ t) = ⊥
CopyOut d (handed_over _ _ o (ok r) ∷ t) =
    (o.body ≡ d.body) × (r.confirmed ≡ true) × (r.routed ≡ true)
CopyOut d (acked _ ∷ t) = ⊥
CopyOut d (returned _ ∷ t) = ⊥
CopyOut d (ack_raised _ ∷ t) = ⊥
CopyOut d (return_raised _ ∷ t) = ⊥

abbrev pub IsKept : List ReplayEvent → Type 0
IsKept [] = Unit {0}
IsKept (pulled _ ∷ t) = IsKept t
IsKept (handed_over _ _ _ _ ∷ t) = IsKept t
IsKept (acked d ∷ t) = CopyOut d t × IsKept t
IsKept (returned _ ∷ t) = IsKept t
IsKept (ack_raised d ∷ t) = CopyOut d t × IsKept t
IsKept (return_raised _ ∷ t) = IsKept t

pub return_event-IsKept :
    (answer : Option Failure) (d : Delivery) (t : List ReplayEvent)
    → IsKept t
    → IsKept (return_event answer d ∷ t)
unfolding return_event
return_event-IsKept none d t k = k
return_event-IsKept (some failure) d t k = k

pub return_declined-IsKept :
    (s : Replay) (ds : List Delivery) (t : List ReplayEvent)
    → IsKept t
    → IsKept (return_declined s ds t)
unfolding return_declined return_quietly
return_declined-IsKept s [] t k = k
return_declined-IsKept s (d ∷ ds) t k =
    return_declined-IsKept s ds (return_event (s.nack_answer t) d ∷ t)
      (return_event-IsKept (s.nack_answer t) d t k)

-- How many messages an ending leaves unsettled, at most.
abbrev pub held_by : Result ReplayFault ReplayResult → ℕ
held_by (ok r) = 0
held_by (err no_queue) = 0
held_by (err negative_wait) = 0
held_by (err (replay_failed r what)) = 0
held_by (err (unread x)) = 1
held_by (err (escaped fault)) = 1

-- What an ending says of the messages that were acknowledged, and of those that were not.
abbrev pub SaysSo : Result ReplayFault ReplayResult → ℕ → ℕ → Type 0
SaysSo (ok r) acks others = (r.moved ≡ acks) × (r.skipped ≡ others)
SaysSo (err (replay_failed r what)) acks others =
    (r.moved ≡ acks) × (r.skipped ≤ others) × (others ≤ r.skipped + 1)
SaysSo (err _) acks others = Unit {0}

pub record IsAccounted (r : Result ReplayFault ReplayResult) (t : List ReplayEvent) : Type 0 where
  pub kept : IsKept t
  pub settled_once :
      (is : Delivery → Bool)
      → count_acked is t + (count_returned is t + count_refused is t) ≤ count_pulled is t
  pub settled :
      (is : Delivery → Bool)
      → count_pulled is t
        ≤ (count_acked is t + (count_returned is t + count_refused is t)) + held_by r
  pub says_so : SaysSo r (count_acked any t) (count_returned any t + count_refused any t)
