-- ===== src/Patterns/Replay/Pass.antt =====
-- patterns/replay.py: `replay`, the loop and what it comes to.
use acemq_python_amqp.Prelude.{
  ℕ, ◌+◌, String, Bool, true, false, ◌&&◌, Option, some, none, List, [], ◌∷◌, ◌++◌, Result, ok, err,
  concat, if◌then◌else◌, str_eq,
}
use acemq_python_amqp.Prelude.Int.{pos, ltb_ℤ, leb_ℤ, ◌+ℤ◌}
use acemq_python_amqp.Envelope.{Envelope, EnvelopeError, Instant, from_headers}
use acemq_python_amqp.Retry.{Duration, zero_duration}
use acemq_python_amqp.Ack.{Failure}
use acemq_python_amqp.Consumer.Effects.{Bytes, Delivery}
use acemq_python_amqp.Publisher.Outstanding.{PublishFault, raised, cancelled}
use acemq_python_amqp.Patterns.RoutingSlip.Travel.{failure_of}
use acemq_python_amqp.Patterns.Replay.{
  ReplayResult, ReplayEvent, pulled, ReplayFault, no_queue, negative_wait, replay_failed, unread,
  escaped, Replay, return_quietly, move,
}

-- The variables of the pass.
pub record Pass : Type 0 where
  pub moved : ℕ
  pub skipped : ℕ
  pub declined : List Delivery
  pub trace : List ReplayEvent

abbrev pub new_pass : Pass
new_pass = record { moved = 0; skipped = 0; declined = []; trace = [] }

abbrev pub result_of : Pass → String → ReplayResult
result_of p reason = record { moved = p.moved; skipped = p.skipped; reason = reason }

-- Where the loop stands after a turn: at its end, or at its next turn.
pub data Turn : Type 0 where
  ends : Result ReplayFault ReplayResult → Pass → Turn
  goes_on : Pass → Turn

module _ (s : Replay) where
  -- `ReplayResult.__str__`
  unfoldable pub shown_result : ReplayResult → String
  shown_result r = concat (
      "moved "
      ∷ s.words.str_of_nat r.moved
      ∷ ", skipped "
      ∷ s.words.str_of_nat r.skipped
      ∷ " ("
      ∷ r.reason
      ∷ ")"
      ∷ [])

  -- `ReplayError.__init__`
  unfoldable pub replay_error : ReplayResult → String → ReplayFault
  unfolding shown_result
  replay_error r what =
      replay_failed r (concat ("acemq: " ∷ what ∷ " (after " ∷ shown_result r ∷ ")" ∷ []))

  -- `_return_declined`, without the wait, which reads the depth of the queue.
  unfoldable pub return_declined : List Delivery → List ReplayEvent → List ReplayEvent
  unfolding return_quietly
  return_declined [] t = t
  return_declined (held ∷ rest) t = return_declined rest (return_quietly s held t)

  unfoldable pub after_move : Result PublishFault Unit → Pass → Turn
  unfolding replay_error
  after_move (ok tt) p = goes_on (record p { moved = p.moved + 1 })
  after_move (err cancelled) p = ends (err (escaped cancelled)) p
  after_move (err fault) p =
      ends
        (err (
          replay_error (result_of p "failed") (
            concat (
              "cannot republish a message from "
              ∷ s.words.repr s.queue
              ∷ ": "
              ∷ (failure_of s.words fault).text
              ∷ []))))
        p

  unfoldable pub after_filter : Result Failure Bool → Delivery → Envelope → Pass → Turn
  unfolding after_move move
  after_filter (err failure) d e p = ends (err (escaped (raised failure))) p
  after_filter (ok false) d e p =
      goes_on (record p { skipped = p.skipped + 1; declined = p.declined ++ (d ∷ []) })
  after_filter (ok true) d e p =
      let did = move s d e p.trace in after_move did.0 (record p { trace = did.1 })

  abbrev pub filtered :
      Option (List ReplayEvent → Envelope → Bytes → Result Failure Bool)
      → List ReplayEvent
      → Envelope
      → Bytes
      → Result Failure Bool
  filtered none t e body = ok true
  filtered (some only) t e body = only t e body

  unfoldable pub consider : Result EnvelopeError Envelope → Delivery → Pass → Turn
  unfolding after_filter
  consider (err x) d p = ends (err (unread x)) p
  consider (ok e) d p = after_filter (filtered s.only p.trace e d.body) d e p

  -- What `pull` came back with, where there was a message.
  unfoldable pub offer : Result PublishFault Delivery → Pass → Turn
  unfolding consider replay_error
  offer (err cancelled) p = ends (err (escaped cancelled)) p
  offer (err fault) p =
      ends
        (err (
          replay_error (result_of p "failed") (
            concat (
              "cannot read "
              ∷ s.words.repr s.queue
              ∷ " to replay it: "
              ∷ (failure_of s.words fault).text
              ∷ []))))
        p
  offer (ok d) p =
      let q = record p { trace = pulled d ∷ p.trace } in
      consider
        (from_headers s.py (s.fresh_id q.trace) (s.now q.trace) d.headers d.routing_key
          d.message_id)
        d q

  abbrev is_past : Option Instant → Instant → Bool
  is_past none now = false
  is_past (some expires) now = leb_ℤ expires now

  -- The two tests at the head of the loop: the reason to stop.
  unfoldable pub stop_reason : Option Instant → Pass → Option String
  stop_reason expires p =
      if ltb_ℤ (pos 0) s.limit && leb_ℤ s.limit (pos p.moved)
      then some "limit"
      else if is_past expires (s.clock p.trace)
      then some "deadline"
      else none

  unfoldable pub take_turn : Option String → Result PublishFault Delivery → Pass → Turn
  unfolding offer
  take_turn (some reason) pull p = ends (ok (result_of p reason)) p
  take_turn none pull p = offer pull p

  abbrev pub ending : Option String → Pass → Result ReplayFault ReplayResult
  ending none p = ok (result_of p "drained")
  ending (some reason) p = ok (result_of p reason)

  abbrev pub resume :
      Turn
      → (Pass → Result ReplayFault ReplayResult × Pass)
      → Result ReplayFault ReplayResult × Pass
  resume (ends r p) next = (r, p)
  resume (goes_on p) next = next p

  -- The loop, over what its calls of `pull` come back with: after these there is no message.
  unfoldable pub pass_over :
      Option Instant
      → List (Result PublishFault Delivery)
      → Pass
      → Result ReplayFault ReplayResult × Pass
  unfolding stop_reason take_turn
  pass_over expires [] p = (ending (stop_reason expires p) p, p)
  pass_over expires (pull ∷ rest) p =
      resume (take_turn (stop_reason expires p) pull p) (λ q. pass_over expires rest q)

  abbrev pub expiry : Option Duration → Option Instant
  expiry none = none
  expiry (some deadline) = some (s.clock [] +ℤ deadline)

  -- `replay`
  unfoldable pub replay :
      List (Result PublishFault Delivery) → Result ReplayFault ReplayResult × List ReplayEvent
  unfolding pass_over return_declined
  replay pulls =
      let (result, p) = pass_over (expiry s.deadline) pulls new_pass in
      if str_eq s.queue ""
      then (err no_queue, [])
      else if ltb_ℤ s.return_wait zero_duration
      then (err negative_wait, [])
      else (result, return_declined p.declined p.trace)
