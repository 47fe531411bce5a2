-- ===== src/Patterns/Idempotency.antt =====
-- patterns/idempotency.py: the store that remembers keys in this process, and the guard around a
-- handler.
pub mod Window
pub mod Guard
mod Tests
use acemq_python_amqp.Prelude.{
  ℕ, String, Bool, true, false, Option, none, some, List, [], ◌∷◌, Result, ok, err, concat,
  if◌then◌else◌, length, str_eq,
}
use acemq_python_amqp.Prelude.Int.{leb_ℤ, ltb_ℤ, ◌-ℤ◌}
use acemq_python_amqp.Dict.{Dict, get, put, pop}
use acemq_python_amqp.Envelope.{Instant}
use acemq_python_amqp.Retry.{Duration, zero_duration}
use acemq_python_amqp.Ack.{Ack, Action, Failure, fatal}
use acemq_python_amqp.Ack.Answers as answers
use acemq_python_amqp.Consumer.Effects.{Message}

pub data Claim : Type 0 where
  claimed duplicate in_progress : Claim

-- When a key was claimed, and whether that claim became a fact.
pub record Held : Type 0 where
  pub claimed_at : Instant
  pub confirmed : Bool

-- `InMemoryIdempotencyStore`
pub record Memory : Type 0 where
  pub ttl : Duration
  pub seen : Dict Held

-- The ValueError of `__init__`.
pub data WindowError : Type 0 where
  not_positive : Duration → WindowError

unfoldable pub new_memory : Duration → Result WindowError Memory
new_memory ttl =
    if leb_ℤ ttl zero_duration then err (not_positive ttl) else ok (record { ttl = ttl; seen = [] })

-- The loop of `_sweep`: from the front, up to the first key that is younger than the cutoff.
unfoldable pub sweep_seen : Instant → Dict Held → Dict Held
sweep_seen cutoff [] = []
sweep_seen cutoff ((oldest, held) ∷ rest) =
    let swept = sweep_seen cutoff rest in
    if ltb_ℤ cutoff held.claimed_at then (oldest, held) ∷ rest else swept

-- `_sweep`
unfoldable pub sweep : Instant → Memory → Memory
sweep now s = record s { seen = sweep_seen (now -ℤ s.ttl) s.seen }

-- What `claim` does once the store is swept.
unfoldable pub claim_swept : Option Held → String → Instant → Memory → Claim × Memory
claim_swept none key now s = (
  Claim.claimed,
  record s { seen = put key (record { claimed_at = now; confirmed = false }) s.seen },
)
claim_swept (some held) key now s =
    (if held.confirmed then Claim.duplicate else Claim.in_progress, s)

unfoldable pub claim : String → Instant → Memory → Claim × Memory
claim key now s = let swept = sweep now s in claim_swept (get key swept.seen) key now swept

abbrev pub is_claimed : Claim → Bool
is_claimed Claim.claimed = true
is_claimed _ = false

unfoldable pub first_time : String → Instant → Memory → Bool × Memory
first_time key now s = let (answer, s') = claim key now s in (is_claimed answer, s')

unfoldable pub confirm_held : Option Held → String → Memory → Memory
confirm_held none key s = s
confirm_held (some held) key s = record s {
  seen = put key (record held { confirmed = true }) s.seen;
}

unfoldable pub confirm : String → Memory → Memory
confirm key s = confirm_held (get key s.seen) key s

unfoldable pub forget : String → Memory → Memory
forget key s = record s { seen = pop key s.seen }

-- `__len__`
unfoldable pub remembered : Memory → ℕ
remembered s = length s.seen

-- A call that may raise, over a state `W` that the store and the handler share.
abbrev pub Call : Type 0 → Type 0 → Type 0
Call W A = W → Result Failure A × W

-- A store as the guard finds it: `claim` and `confirm` are there or are not.
pub record Store (W : Type 0) : Type 0 where
  pub first_time : String → Call W Bool
  pub forget : String → Call W Unit
  pub claim : Option (String → Call W Claim)
  pub confirm : Option (String → Call W Unit)

-- `identity = message.envelope.id if key is None else key(message)`
abbrev pub identity : {P : Type 0} → Option (Message P → String) → Message P → String
identity none message = message.envelope.id
identity (some key) message = key message

module _ {W : Type 0} (store : Store W) where
  abbrev pub claim_of_first : Result Failure Bool → Result Failure Claim
  claim_of_first (ok true) = ok Claim.claimed
  claim_of_first (ok false) = ok Claim.duplicate
  claim_of_first (err failure) = err failure

  -- `_claim`
  unfoldable pub ask : Option (String → Call W Claim) → String → Call W Claim
  ask (some three_way) key w = three_way key w
  ask none key w = let (answer, w') = store.first_time key w in (claim_of_first answer, w')

  -- `_confirm_quietly` and `_forget_quietly`: what the store raises is logged.
  unfoldable pub confirm_quietly : Option (String → Call W Unit) → String → W → W
  confirm_quietly (some tell) key w = (tell key w).1
  confirm_quietly none key w = w

  unfoldable pub forget_quietly : String → W → W
  forget_quietly key w = (store.forget key w).1

  -- `guarded`, once the handler has decided or raised.
  unfoldable pub release : String → Result Failure Ack → W → W
  release key (err failure) w = forget_quietly key w
  release key (ok decision) w = elim decision.action [
    | Action.accept ↦ confirm_quietly store.confirm key w
    | _ ↦ forget_quietly key w
  ]

  module _ {P : Type 0} (handler : Message P → Call W Ack) (delay : Duration) where
    unfoldable pub run_claimed : String → Message P → Call W Ack
    run_claimed key message w =
        let (decision, w') = handler message w in (decision, release key decision w')

    -- `guarded`, once the store has answered.
    unfoldable pub answer_claim : Result Failure Claim → String → Message P → Call W Ack
    answer_claim (err failure) key message w = (ok (answers.retry (some failure)), w)
    answer_claim (ok Claim.duplicate) key message w = (ok answers.accept, w)
    answer_claim (ok Claim.in_progress) key message w = (ok (answers.in_progress delay), w)
    answer_claim (ok Claim.claimed) key message w = run_claimed key message w

    abbrev pub empty_key : Message P → Failure
    empty_key message = record {
      kind = fatal;
      name = "FatalError";
      text =
          concat
            ("acemq: message " ∷ message.envelope.id ∷ " produced an empty idempotency key" ∷ []);
    }

    unfoldable pub guard_key : String → Message P → Call W Ack
    guard_key key message w =
        let (answer, w') = ask store.claim key w in
        let guarded = answer_claim answer key message w' in
        if str_eq key "" then (ok (answers.reject (some (empty_key message))), w) else guarded

    -- `guarded`
    unfoldable pub guarded : Option (Message P → String) → Message P → Call W Ack
    guarded key message w = guard_key (identity key message) message w
