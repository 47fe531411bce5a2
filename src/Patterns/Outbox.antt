-- ===== src/Patterns/Outbox.antt =====
-- patterns/outbox.py: the store in this process, and a sweep of the relay.
pub mod Store
pub mod Sweep
pub mod Order
mod Tests
use acemq_python_amqp.Prelude.{
  ℕ, suc, ◌+◌, String, Bool, true, false, Option, none, some, List, [], ◌∷◌, Result, ok, err,
  if◌then◌else◌, length, take, ltb, leb, str_eq, ◌==◌,
}
use acemq_python_amqp.Prelude.Int.{ltb_ℤ, leb_ℤ}
use acemq_python_amqp.Dict.{Dict, get, put, pop}
use acemq_python_amqp.Headers.{HeaderValue}
use acemq_python_amqp.Envelope.{Instant}
use acemq_python_amqp.Ack.{Failure}
use acemq_python_amqp.Consumer.Effects.{Bytes}

pub record OutboxRecord : Type 0 where
  pub id : String
  pub exchange : String
  pub routing_key : String
  pub body : Bytes
  pub content_type : String
  pub headers : Dict HeaderValue
  pub created_at : Instant
  pub attempts : ℕ
  pub last_error : String

-- `InMemoryOutboxStore`
pub record OutboxStore : Type 0 where
  pub max_attempts : ℕ
  pub records : Dict OutboxRecord

-- The ValueErrors of `__init__` and `add`.
pub data OutboxError : Type 0 where
  no_attempts needs_id : OutboxError

unfoldable pub new_store : ℕ → Result OutboxError OutboxStore
new_store max_attempts =
    if ltb max_attempts 1
    then err no_attempts
    else ok (record { max_attempts = max_attempts; records = [] })

-- `setdefault`: a record that is there is kept.
unfoldable pub set_default : Option OutboxRecord → OutboxRecord → OutboxStore → OutboxStore
set_default none entry s = record s { records = put entry.id entry s.records }
set_default (some kept) entry s = s

unfoldable pub add : OutboxRecord → OutboxStore → Result OutboxError OutboxStore
add entry s =
    if str_eq entry.id "" then err needs_id else ok (set_default (get entry.id s.records) entry s)

-- `sorted(…, key=created_at)`: an entry goes before the first one that is later than it.
unfoldable pub insert : OutboxRecord → List OutboxRecord → List OutboxRecord
insert entry [] = entry ∷ []
insert entry (first ∷ rest) =
    let placed = insert entry rest in
    if leb_ℤ entry.created_at first.created_at then entry ∷ first ∷ rest else first ∷ placed

unfoldable pub by_age : List OutboxRecord → List OutboxRecord
by_age [] = []
by_age (entry ∷ rest) = insert entry (by_age rest)

-- The generator of `pending`.
unfoldable pub waiting : ℕ → Dict OutboxRecord → List OutboxRecord
waiting max_attempts [] = []
waiting max_attempts ((id, entry) ∷ rest) =
    let others = waiting max_attempts rest in
    if ltb entry.attempts max_attempts then entry ∷ others else others

unfoldable pub pending : ℕ → OutboxStore → List OutboxRecord
pending limit s =
    let sorted = by_age (waiting s.max_attempts s.records) in
    if ltb 0 limit then take limit sorted else sorted

unfoldable pub mark_published : String → OutboxStore → OutboxStore
mark_published id s = record s { records = pop id s.records }

unfoldable pub count_failure : Option OutboxRecord → String → String → OutboxStore → OutboxStore
count_failure none id error s = s
count_failure (some entry) id error s = record s {
  records = put id (record entry { attempts = suc entry.attempts; last_error = error }) s.records;
}

unfoldable pub record_failure : String → String → OutboxStore → OutboxStore
record_failure id error s = count_failure (get id s.records) id error s

unfoldable pub retired_of : ℕ → Dict OutboxRecord → List OutboxRecord
retired_of max_attempts [] = []
retired_of max_attempts ((id, entry) ∷ rest) =
    let others = retired_of max_attempts rest in
    if leb max_attempts entry.attempts then entry ∷ others else others

unfoldable pub retired : OutboxStore → List OutboxRecord
retired s = retired_of s.max_attempts s.records

-- `__len__`
unfoldable pub held : OutboxStore → ℕ
held s = length s.records

-- What a mandatory publish of a record comes back with: routed, or an exception, which an unroutable
-- message is turned into.
pub data Published : Type 0 where
  confirmed : Published
  failed : Failure → Published

-- `str(failure) or failure.__class__.__name__`
abbrev pub text_or_name : Failure → String
text_or_name failure = if str_eq failure.text "" then failure.name else failure.text

-- The store, and what has been published, the latest first.
pub record Relay : Type 0 where
  pub store : OutboxStore
  pub sent : List (OutboxRecord × Published)

-- `published += 1`
abbrev pub one_more : Result Failure ℕ × Relay → Result Failure ℕ × Relay
one_more (ok n, r) = (ok (suc n), r)
one_more (err failure, r) = (err failure, r)

-- `raise`, or the next turn of the loop.
unfoldable pub go_on :
    Result Failure Unit → Result Failure ℕ × Relay → Relay → Result Failure ℕ × Relay
go_on (ok done) swept r = one_more swept
go_on (err failure) swept r = (err failure, r)

module _ (publish : List (OutboxRecord × Published) → OutboxRecord → Published) where
  -- One turn of the loop of `sweep`.
  unfoldable pub after_publish : Published → OutboxRecord → Relay → Result Failure Unit × Relay
  after_publish confirmed entry r = (ok tt, record r { store = mark_published entry.id r.store })
  after_publish (failed failure) entry r =
      (err failure, record r { store = record_failure entry.id (text_or_name failure) r.store })

  unfoldable pub publish_entry : OutboxRecord → Relay → Result Failure Unit × Relay
  publish_entry entry r =
      let answer = publish r.sent entry in
      after_publish answer entry (record r { sent = (entry, answer) ∷ r.sent })

  -- The loop of `sweep`: it stops at the first record that fails, and raises what it failed with.
  unfoldable pub sweep_entries : List OutboxRecord → Relay → Result Failure ℕ × Relay
  sweep_entries [] r = (ok 0, r)
  sweep_entries (entry ∷ rest) r =
      let (returned, r') = publish_entry entry r in
      let swept = sweep_entries rest r' in go_on returned swept r'

  -- `sweep`
  unfoldable pub sweep : ℕ → Relay → Result Failure ℕ × Relay
  sweep batch r = sweep_entries (pending batch r.store) r
