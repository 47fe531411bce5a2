-- ===== src/Patterns/Outbox/Tests.antt =====
-- outbox.py at a store of two records, with a broker that refuses the second.
use acemq_python_amqp.Prelude.{
  ◌<◌, ◌≤◌, ◌++◌, ◌⊎◌, Bool, length, String, ◌≡◌, refl, List, [], ◌∷◌, ok, inl, str_eq,
  if◌then◌else◌,
}
use acemq_python_amqp.Prelude.Int.{pos}
use acemq_python_amqp.Dict.{get, put}
use acemq_python_amqp.Ack.{ordinary}
use acemq_python_amqp.Patterns.Outbox.{
  OutboxRecord, OutboxStore, Published, confirmed, failed, set_default, add, pending, sweep,
}
use acemq_python_amqp.Patterns.Outbox.Order.{
  Sorted, Each, Tried, count_of, count_live, pending-Sorted,
}
use acemq_python_amqp.Patterns.Outbox.Store.{add_twice}
use acemq_python_amqp.Patterns.Outbox.Sweep.{Kept, sweep-Kept}

abbrev entry : String → OutboxRecord
entry id = record {
  id = id;
  exchange = "";
  routing_key = "orders";
  body = [];
  content_type = "application/json";
  headers = [];
  created_at = pos 0;
  attempts = 0;
  last_error = "";
}

abbrev one_record : OutboxStore
one_record = record { max_attempts = 10; records = ("a", entry "a") ∷ [] }

abbrev two_records : OutboxStore
two_records = record { max_attempts = 10; records = ("a", entry "a") ∷ ("b", entry "b") ∷ [] }

abbrev refuses_b : List (OutboxRecord × Published) → OutboxRecord → Published
refuses_b sent message =
    if str_eq message.id "b"
    then failed (record { kind = ordinary; name = "PublishError"; text = "no queue is bound" })
    else confirmed

b_added : add (entry "b") one_record ≡ ok two_records
unfolding add set_default get put
b_added = refl

add_twice_example : add (record (entry "b") { routing_key = "bills" }) two_records ≡ ok two_records
add_twice_example =
    add_twice (entry "b") (record (entry "b") { routing_key = "bills" }) one_record two_records refl
      b_added

sweep-Kept_example : Kept "b" (sweep refuses_b 100 (record { store = two_records; sent = [] })).1
sweep-Kept_example =
    sweep-Kept refuses_b "b" 100 (record { store = two_records; sent = [] })
      (inl (entry "b", unfold get in refl))

pending-Sorted_example :
    (others : List OutboxRecord) × Sorted (pending 1 two_records ++ others)
    × Each (Tried 10) (pending 1 two_records ++ others)
    × ((is : OutboxRecord → Bool)
        → count_of is (pending 1 two_records ++ others) ≡ count_live is 10 two_records.records)
    × (0 < 1 → length (pending 1 two_records) ≤ 1)
    × ((others ≡ []) ⊎ ((0 < 1) × (length (pending 1 two_records) ≡ 1)))
pending-Sorted_example = pending-Sorted 1 two_records
