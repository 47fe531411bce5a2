-- ===== src/Publisher/Tests.antt =====
-- Publishes over a connection that lets two be outstanding.
use acemq_python_amqp.Prelude.{
  ℕ, suc, ◌+◌, ◌≤◌, ◌≡◌, ◌↔◌, refl, arith, true, some, none, List, [], ◌∷◌, map, length, Result, ok,
  err,
}
use acemq_python_amqp.Prelude.Int.{pos}
use acemq_python_amqp.Retry.{Duration}
use acemq_python_amqp.Ack.{ordinary}
use acemq_python_amqp.Envelope.Tests.{plain, order}
use acemq_python_amqp.Publisher.Outstanding.{
  PublishResult, PublishFault, declined, raised, cancelled, Request, Weather, Wording, Reply, Gate,
  called, writing, granted, answered, silent, look, take_permit, open_gate,
}
use acemq_python_amqp.Publisher.Interleaved.{
  Task, here, there, is_called, looks, is_granted, Reach, start, then_moves, IsBalanced,
  Reach-IsBalanced,
}
use acemq_python_amqp.Publisher.Answered.{heard, all_answered}
use acemq_python_amqp.Publisher.Sending.{PublishContext, Publisher, send_encoded}
use acemq_python_amqp.Publisher.Recorded.{IsRecorded, send_encoded-IsRecorded}
use acemq_python_amqp.Publisher.Batch.{Tally, arrived, lost, batch_error, send_all, send_all_lem}

abbrev pub english : Wording
english = record { repr = λ s. s; str_of_nat = λ n. "2"; str_of_timedelta = λ d. "0:00:10" }

abbrev ten_seconds : Duration
ten_seconds = pos 10000000

abbrev about_order : Request
about_order = record { message_id = "m-1"; exchange = "shop"; routing_key = "order.placed" }

abbrev pub stored : PublishResult
stored = record { message_id = "m-1"; confirmed = true; routed = true; return_reason = "" }

abbrev clear : Weather
clear = record { blocked = none; blocked_reason = none; permit = granted; reply = answered stored }

-- One publish writes; a second has been called.
abbrev first_writes : Gate
first_writes = record { max_outstanding = 2; permits = 1; in_flight = 1 }

abbrev two_publishes : List Task
two_publishes =
    record { request = about_order; stage = writing }
    ∷ record { request = about_order; stage = called }
    ∷ []

interleaving : Reach english ten_seconds (open_gate 2) [] first_writes two_publishes
unfolding look take_permit
interleaving =
    then_moves
      (then_moves
        (then_moves (then_moves start (is_called about_order)) (here (looks none none refl)))
        (here (is_granted (omega arith) refl)))
      (there (is_called about_order))

Reach-IsBalanced_example :
    IsBalanced english ten_seconds 2 first_writes two_publishes × (first_writes.in_flight ≤ 2)
Reach-IsBalanced_example =
    Reach-IsBalanced english ten_seconds 2 first_writes two_publishes interleaving

abbrev no_answer : Request → Reply
no_answer r = silent

all_answered_example :
    Reach english ten_seconds first_writes two_publishes
      (open_gate 2)
      (map (heard english ten_seconds no_answer 2) two_publishes)
all_answered_example =
    all_answered english ten_seconds no_answer 2 first_writes two_publishes (omega arith)
      interleaving

abbrev pub shop : Publisher ℕ
shop = record {
  exchange = "shop";
  routing_key = "order.placed";
  persistent = true;
  mandatory = true;
  content_type = "application/json";
  origin = "checkout";
  max_outstanding = 2;
  confirm_timeout = ten_seconds;
  py = plain;
  words = english;
  encode = λ t n. ok (n ∷ []);
  weather = λ t. clear;
  interceptors = λ t. [];
  fresh_id = λ t. "m-1";
  now = λ t. pos 0;
}

abbrev one_order : PublishContext ℕ
one_order = record {
  exchange = "shop";
  routing_key = "order.placed";
  envelope = order;
  payload = 7;
  persistent = true;
  mandatory = true;
  reply_to = "";
}

send_encoded-IsRecorded_example :
    let (result, left) = send_encoded shop (one_order, []) in IsRecorded true result [] left.1
send_encoded-IsRecorded_example = send_encoded-IsRecorded shop one_order []

abbrev timed_out : PublishFault
timed_out = raised (record { kind = ordinary; name = "TimeoutError"; text = "" })

send_all_lem_example :
    let batch = ok stored ∷ err timed_out ∷ err cancelled ∷ ok stored ∷ [] in
    let tally : Tally = record {
      results = stored ∷ arrived (err cancelled ∷ ok stored ∷ []);
      first_failure = some timed_out;
      failed = suc (lost (err cancelled ∷ ok stored ∷ []));
    } in
    ((send_all english "shop" "order.placed" (ok stored ∷ []) ≡ ok (stored ∷ []))
      ↔ (◌≡◌ {A = List (Result PublishFault PublishResult)} (ok stored ∷ []) (ok stored ∷ [])))
    × (send_all english "shop" "order.placed" batch
        ≡ err (declined (batch_error english "shop" "order.placed" 4 tally timed_out)))
    × (4 ≡ tally.failed + length tally.results)
send_all_lem_example =
    send_all_lem english "shop" "order.placed" (ok stored ∷ []) (stored ∷ []) (stored ∷ [])
      timed_out (err cancelled ∷ ok stored ∷ [])
