-- ===== src/Patterns/Scheduler/Kept.antt =====
-- scheduler.py: a message that has left the control queue is in another one.
use acemq_python_amqp.Prelude.{
  suc, ◌≡◌, ◌⊎◌, refl, ap, Bool-cases, true, false, Option, Option-cases, none, some, List, [], ◌∷◌,
  Result, ok, err, arith, inl, inr,
}
use acemq_python_amqp.Prelude.Int.{ℤ, pos, ltb_ℤ, ◌≤ℤ◌, ◌-ℤ◌}
use acemq_python_amqp.Dict.{Dict, get}
use acemq_python_amqp.Headers.{HeaderValue, Interpreter, or_absent, text_of}
use acemq_python_amqp.Envelope.{Instant}
use acemq_python_amqp.Retry.{Duration}
use acemq_python_amqp.Ack.{Ack, Action, Failure}
use acemq_python_amqp.Ack.Answers as answers
use acemq_python_amqp.Consumer.Effects.{Bytes}
use acemq_python_amqp.Patterns.Scheduler.{
  Sent, Scheduler, send, hop, after_delivery, deliver, route, forward_at, forward_due, forward,
  unscheduled, routed, due_at_header, shortest_rung, schedule_rungs, schedule_rung_name, first_rung,
  number, or_json,
}
use acemq_python_amqp.Patterns.Scheduler.Ladder.{NoneBetween, first_rung_longest}

-- The message on a rung of the ladder, with its body and its headers.
abbrev pub on_rung : Interpreter → Bytes → Dict HeaderValue → Duration → Sent
on_rung py body headers rung = record {
  exchange = "acemq.schedule";
  routing_key = schedule_rung_name py rung;
  content_type = "application/octet-stream";
  body = body;
  headers = headers;
}

-- The message at its target, with its body and none of the headers.
abbrev pub for_target : Interpreter → Bytes → Dict HeaderValue → Sent
for_target py body headers = record {
  exchange = text_of py (or_absent (get "x-schedule-exchange" headers));
  routing_key = text_of py (or_absent (get "x-schedule-routing-key" headers));
  content_type = or_json (text_of py (or_absent (get "x-schedule-content-type" headers)));
  body = body;
  headers = [];
}

module _ (py : Interpreter) (now : Instant) (body : Bytes) (headers : Dict HeaderValue)
    (s s' : Scheduler) where
  -- It is not due for a second: it waits on the longest rung that does not overshoot.
  abbrev pub Waits : Instant → Type 0
  Waits when =
      (rung : Duration) × (pos 1000000 ≤ℤ rung)
      × (rung ≤ℤ when -ℤ now)
      × NoneBetween rung (when -ℤ now) schedule_rungs
      × (s'.sent ≡ (on_rung py body headers rung, none) ∷ s.sent)
      × (s'.delivered ≡ s.delivered)

  -- It is due: it is at its target, or, where that raised, on the rung of ten seconds.
  abbrev pub IsAtTarget : Type 0
  IsAtTarget =
      (s'.sent ≡ (for_target py body headers, none) ∷ s.sent) × (s'.delivered ≡ suc s.delivered)

  abbrev pub TriesAgain : Type 0
  TriesAgain =
      (failure : Failure) × (s'.sent
        ≡ (on_rung py body headers (pos 10000000), none)
          ∷ (for_target py body headers, some failure)
          ∷ s.sent)
      × (s'.delivered ≡ s.delivered)

  abbrev pub MovedAt : Instant → Type 0
  MovedAt when =
      ((ltb_ℤ (when -ℤ now) (pos 1000000) ≡ false) × Waits when)
      ⊎ ((ltb_ℤ (when -ℤ now) (pos 1000000) ≡ true) × (IsAtTarget ⊎ TriesAgain))

  -- Where the message is, by the instant that its header names.
  abbrev pub Moved : Type 0
  Moved =
      (millis : ℤ) × (when : Instant) × (number py (or_absent (get "x-schedule-due-at" headers))
        ≡ ok millis)
      × (py.from_millis millis ≡ some when)
      × MovedAt when

-- An answer that acknowledges the message on the control queue.
abbrev pub Accepts : Result Failure Ack → Type 0
Accepts (ok decision) = decision.action ≡ Action.accept
Accepts (err failure) = ⊥

abbrev Done : Result Failure Unit → Type 0
Done (ok done) = Unit {0}
Done (err failure) = ⊥

routed-Done : (r : Result Failure Unit) → Accepts (routed r) → Done r
unfolding answers.in_progress
routed-Done (ok done) a = tt
routed-Done (err failure) a = absurd (ground arith)

module _ (py : Interpreter) (now : Instant)
    (publish : List (Sent × Option Failure) → Sent → Option Failure) (body : Bytes)
    (headers : Dict HeaderValue) where
  send_lem :
      (m : Sent) (s : Scheduler)
      → Done (send py now publish m s).0
      → (send py now publish m s).1 ≡ record s { sent = (m, none) ∷ s.sent }
  unfolding send
  send_lem m s done = elim (Option-cases (publish s.sent m)) [
    | inl came_back ↦ rw came_back refl
    | inr (failure, e) ↦ absurd (rw e at done)
  ]

  pub hop_lem :
      (rung : Duration) (s : Scheduler)
      → Done (hop py now publish body headers rung s).0
      → (hop py now publish body headers rung s).1
        ≡ record s { hops = suc s.hops; sent = (on_rung py body headers rung, none) ∷ s.sent }
  unfolding hop
  hop_lem rung s done =
      send_lem (on_rung py body headers rung) (record s { hops = suc s.hops }) done

  deliver_lem :
      (s : Scheduler)
      → Done (deliver py now publish body headers s).0
      → let s' = (deliver py now publish body headers s).1 in
        IsAtTarget py now body headers s s' ⊎ TriesAgain py now body headers s s'
  unfolding deliver send after_delivery
  deliver_lem s done = elim (Option-cases (publish s.sent (for_target py body headers))) [
    | inl came_back ↦ inl (rw came_back (refl, refl))
    | inr (failure, e) ↦
        let tried : Scheduler = record s {
          sent = (for_target py body headers, some failure) ∷ s.sent;
        } in
        let there = hop_lem (pos 10000000) tried (rw e at done) in
        inr (
          rw e (
            failure,
            ap (λ (z : Scheduler). z.sent) there,
            ap (λ (z : Scheduler). z.delivered) there,
          ))
  ]

  route-MovedAt :
      (when : Instant) (s : Scheduler)
      → Done (route py now publish body headers when s).0
      → MovedAt py now body headers s (route py now publish body headers when s).1 when
  unfolding route
  route-MovedAt when s done = elim (Bool-cases (ltb_ℤ (when -ℤ now) shortest_rung)) [
    | inl due ↦ rw due (inr (refl, deliver_lem s (rw due at done)))
    | inr early ↦
        let rung = first_rung schedule_rungs (when -ℤ now) in
        let (least, fits, none_between) = first_rung_longest (when -ℤ now) (ground arith) in
        let there = hop_lem rung s (rw early at done) in
        rw early (
          inl (
            refl,
            (
              rung,
              least,
              fits,
              none_between,
              ap (λ (z : Scheduler). z.sent) there,
              ap (λ (z : Scheduler). z.delivered) there,
            ),
          ))
  ]

  forward_at-MovedAt :
      (found : Option Instant) (s : Scheduler)
      → Accepts (forward_at py now publish found body headers s).0
      → (when : Instant) × (found ≡ some when)
        × MovedAt py now body headers s (forward_at py now publish found body headers s).1 when
  unfolding forward_at
  forward_at-MovedAt none s a = absurd a
  forward_at-MovedAt (some when) s a = (when, refl, route-MovedAt when s (routed-Done _ a))

  forward_due-Moved :
      (due : Result Failure ℤ) (s : Scheduler)
      → number py (or_absent (get due_at_header headers)) ≡ due
      → Accepts (forward_due py now publish due body headers s).0
      → Moved py now body headers s (forward_due py now publish due body headers s).1
  unfolding forward_due answers.reject
  forward_due-Moved (ok millis) s e a =
      let (when, found, moved) = forward_at-MovedAt (py.from_millis millis) s a in
      (millis, when, e, found, moved)
  forward_due-Moved (err failure) s e a = absurd (ground arith)

  -- Whenever the scheduler accepts a message from its control queue, its header names an instant, and
  -- the last thing published came back from the broker: where the instant is a second away or more,
  -- the message with its headers, on the longest rung of the ladder that is no longer than what
  -- remains, and nothing else was published; otherwise the message without them, at the exchange and
  -- the routing key that its headers name, and it is counted as delivered; or, where that publish
  -- raised, the message with its headers on the rung of ten seconds, and it is not.
  pub forward-Moved :
      (s : Scheduler)
      → Accepts (forward py now publish body headers s).0
      → Moved py now body headers s (forward py now publish body headers s).1
  unfolding forward answers.reject
  forward-Moved s a = elim (Bool-cases (unscheduled headers)) [
    | inl foreign ↦ absurd (ground (arith, rw foreign at a))
    | inr ours ↦ rw ours (
        forward_due-Moved (number py (or_absent (get due_at_header headers))) s refl (rw ours at a))
  ]
