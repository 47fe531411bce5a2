-- ===== src/Topology/Failures.antt =====
-- topology.py: a consumer has declared every queue that it sends its failures to.
use acemq_python_amqp.Prelude.{
  ◌≡◌, ◌⊎◌, inl, inr, refl, ap, sym, arith, String, true, Bool-cases, Option, some, none, List, [],
  ◌∷◌, ◌++◌, map, ok, str_eq, eq_iff,
}
use mathlib.Core.Path.{subst}
use acemq_python_amqp.Prelude.Int.{ℤ, pos, eqb_ℤ, ◌≤ℤ◌, eq_of_parts}
use acemq_python_amqp.Dict.{Dict, get, get-put}
use acemq_python_amqp.Headers.{Interpreter}
use acemq_python_amqp.Retry.{
  Duration, FloatTime, RetryPolicy, Wait, contains, schedule, broker_rungs, next_wait,
}
use acemq_python_amqp.Retry.Schedule.{KeepsGrowing}
use acemq_python_amqp.Retry.Waits.{next_wait-in-broker_rungs}
use acemq_python_amqp.Naming.{dead_letter_queue, parked_queue, retry_queue}
use acemq_python_amqp.Topology.{
  retry_exchange, dead_letter_exchange, plain_queue, rung_args, managed_exchange, Declaration,
  exchange, queue, binding, rungs_of, set_rung, named_rungs, rung_declaration, declare_rungs,
  declare_where_failures_go,
}

abbrev pub Declares : Declaration → List Declaration → Type 0
Declares d [] = ⊥
Declares d (x ∷ xs) = (d ≡ x) ⊎ Declares d xs

Declares-append_left :
    (d : Declaration) (xs ys : List Declaration) → Declares d xs → Declares d (xs ++ ys)
Declares-append_left d (x ∷ xs) ys (inl e) = inl e
Declares-append_left d (x ∷ xs) ys (inr m) = inr (Declares-append_left d xs ys m)
Declares-append_left d [] ys m = absurd m

Declares-append_right :
    (d : Declaration) (xs ys : List Declaration) → Declares d ys → Declares d (xs ++ ys)
Declares-append_right d [] ys m = m
Declares-append_right d (x ∷ xs) ys m = inr (Declares-append_right d xs ys m)

module _ (py : Interpreter) (source : String) where
  -- Each rung has the name of its delay.
  abbrev OwnName : Option Duration → String → Type 0
  OwnName none name = Unit {0}
  OwnName (some delay) name = retry_queue py source delay ≡ name

  set_rung-kept :
      (found : Option Duration) (name k : String) (delay d : Duration) (rungs : Dict Duration)
      → get name rungs ≡ found
      → get k rungs ≡ some d
      → get k (set_rung found name delay rungs) ≡ some d
  unfolding set_rung
  set_rung-kept (some first) name k delay d rungs e there = there
  set_rung-kept none name k delay d rungs e there =
      ground (arith, get-put name k delay rungs, eq_iff k name)

  named_rungs-kept :
      (delays : List Duration) (k : String) (d : Duration) (rungs : Dict Duration)
      → get k rungs ≡ some d
      → get k (named_rungs py source delays rungs) ≡ some d
  unfolding named_rungs
  named_rungs-kept [] k d rungs there = there
  named_rungs-kept (delay ∷ rest) k d rungs there =
      let name = retry_queue py source delay in
      named_rungs-kept rest k d (set_rung (get name rungs) name delay rungs)
        (set_rung-kept (get name rungs) name k delay d rungs refl there)

  set_rung-named :
      (found : Option Duration) (delay : Duration) (rungs : Dict Duration)
      → let name = retry_queue py source delay in
        get name rungs ≡ found
        → ((k : String) → OwnName (get k rungs) k)
        → (k : String) → OwnName (get k (set_rung found name delay rungs)) k
  unfolding set_rung
  set_rung-named (some first) delay rungs e own k = own k
  set_rung-named none delay rungs e own k =
      let name = retry_queue py source delay in
      elim (Bool-cases (str_eq k name)) [
        | inl same ↦ rw (get-put name k delay rungs, same) (sym ((eq_iff k name).0 same))
        | inr other ↦ rw (get-put name k delay rungs, other) (own k)
      ]

  found_after :
      (found : Option Duration) (delay : Duration) (rungs : Dict Duration)
      → let name = retry_queue py source delay in
        get name rungs ≡ found
        → (d : Duration) × (get name (set_rung found name delay rungs) ≡ some d)
  unfolding set_rung
  found_after (some first) delay rungs e = (first, e)
  found_after none delay rungs e =
      let name = retry_queue py source delay in
      (delay, ground (arith, get-put name name delay rungs, eq_iff name name))

  -- Every delay has a rung under its name, whose own delay has that name too.
  rung_found :
      (delays : List Duration) (delay : Duration) (rungs : Dict Duration)
      → ((k : String) → OwnName (get k rungs) k)
      → contains delay delays ≡ true
      → (d : Duration) × (get (retry_queue py source delay) (named_rungs py source delays rungs)
          ≡ some d)
        × (retry_queue py source d ≡ retry_queue py source delay)
  unfolding named_rungs
  rung_found [] delay rungs own e = absurd (ground arith)
  rung_found (first ∷ rest) delay rungs own e =
      let name = retry_queue py source first in
      let next = set_rung (get name rungs) name first rungs in
      let own_next = set_rung-named (get name rungs) first rungs refl own in
      elim (Bool-cases (eqb_ℤ delay first)) [
        | inl same ↦
            let as_first : delay ≡ first = eq_of_parts delay first (ground arith) in
            let there = found_after (get name rungs) first rungs refl in
            rw as_first (
              there.0,
              named_rungs-kept rest name there.0 next there.1,
              subst (λ (o : Option Duration). OwnName o name) there.1 (own_next name),
            )
        | inr other ↦ rung_found rest delay next own_next (ground arith)
      ]

  rung_declared :
      (k : String) (d : Duration) (rungs : Dict Duration)
      → get k rungs ≡ some d
      → Declares (rung_declaration source (k, d)) (map (rung_declaration source) rungs)
  unfolding get
  rung_declared k d [] e = absurd (ground arith)
  rung_declared k d ((j, x) ∷ rungs) e = elim (Bool-cases (str_eq k j)) [
    | inl same ↦
        inl (rw ((eq_iff k j).0 same) (ap (λ y. rung_declaration source (j, y)) (ground arith)))
    | inr other ↦ inr (rung_declared k d rungs (ground arith))
  ]

  all_rungs_declared :
      (k : String) (d : Duration) (rungs : Dict Duration)
      → get k rungs ≡ some d
      → Declares (rung_declaration source (k, d)) (declare_rungs source rungs)
        × Declares (exchange retry_exchange managed_exchange) (declare_rungs source rungs)
        × Declares (binding source retry_exchange source) (declare_rungs source rungs)
  unfolding declare_rungs get
  all_rungs_declared k d [] e = absurd (ground arith)
  all_rungs_declared k d (first ∷ rest) e =
      let rungs = map (rung_declaration source) (first ∷ rest) in
      let home : List Declaration = binding source retry_exchange source ∷ [] in
      (
        inr (
            Declares-append_left (rung_declaration source (k, d)) rungs home
              (rung_declared k d (first ∷ rest) e)),
        inl refl,
        inr (Declares-append_right (binding source retry_exchange source) rungs home (inl refl)),
      )

module _ (ft : FloatTime) (py : Interpreter) (source : String) where
  unnamed : (k : String) → OwnName py source (get k []) k
  unfolding get
  unnamed k = tt

  -- A consumer of `source` that starts with `declare_where_failures_go` has declared every queue that
  -- it sends its failures to: the dead letters and the parking lot, each with a binding; and whenever
  -- the policy makes a message wait in the broker, after attempt 1 or later, the rung named after that
  -- wait, which sends its messages on to acemq.retry under the key `source` after the time of a delay
  -- of the same name, with the exchange and the binding that bring them back to `source`. The
  -- policy's delays stay past the ceiling once they are past it, and the arithmetic does not overflow.
  pub failures_declared :
      (p : RetryPolicy ft.Float) (random : ft.Float) (attempt : ℤ) (age : Duration)
      (ds rungs : List Duration) (w : Wait)
      → KeepsGrowing ft p
      → schedule ft p ≡ ok ds
      → broker_rungs ft p ≡ ok rungs
      → pos 1 ≤ℤ attempt
      → next_wait ft p random attempt age ≡ ok (some w)
      → w.in_broker ≡ true
      → (declared : List Declaration) × (declare_where_failures_go ft py source (some p)
          ≡ ok declared)
        × Declares (queue (dead_letter_queue source) (plain_queue true [])) declared
        × Declares
            (binding (dead_letter_queue source) dead_letter_exchange (dead_letter_queue source))
            declared
        × Declares (queue (parked_queue source) (plain_queue true [])) declared
        × Declares
            (binding (parked_queue source) dead_letter_exchange (parked_queue source))
            declared
        × ((delay : Duration) × (retry_queue py source delay ≡ retry_queue py source w.delay)
            × Declares
                (queue (retry_queue py source w.delay) (plain_queue true (rung_args source delay)))
                declared)
        × Declares (exchange retry_exchange managed_exchange) declared
        × Declares (binding source retry_exchange source) declared
  unfolding declare_where_failures_go rungs_of
  failures_declared p random attempt age ds rungs w grows hs hr one h inb =
      let held = next_wait-in-broker_rungs ft p random attempt age ds rungs grows hs hr one h inb in
      let found = rung_found py source rungs w.delay [] unnamed held in
      let name = retry_queue py source w.delay in
      let made =
        all_rungs_declared py source name found.0 (named_rungs py source rungs []) found.1 in
      (
        exchange dead_letter_exchange managed_exchange
            ∷ queue (dead_letter_queue source) (plain_queue true [])
            ∷ binding (dead_letter_queue source) dead_letter_exchange (dead_letter_queue source)
            ∷ queue (parked_queue source) (plain_queue true [])
            ∷ binding (parked_queue source) dead_letter_exchange (parked_queue source)
            ∷ declare_rungs source (named_rungs py source rungs []),
        rw hr refl,
        inr (inl refl),
        inr (inr (inl refl)),
        inr (inr (inr (inl refl))),
        inr (inr (inr (inr (inl refl)))),
        (found.0, found.2, inr (inr (inr (inr (inr made.0))))),
        inr (inr (inr (inr (inr made.1)))),
        inr (inr (inr (inr (inr made.2)))),
      )
