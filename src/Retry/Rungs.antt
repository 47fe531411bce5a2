-- ===== src/Retry/Rungs.antt =====
-- retry.py: `broker_rungs`, the waits that a policy needs a queue for.
use acemq_python_amqp.Prelude.{
  ℕ, zero, suc, ◌≡◌, ◌↔◌, ap, refl, Bool-cases, true, false, ◌||◌, ◌&&◌, some, List, [], ◌∷◌, ◌++◌,
  ok, get_elem?, arith, inl, inr,
}
use acemq_python_amqp.Prelude.Int.{eqb_ℤ, eq_of_parts}
use acemq_python_amqp.Retry.{
  Duration, FloatTime, RetryPolicy, waits_in_broker, contains, from_keys, broker_waits, schedule,
  broker_rungs,
}

contains_congr :
    (c d : Duration) (l : List Duration) → eqb_ℤ c d ≡ true → contains c l ≡ contains d l
contains_congr c d l e = rw (eq_of_parts c d (ground arith))

contains-append :
    (d : Duration) (xs ys : List Duration)
    → contains d (xs ++ ys) ≡ (contains d xs || contains d ys)
contains-append d [] ys = refl
contains-append d (x ∷ xs) ys = ground (arith, contains-append d xs ys)

contains-from_keys :
    (d : Duration) (seen ds : List Duration)
    → contains d (from_keys seen ds) ≡ (contains d seen || contains d ds)
unfolding from_keys
contains-from_keys d seen [] = ground arith
contains-from_keys d seen (x ∷ ds) = elim (Bool-cases (contains x seen)) [
  | inl old ↦ rw old (ground (arith, contains-from_keys d seen ds, contains_congr d x seen))
  | inr new ↦
      rw new
        (ground (arith, contains-from_keys d (seen ++ x ∷ []) ds, contains-append d seen (x ∷ [])))
]

module _ (ft : FloatTime) (p : RetryPolicy ft.Float) where
  broker_waits-true :
      (x : Duration) (ds : List Duration)
      → waits_in_broker p x ≡ true
      → broker_waits ft p (x ∷ ds) ≡ x ∷ broker_waits ft p ds
  unfolding broker_waits
  broker_waits-true x ds w = rw w

  broker_waits-false :
      (x : Duration) (ds : List Duration)
      → waits_in_broker p x ≡ false
      → broker_waits ft p (x ∷ ds) ≡ broker_waits ft p ds
  unfolding broker_waits
  broker_waits-false x ds w = rw w

  waits_congr : (d x : Duration) → eqb_ℤ d x ≡ true → waits_in_broker p d ≡ waits_in_broker p x
  waits_congr d x e = ap (waits_in_broker p) (eq_of_parts d x (ground arith))

  -- `waits_in_broker` stays shut here.
  contains-broker_waits :
      (ds : List Duration) (d : Duration)
      → contains d (broker_waits ft p ds) ≡ (waits_in_broker p d && contains d ds)
  contains-broker_waits [] d = unfold broker_waits in ground arith
  contains-broker_waits (x ∷ ds) d = elim (Bool-cases (waits_in_broker p x)) [
    | inl w ↦
        rw (broker_waits-true x ds w) (ground (arith, contains-broker_waits ds d, waits_congr d x))
    | inr w ↦
        rw (broker_waits-false x ds w) (ground (arith, contains-broker_waits ds d, waits_congr d x))
  ]

-- A list without repeats.
abbrev pub Distinct : List Duration → Type 0
Distinct [] = Unit {0}
Distinct (d ∷ ds) = (contains d ds ≡ false) × Distinct ds

Distinct-append :
    (d : Duration) (xs : List Duration)
    → Distinct xs
    → contains d xs ≡ false
    → Distinct (xs ++ d ∷ [])
Distinct-append d [] h new = (refl, tt)
Distinct-append d (x ∷ xs) h new =
    (rw contains-append (ground arith), Distinct-append d xs h.1 (ground arith))

Distinct-from_keys : (seen ds : List Duration) → Distinct seen → Distinct (from_keys seen ds)
unfolding from_keys
Distinct-from_keys seen [] h = h
Distinct-from_keys seen (d ∷ ds) h = elim (Bool-cases (contains d seen)) [
  | inl old ↦ rw old (Distinct-from_keys seen ds h)
  | inr new ↦ rw new (Distinct-from_keys (seen ++ d ∷ []) ds (Distinct-append d seen h new))
]

-- The rungs are the entries of `schedule` that wait in the broker, each of them once.
pub broker_rungs-exact :
    (ft : FloatTime) (p : RetryPolicy ft.Float) (ds rungs : List Duration)
    → schedule ft p ≡ ok ds
    → broker_rungs ft p ≡ ok rungs
    → Distinct rungs
      × ((d : Duration)
          → (contains d rungs ≡ true) ↔ ((waits_in_broker p d ≡ true) × (contains d ds ≡ true)))
unfolding broker_rungs
broker_rungs-exact ft p ds rungs h r =
    let e : from_keys [] (broker_waits ft p ds) ≡ rungs = cc (rw h at r) in
    (
      rw e at (Distinct-from_keys [] (broker_waits ft p ds) tt),
      λ d.
          let q = contains-from_keys d [] (broker_waits ft p ds) in
          rw (← e, q, contains-broker_waits ft p ds d) (ground arith, ground arith),
    )

pub contains-get_elem? :
    (ds : List Duration) (i : ℕ) (d : Duration) → get_elem? ds i ≡ some d → contains d ds ≡ true
contains-get_elem? [] i d at = cc
contains-get_elem? (x ∷ ds) zero d at = let e : x ≡ d = ground arith in rw e (ground arith)
contains-get_elem? (x ∷ ds) (suc i) d at = ground (arith, contains-get_elem? ds i d at)
