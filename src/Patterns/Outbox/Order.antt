-- ===== src/Patterns/Outbox/Order.antt =====
-- outbox.py: the order of the records that are waiting.
use acemq_python_amqp.Prelude.{
  ℕ, zero, suc, ◌≤◌, ◌<◌, Bool-cases, List, [], ◌∷◌, arith, inl, inr, length, take, ltb,
  length-take, ◌+◌, ◌++◌, ◌∙◌, ◌⊎◌, ◌≡◌, refl, Bool, true, false, if◌then◌else◌, append-nil,
}
use acemq_python_amqp.Prelude.Int.{◌≤ℤ◌, leb_ℤ}
use acemq_python_amqp.Dict.{Dict}
use acemq_python_amqp.Envelope.{Instant}
use acemq_python_amqp.Patterns.Outbox.{OutboxRecord, OutboxStore, insert, by_age, waiting, pending}

-- Each of the records is as `holds` says.
abbrev pub Each : (OutboxRecord → Type 0) → List OutboxRecord → Type 0
Each holds [] = Unit {0}
Each holds (entry ∷ rest) = holds entry × Each holds rest

abbrev pub NotBefore : Instant → OutboxRecord → Type 0
NotBefore t entry = t ≤ℤ entry.created_at

-- The oldest first.
abbrev pub Sorted : List OutboxRecord → Type 0
Sorted [] = Unit {0}
Sorted (entry ∷ rest) = Each (NotBefore entry.created_at) rest × Sorted rest

module _ (holds : OutboxRecord → Type 0) where
  insert-Each :
      (entry : OutboxRecord) (rest : List OutboxRecord)
      → holds entry
      → Each holds rest
      → Each holds (insert entry rest)
  unfolding insert
  insert-Each entry [] h a = (h, tt)
  insert-Each entry (first ∷ rest) h (f, a) =
      elim (Bool-cases (leb_ℤ entry.created_at first.created_at)) [
        | inl before ↦ rw before (h, (f, a))
        | inr later ↦ rw later (f, insert-Each entry rest h a)
      ]

  by_age-Each : (rest : List OutboxRecord) → Each holds rest → Each holds (by_age rest)
  unfolding by_age
  by_age-Each [] a = tt
  by_age-Each (entry ∷ rest) (h, a) = insert-Each entry (by_age rest) h (by_age-Each rest a)

  take-Each : (n : ℕ) (rest : List OutboxRecord) → Each holds rest → Each holds (take n rest)
  take-Each zero rest a = tt
  take-Each (suc n) [] a = tt
  take-Each (suc n) (entry ∷ rest) (h, a) = (h, take-Each n rest a)

NotBefore-trans :
    (s t : Instant) (rest : List OutboxRecord)
    → s ≤ℤ t
    → Each (NotBefore t) rest
    → Each (NotBefore s) rest
NotBefore-trans s t [] le a = tt
NotBefore-trans s t (entry ∷ rest) le (h, a) = (omega arith, NotBefore-trans s t rest le a)

insert-Sorted :
    (entry : OutboxRecord) (rest : List OutboxRecord) → Sorted rest → Sorted (insert entry rest)
unfolding insert
insert-Sorted entry [] s = (tt, tt)
insert-Sorted entry (first ∷ rest) (a, s) =
    elim (Bool-cases (leb_ℤ entry.created_at first.created_at)) [
      | inl before ↦
          let le : entry.created_at ≤ℤ first.created_at = ground arith in
          rw before ((le, NotBefore-trans entry.created_at first.created_at rest le a), (a, s))
      | inr later ↦ rw later (
        insert-Each (NotBefore first.created_at) entry rest (ground arith) a,
        insert-Sorted entry rest s,
      )
    ]

by_age-Sorted : (rest : List OutboxRecord) → Sorted (by_age rest)
unfolding by_age
by_age-Sorted [] = tt
by_age-Sorted (entry ∷ rest) = insert-Sorted entry (by_age rest) (by_age-Sorted rest)

take-Sorted : (n : ℕ) (rest : List OutboxRecord) → Sorted rest → Sorted (take n rest)
take-Sorted zero rest s = tt
take-Sorted (suc n) [] s = tt
take-Sorted (suc n) (entry ∷ rest) (a, s) =
    (take-Each (NotBefore entry.created_at) n rest a, take-Sorted n rest s)

abbrev pub Tried : ℕ → OutboxRecord → Type 0
Tried most entry = entry.attempts < most

waiting-Tried : (most : ℕ) (d : Dict OutboxRecord) → Each (Tried most) (waiting most d)
unfolding waiting
waiting-Tried most [] = tt
waiting-Tried most ((id, entry) ∷ d) = elim (Bool-cases (ltb entry.attempts most)) [
  | inl live ↦ rw live (ground arith, waiting-Tried most d)
  | inr spent ↦ rw spent (waiting-Tried most d)
]

abbrev one_if : Bool → ℕ
one_if true = 1
one_if false = 0

-- How many records a test counts, of a list and of those of a store that may be tried again.
module _ (is : OutboxRecord → Bool) where
  abbrev pub count_of : List OutboxRecord → ℕ
  count_of [] = 0
  count_of (entry ∷ rest) = one_if (is entry) + count_of rest

  abbrev pub count_live : ℕ → Dict OutboxRecord → ℕ
  count_live most [] = 0
  count_live most ((id, entry) ∷ d) =
      (if ltb entry.attempts most then one_if (is entry) else 0) + count_live most d

  count_of-insert :
      (entry : OutboxRecord) (rest : List OutboxRecord)
      → count_of (insert entry rest) ≡ one_if (is entry) + count_of rest
  unfolding insert
  count_of-insert entry [] = refl
  count_of-insert entry (first ∷ rest) = ground (arith, count_of-insert entry rest)

  count_of-by_age : (rest : List OutboxRecord) → count_of (by_age rest) ≡ count_of rest
  unfolding by_age
  count_of-by_age [] = refl
  count_of-by_age (entry ∷ rest) =
      omega (arith, count_of-insert entry (by_age rest), count_of-by_age rest)

  count_of-waiting :
      (most : ℕ) (d : Dict OutboxRecord) → count_of (waiting most d) ≡ count_live most d
  unfolding waiting
  count_of-waiting most [] = refl
  count_of-waiting most ((id, entry) ∷ d) = ground (arith, count_of-waiting most d)

-- What a limit cuts off.
abbrev left_out : ℕ → List OutboxRecord → List OutboxRecord
left_out zero rest = rest
left_out (suc n) [] = []
left_out (suc n) (entry ∷ rest) = left_out n rest

take-left_out : (n : ℕ) (rest : List OutboxRecord) → take n rest ++ left_out n rest ≡ rest
take-left_out zero rest = refl
take-left_out (suc n) [] = refl
take-left_out (suc n) (entry ∷ rest) = rw (take-left_out n rest) refl

left_out-cases :
    (n : ℕ) (rest : List OutboxRecord) → (left_out n rest ≡ []) ⊎ (length (take n rest) ≡ n)
left_out-cases zero rest = inr refl
left_out-cases (suc n) [] = inl refl
left_out-cases (suc n) (entry ∷ rest) = ground (arith, left_out-cases n rest)

-- What a sweep is given: with the records that a limit cuts off after them, they are the records of
-- the store that have failed less often than it allows, each as often as it is there, the oldest
-- first; and records are cut off only by a limit, where as many are given as it says.
pub pending-Sorted :
    (limit : ℕ) (s : OutboxStore)
    → (others : List OutboxRecord) × Sorted (pending limit s ++ others)
      × Each (Tried s.max_attempts) (pending limit s ++ others)
      × ((is : OutboxRecord → Bool)
          → count_of is (pending limit s ++ others) ≡ count_live is s.max_attempts s.records)
      × (0 < limit → length (pending limit s) ≤ limit)
      × ((others ≡ []) ⊎ ((0 < limit) × (length (pending limit s) ≡ limit)))
unfolding pending
pending-Sorted limit s =
    let all = waiting s.max_attempts s.records in
    let sorted = by_age-Sorted all in
    let tried = by_age-Each (Tried s.max_attempts) all (waiting-Tried s.max_attempts s.records) in
    let counted : (is : OutboxRecord → Bool)
        → count_of is (by_age all) ≡ count_live is s.max_attempts s.records =
      λ is. count_of-by_age is all ∙ count_of-waiting is s.max_attempts s.records in
    elim (Bool-cases (ltb 0 limit)) [
      | inl limited ↦
          let split = take-left_out limit (by_age all) in
          (
            left_out limit (by_age all),
            rw (limited, split) sorted,
            rw (limited, split) tried,
            rw (limited, split) counted,
            rw limited (λ h. omega (arith, length-take limit (by_age all))),
            rw limited (elim (left_out-cases limit (by_age all)) [
              | inl none_left ↦ inl none_left
              | inr full ↦ inr (ground arith, full)
            ]),
          )
      | inr free ↦ (
        [],
        rw (free, append-nil (by_age all)) sorted,
        rw (free, append-nil (by_age all)) tried,
        rw (free, append-nil (by_age all)) counted,
        λ h. absurd (ground arith),
        inl refl,
      )
    ]
