-- ===== src/Retry/Ceiling.antt =====
-- retry.py: the bounds of `schedule`, and what it does where `_unjittered` stops multiplying.
use acemq_python_amqp.Prelude.{
  ℕ, zero, suc, ◌-◌, ◌≤◌, ◌≡◌, ap, Bool-cases, true, Option-cases, Option, some, none, List, [],
  ◌∷◌, ok, err, length, arith, inl, inr,
}
use acemq_python_amqp.Prelude.Int.{ℤ, pos_part, ◌≤ℤ◌, ◌<ℤ◌}
use acemq_python_amqp.Retry.{
  Duration, zero_duration, FloatTime, RetryPolicy, overflow, past_ceiling, capped, grow, unjittered,
  schedule_from, schedule, broker_rungs,
}
use acemq_python_amqp.Retry.Schedule.{schedule_from-suc, length-schedule_from}

-- Every entry is at or below `most`.
abbrev pub AllBelow : Duration → List Duration → Type 0
AllBelow most [] = Unit {0}
AllBelow most (d ∷ ds) = (d ≤ℤ most) × AllBelow most ds

module _ (ft : FloatTime) (p : RetryPolicy ft.Float) where
  -- The delay after `n` multiplications, with no ceiling; `none` is the overflow.
  abbrev pub multiplied : ℕ → Duration → Option Duration
  multiplied zero d = some d
  multiplied (suc n) d = elim (ft.scaled d p.multiplier) [
    | none ↦ none
    | some next ↦ multiplied n next
  ]

  capped-le : (d : Duration) → zero_duration <ℤ p.max_delay → capped p d ≤ℤ p.max_delay
  unfolding capped
  capped-le d limited = ground arith

  schedule_from-AllBelow :
      (n : ℕ) (d : Duration) (ds : List Duration)
      → zero_duration <ℤ p.max_delay
      → schedule_from ft p n d ≡ ok ds
      → AllBelow p.max_delay ds
  unfolding schedule_from
  schedule_from-AllBelow zero d [] limited h = tt
  schedule_from-AllBelow zero d (x ∷ ds) limited h = cc
  schedule_from-AllBelow (suc n) d ds limited h =
      let (next, rest, e, r, q) = schedule_from-suc ft p n d h in
      rw q (capped-le d limited, schedule_from-AllBelow n next rest limited r)

  schedule_from_overflow :
      (k n : ℕ) (d : Duration)
      → multiplied k d ≡ none
      → k ≤ n
      → schedule_from ft p n d ≡ err overflow
  unfolding schedule_from
  schedule_from_overflow zero n d gone lt = cc
  schedule_from_overflow (suc k) zero d gone lt = absurd (omega arith)
  schedule_from_overflow (suc k) (suc n) d gone lt =
      elim (Option-cases (ft.scaled d p.multiplier)) [
        | inl e ↦ rw (e, schedule_from)
        | inr (next, e) ↦
            rw (e, schedule_from)
              (rw (schedule_from_overflow k n next (rw (e, multiplied) at gone) (omega arith)))
      ]

  grow_saturates :
      (j n : ℕ) (d x : Duration)
      → multiplied (suc j) d ≡ some x
      → past_ceiling p x ≡ true
      → suc j ≤ n
      → grow ft p n d ≡ ok p.max_delay
  unfolding grow
  grow_saturates j zero d x reached past lt = absurd (omega arith)
  grow_saturates zero (suc n) d x reached past lt = elim (Option-cases (ft.scaled d p.multiplier)) [
    | inl e ↦ cc (rw (e, multiplied) at reached)
    | inr (next, e) ↦
        let same : next ≡ x = cc (rw (e, multiplied) at reached) in
        rw (e, grow) (rw (ap (past_ceiling p) same) (rw past))
  ]
  grow_saturates (suc j) (suc n) d x reached past lt =
      elim (Option-cases (ft.scaled d p.multiplier)) [
        | inl e ↦ cc (rw (e, multiplied) at reached)
        | inr (next, e) ↦ elim (Bool-cases (past_ceiling p next)) [
          | inl now ↦ rw (e, grow) (rw now)
          | inr later ↦
              rw (e, grow)
                (rw later
                  (grow_saturates j n next x (rw (e, multiplied) at reached) past (omega arith)))
        ]
      ]

-- `schedule` has one entry for each attempt that another may follow, and with a ceiling none of
-- them is above it.
pub schedule_bounds :
    (ft : FloatTime) (p : RetryPolicy ft.Float) (ds : List Duration)
    → schedule ft p ≡ ok ds
    → (length ds ≡ pos_part p.max_attempts - 1)
      × (zero_duration <ℤ p.max_delay → AllBelow p.max_delay ds)
unfolding schedule
schedule_bounds ft p ds h =
    let rounds = pos_part p.max_attempts - 1 in
    (
      length-schedule_from ft p rounds p.initial_delay ds h,
      λ limited. schedule_from-AllBelow ft p rounds p.initial_delay ds limited h,
    )

-- `schedule` multiplies on where `_unjittered` has stopped at the ceiling: if multiplication `j` of
-- the initial delay passes the ceiling and multiplication `k` overflows, with `j` below the attempt
-- and `k` below the maximum of attempts, `_unjittered` returns the ceiling while `schedule` and
-- `broker_rungs` raise OverflowError.
pub schedule_overflows :
    (ft : FloatTime) (p : RetryPolicy ft.Float) (j k : ℕ) (attempt : ℤ) (x : Duration)
    → multiplied ft p (suc j) p.initial_delay ≡ some x
    → past_ceiling p x ≡ true
    → suc j ≤ pos_part attempt - 1
    → multiplied ft p k p.initial_delay ≡ none
    → k ≤ pos_part p.max_attempts - 1
    → (unjittered ft p attempt ≡ ok p.max_delay)
      × (schedule ft p ≡ err overflow)
      × (broker_rungs ft p ≡ err overflow)
unfolding unjittered schedule broker_rungs
schedule_overflows ft p j k attempt x reached past soon gone within =
    let raised =
      schedule_from_overflow ft p k (pos_part p.max_attempts - 1) p.initial_delay gone within in
    (
      rw (grow_saturates ft p j (pos_part attempt - 1) p.initial_delay x reached past soon)
          (ground arith),
      raised,
      rw raised,
    )
