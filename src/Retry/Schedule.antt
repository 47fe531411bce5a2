-- ===== src/Retry/Schedule.antt =====
-- retry.py: `schedule` against `_unjittered`, the two ways in which a policy's delays are computed.
use acemq_python_amqp.Prelude.{
  ℕ, zero, suc, ◌-◌, ◌<◌, ◌≡◌, refl, Bool-cases, true, Option-cases, some, ap, List, ◌∷◌, ok,
  >>=-eq-ok, get_elem?, length, arith, inl, inr,
}
use acemq_python_amqp.Prelude.Int.{parts_cases, ℤ, pos, pos_part, ◌≤ℤ◌, ◌<ℤ◌}
use acemq_python_amqp.Retry.{
  Duration, FloatTime, RetryPolicy, past_ceiling, capped, grow, unjittered, schedule_from, schedule,
}

-- A delay past the ceiling stays past it: what a multiplier of 1 or more does.
pub record KeepsGrowing (ft : FloatTime) (p : RetryPolicy ft.Float) : Type 0 where
  pub grows :
      (d next : Duration)
      → past_ceiling p d ≡ true
      → ft.scaled d p.multiplier ≡ some next
      → past_ceiling p next ≡ true

module _ (ft : FloatTime) (p : RetryPolicy ft.Float) where
  -- One step of `schedule_from` that returned.
  pub schedule_from-suc :
      (n : ℕ) (d : Duration) {ds : List Duration}
      → schedule_from ft p (suc n) d ≡ ok ds
      → (next : Duration) × (rest : List Duration) × (ft.scaled d p.multiplier ≡ some next)
        × (schedule_from ft p n next ≡ ok rest)
        × (ds ≡ capped p d ∷ rest)
  unfolding schedule_from
  schedule_from-suc n d h = elim (Option-cases (ft.scaled d p.multiplier)) [
    | inl e ↦ cc (rw (schedule_from, e) at h)
    | inr (next, e) ↦
        let (rest, r, q) = >>=-eq-ok (schedule_from ft p n next) _ (rw (schedule_from, e) at h) in
        (next, rest, e, r, cc)
  ]

  pub length-schedule_from :
      (n : ℕ) (d : Duration) (ds : List Duration) → schedule_from ft p n d ≡ ok ds → length ds ≡ n
  unfolding schedule_from
  length-schedule_from zero d ds h = cc
  length-schedule_from (suc n) d ds h =
      let (next, rest, e, r, q) = schedule_from-suc n d h in
      rw q (ap suc (length-schedule_from n next rest r))

  module _ (growing : KeepsGrowing ft p) where
    -- Past the ceiling every entry is the ceiling.
    schedule_from-past :
        (n i : ℕ) (d : Duration) {ds : List Duration}
        → past_ceiling p d ≡ true
        → schedule_from ft p n d ≡ ok ds
        → i < n
        → get_elem? ds i ≡ some p.max_delay
    schedule_from-past zero i d past h lt = elim lt [ ]
    schedule_from-past (suc n) zero d past h lt =
        let (next, rest, e, r, q) = schedule_from-suc n d h in rw q (unfold capped in rw past)
    schedule_from-past (suc n) (suc i) d past h lt =
        let (next, rest, e, r, q) = schedule_from-suc n d h in
        rw q (schedule_from-past n i next (growing.grows d next past e) r (omega arith))

    capped-max_delay : capped p p.max_delay ≡ p.max_delay
    unfolding capped
    capped-max_delay = ground arith

    -- The loop of `_unjittered` and that of `schedule` reach the same entry.
    get_elem?-schedule_from :
        (n i : ℕ) (d : Duration) {ds : List Duration}
        → schedule_from ft p n d ≡ ok ds
        → i < n
        → (x : Duration) × (grow ft p i d ≡ ok x) × (get_elem? ds i ≡ some (capped p x))
    unfolding grow
    get_elem?-schedule_from zero i d h lt = elim lt [ ]
    get_elem?-schedule_from (suc n) zero d h lt =
        let (next, rest, e, r, q) = schedule_from-suc n d h in (d, refl, rw q)
    get_elem?-schedule_from (suc n) (suc i) d h lt =
        let (next, rest, e, r, q) = schedule_from-suc n d h in
        elim (Bool-cases (past_ceiling p next)) [
          | inl past ↦ (
            p.max_delay,
            rw (e, grow) (rw past),
            rw (q, capped-max_delay) (schedule_from-past n i next past r (omega arith)),
          )
          | inr below ↦
              let (x, g, at) = get_elem?-schedule_from n i next r (omega arith) in
              (x, rw (e, grow) (rw below g), rw q at)
        ]

-- When `schedule` returns and a delay past the ceiling stays past it, every attempt that may be
-- followed by another has an entry: `_unjittered` returns exactly the entry of `schedule` that
-- stands at that attempt.
pub unjittered-eq-schedule :
    (ft : FloatTime) (p : RetryPolicy ft.Float) (attempt : ℤ) (ds : List Duration)
    → KeepsGrowing ft p
    → schedule ft p ≡ ok ds
    → pos 1 ≤ℤ attempt
    → attempt <ℤ p.max_attempts
    → (d : Duration) × (unjittered ft p attempt ≡ ok d)
      × (get_elem? ds (pos_part attempt - 1) ≡ some d)
unfolding unjittered schedule
unjittered-eq-schedule ft p attempt ds growing h one more =
    let (x, g, at) =
      get_elem?-schedule_from ft p growing (pos_part p.max_attempts - 1) (pos_part attempt - 1)
        p.initial_delay h (omega (arith, parts_cases attempt)) in
    (capped p x, rw g, at)
