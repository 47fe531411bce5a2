-- ===== src/Patterns/Ordered/Tasks.antt =====
-- patterns/ordered.py: tasks in `in_order` that share a `_KeyedLocks`, as a step relation, and how
-- they are counted.
use acemq_python_amqp.Prelude.{
  ℕ, zero, suc, ◌+◌, ◌≡◌, refl, Bool, true, false, Option, some, none, List, [], ◌∷◌, arith, String,
  if◌then◌else◌, ◌==◌, str_eq, eq_iff,
}
use acemq_python_amqp.Prelude.Int.{ℤ, pos}
use acemq_python_amqp.Dict.{Dict, get, put, pop, get-put, get-pop}
use acemq_python_amqp.Patterns.Ordered.{KeyedLocks, no_locks, enter, let_go, set_locked}

-- A task in `hold`: its key, the lock that it found, and whether it waits for it or has it.
pub data Stage : Type 0 where
  queued inside : Stage

pub record Task : Type 0 where
  pub key : String
  pub lock : ℕ
  pub stage : Stage

-- One task of several, and the others.
pub data Pick (t : Task) : List Task → List Task → Type 0 where
  first : (ts : List Task) → Pick t (t ∷ ts) ts
  later : (u : Task) {ts us : List Task} → Pick t ts us → Pick t (u ∷ ts) (u ∷ us)

-- A task with a key comes in; it gets its lock, which nobody has; its wait is cancelled; or its
-- handler ends, however it ends. The order of the tasks is no matter.
pub data Act (s : KeyedLocks) (ts : List Task) : KeyedLocks → List Task → Type 0 where
  enters :
      (key : String)
      → str_eq key "" ≡ false
      → {s' : KeyedLocks} → s' ≡ (enter key s).1
      → {us : List Task} → us ≡ record { key = key; lock = (enter key s).0; stage = queued } ∷ ts
      → Act s ts s' us
  acquires :
      {t : Task} {us : List Task}
      → Pick t ts us
      → t.stage ≡ queued
      → s.locked t.lock ≡ false
      → {s' : KeyedLocks} → s' ≡ set_locked t.lock true s
      → Act s ts s' (record t { stage = inside } ∷ us)
  is_cancelled :
      {t : Task} {us : List Task}
      → Pick t ts us
      → t.stage ≡ queued
      → {s' : KeyedLocks} → let_go t.key s ≡ some s'
      → Act s ts s' us
  leaves :
      {t : Task} {us : List Task}
      → Pick t ts us
      → t.stage ≡ inside
      → {s' : KeyedLocks} → let_go t.key (set_locked t.lock false s) ≡ some s'
      → Act s ts s' us

pub data Reach : KeyedLocks → List Task → Type 0 where
  start : Reach no_locks []
  then_acts : {s s' : KeyedLocks} {ts us : List Task} → Reach s ts → Act s ts s' us → Reach s' us

-- How many of the tasks a test counts.
abbrev pub one_if : Bool → ℕ
one_if true = 1
one_if false = 0

abbrev pub is_inside : Stage → ℕ
is_inside inside = 1
is_inside queued = 0

abbrev pub of_key : String → List Task → ℕ
of_key k [] = 0
of_key k (t ∷ ts) = one_if (str_eq k t.key) + of_key k ts

abbrev pub handling : String → List Task → ℕ
handling k [] = 0
handling k (t ∷ ts) = (if str_eq k t.key then is_inside t.stage else 0) + handling k ts

abbrev pub has_lock : ℕ → List Task → ℕ
has_lock l [] = 0
has_lock l (t ∷ ts) = (if l == t.lock then is_inside t.stage else 0) + has_lock l ts

abbrev pub shown : ℕ → Option ℤ
shown zero = none
shown (suc n) = some (pos (suc n))

-- Every task waits for, or has, the lock that its key has.
abbrev pub Placed : Dict ℕ → List Task → Type 0
Placed locks [] = Unit {0}
Placed locks (t ∷ ts) = (get t.key locks ≡ some t.lock) × Placed locks ts

pub record IsSound (s : KeyedLocks) (ts : List Task) : Type 0 where
  pub holds : (k : String) → get k s.holders ≡ shown (of_key k ts)
  pub forgets : (k : String) → of_key k ts ≡ 0 → get k s.locks ≡ none
  pub placed : Placed s.locks ts
  pub owned : (l : ℕ) → one_if (s.locked l) ≡ has_lock l ts

-- Counts of a task and the others.
module _ (t : Task) where
  pub of_key-Pick :
      (k : String) (ts us : List Task)
      → Pick t ts us
      → of_key k ts ≡ one_if (str_eq k t.key) + of_key k us
  of_key-Pick k _ _ (first ts) = refl
  of_key-Pick k _ _ (later u {ts} {us} p) = omega (arith, of_key-Pick k ts us p)

  pub has_lock-Pick :
      (l : ℕ) (ts us : List Task)
      → Pick t ts us
      → has_lock l ts ≡ (if l == t.lock then is_inside t.stage else 0) + has_lock l us
  has_lock-Pick l _ _ (first ts) = refl
  has_lock-Pick l _ _ (later u {ts} {us} p) = omega (arith, has_lock-Pick l ts us p)

  pub Placed-Pick :
      (locks : Dict ℕ) (ts us : List Task)
      → Pick t ts us
      → Placed locks ts
      → (get t.key locks ≡ some t.lock) × Placed locks us
  Placed-Pick locks _ _ (first ts) p = p
  Placed-Pick locks _ _ (later u {ts} {us} q) p =
      let rest = Placed-Pick locks ts us q p.1 in (rest.0, (p.0, rest.1))

-- Locks change only under keys that no task has.
pub Placed-put :
    (locks : Dict ℕ) (k : String) (l : ℕ) (ts : List Task)
    → of_key k ts ≡ 0
    → Placed locks ts
    → Placed (put k l locks) ts
Placed-put locks k l [] free p = tt
Placed-put locks k l (t ∷ ts) free p = (
  ground (arith, get-put k t.key l locks, eq_iff k t.key, eq_iff t.key k),
  Placed-put locks k l ts (omega arith) p.1,
)

pub Placed-pop :
    (locks : Dict ℕ) (k : String) (ts : List Task)
    → of_key k ts ≡ 0
    → Placed locks ts
    → Placed (pop k locks) ts
Placed-pop locks k [] free p = tt
Placed-pop locks k (t ∷ ts) free p = (
  ground (arith, get-pop k t.key locks, eq_iff k t.key, eq_iff t.key k),
  Placed-pop locks k ts (omega arith) p.1,
)
