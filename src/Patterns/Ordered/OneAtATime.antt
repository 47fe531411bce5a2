-- ===== src/Patterns/Ordered/OneAtATime.antt =====
-- patterns/ordered.py: messages that share a key are handled one at a time.
use acemq_python_amqp.Prelude.{
  ℕ, ◌≤◌, ◌≡◌, ◌≢◌, refl, Bool, true, false, Option, some, none, List, [], ◌∷◌, arith, String,
  eq_iff,
}
use acemq_python_amqp.Dict.{Dict, get}
use acemq_python_amqp.Patterns.Ordered.{KeyedLocks, let_go}
use acemq_python_amqp.Patterns.Ordered.Tasks.{
  Task, Pick, Reach, one_if, of_key, handling, has_lock, shown, Placed, IsSound, Placed-Pick,
}
use acemq_python_amqp.Patterns.Ordered.Sound.{unplaced, let_go_lem, holds_rest, Reach-IsSound}

-- The tasks in a handler under one key have one lock.
handling-le :
    (locks : Dict ℕ) (k : String) (l : ℕ) (ts : List Task)
    → get k locks ≡ some l
    → Placed locks ts
    → handling k ts ≤ has_lock l ts
handling-le locks k l [] e p = omega arith
handling-le locks k l (t ∷ ts) e p = ground (arith, eq_iff k t.key, handling-le locks k l ts e p.1)

handling-none : (k : String) (ts : List Task) → of_key k ts ≡ 0 → handling k ts ≡ 0
handling-none k [] free = refl
handling-none k (t ∷ ts) free = ground (arith, handling-none k ts)

at_most_one : (b : Bool) → one_if b ≤ 1
at_most_one true = omega arith
at_most_one false = omega arith

handling_found :
    (s : KeyedLocks) (ts : List Task) (k : String) (found : Option ℕ)
    → get k s.locks ≡ found
    → IsSound s ts
    → handling k ts ≤ 1
handling_found s ts k none e sound =
    omega (arith, handling-none k ts (unplaced s.locks k ts e sound.placed))
handling_found s ts k (some l) e sound =
    omega
      (arith, handling-le s.locks k l ts e sound.placed, sound.owned l, at_most_one (s.locked l))

-- However the tasks of `in_order` interleave, cancelled while they wait included, at every moment at
-- most one of those that share a key is in its handler; the count of a key's holders is the number of
-- its tasks, waiting or not, and a key that has none is in neither dict; and no task's `_let_go`
-- raises KeyError, of the holders or of the locks.
pub one_at_a_time :
    (s : KeyedLocks) (ts : List Task) (k : String)
    → Reach s ts
    → (handling k ts ≤ 1)
      × (get k s.holders ≡ shown (of_key k ts))
      × (of_key k ts ≡ 0 → get k s.locks ≡ none)
      × ((t : Task) (us : List Task) → Pick t ts us → let_go t.key s ≢ none)
one_at_a_time s ts k r =
    let sound = Reach-IsSound r in
    (
      handling_found s ts k (get k s.locks) refl sound,
      sound.holds k,
      sound.forgets k,
      λ t us p e.
          let placed = Placed-Pick t s.locks ts us p sound.placed in
          let held = let_go_lem s t us (holds_rest s ts sound t us p) placed.0 in cc,
    )
