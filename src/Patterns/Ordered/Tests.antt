-- ===== src/Patterns/Ordered/Tests.antt =====
-- Two messages about one order, and one about another.
use acemq_python_amqp.Prelude.{ℕ, ◌≤◌, ◌≡◌, ◌≢◌, refl, true, none, List, [], ◌∷◌}
use acemq_python_amqp.Prelude.Int.{pos}
use acemq_python_amqp.Dict.{get, put}
use acemq_python_amqp.Patterns.Ordered.{
  KeyedLocks, no_locks, enter, lock_for, let_go, set_locked, partition,
}
use acemq_python_amqp.Patterns.Ordered.Tasks.{
  Stage, queued, inside, Task, Pick, first, enters, acquires, Reach, start, then_acts, of_key,
  handling, shown,
}
use acemq_python_amqp.Patterns.Ordered.OneAtATime.{one_at_a_time}

abbrev task : ℕ → Stage → Task
task lock stage = record { key = "order-7"; lock = lock; stage = stage }

abbrev entered : KeyedLocks
entered = (enter "order-7" (enter "order-7" no_locks).1).1

abbrev two_tasks : List Task
two_tasks = task 0 inside ∷ task 0 queued ∷ []

reached : Reach (set_locked 0 true entered) two_tasks
unfolding enter lock_for get put
reached =
    then_acts
      (then_acts (then_acts start (enters "order-7" refl refl refl))
        (enters "order-7" refl refl refl))
      (acquires (first (task 0 queued ∷ [])) refl refl refl)

one_at_a_time_example :
    let s = set_locked 0 true entered in
    (handling "order-7" two_tasks ≤ 1)
    × (get "order-7" s.holders ≡ shown (of_key "order-7" two_tasks))
    × (of_key "order-7" two_tasks ≡ 0 → get "order-7" s.locks ≡ none)
    × ((t : Task) (us : List Task) → Pick t two_tasks us → let_go t.key s ≢ none)
one_at_a_time_example = one_at_a_time (set_locked 0 true entered) two_tasks "order-7" reached

-- The FNV-1a digest of "a" is 0xe40c292c.
partition_a : partition (97 ∷ []) (pos 16) ≡ 12
unfolding partition
partition_a = refl
