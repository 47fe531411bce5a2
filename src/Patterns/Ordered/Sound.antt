-- ===== src/Patterns/Ordered/Sound.antt =====
-- patterns/ordered.py: every step of the tasks keeps the locks and the holders sound.
use acemq_python_amqp.Prelude.{
  ℕ, zero, suc, ◌+◌, ◌≡◌, refl, ap, ◌∙◌, true, false, Option, some, none, List, [], ◌∷◌, arith,
  String, str_eq, eq_iff,
}
use mathlib.Core.Path.{subst}
use acemq_python_amqp.Prelude.Int.{pos, ◌+ℤ◌, ◌-ℤ◌}
use acemq_python_amqp.Dict.{Dict, get, put, pop, get-put, get-pop}
use acemq_python_amqp.Patterns.Ordered.{
  KeyedLocks, enter, lock_for, or_none_held, let_go, let_go_of, delete_lock, keep_holders,
  set_locked,
}
use acemq_python_amqp.Patterns.Ordered.Tasks.{
  queued, inside, Task, Pick, Act, enters, acquires, is_cancelled, leaves, Reach, start, then_acts,
  one_if, of_key, has_lock, shown, Placed, IsSound, of_key-Pick, has_lock-Pick, Placed-Pick,
  Placed-put, Placed-pop,
}

-- A key that has no lock has no task.
pub unplaced :
    (locks : Dict ℕ) (k : String) (ts : List Task)
    → get k locks ≡ none
    → Placed locks ts
    → of_key k ts ≡ 0
unplaced locks k [] e p = refl
unplaced locks k (t ∷ ts) e p = ground (arith, eq_iff k t.key, unplaced locks k ts e p.1)

shown-suc : (n : ℕ) → some (or_none_held (shown n) +ℤ pos 1) ≡ shown (suc n)
unfolding ◌+ℤ◌
shown-suc zero = refl
shown-suc (suc n) = ground arith

module _ (s : KeyedLocks) (ts : List Task) (sound : IsSound s ts) where
  module _ (key : String) where
    held_more :
        (k : String)
        → get k (put key (or_none_held (get key s.holders) +ℤ pos 1) s.holders)
          ≡ shown (one_if (str_eq k key) + of_key k ts)
    held_more k = ground (
      arith,
      get-put key k (or_none_held (get key s.holders) +ℤ pos 1) s.holders,
      sound.holds k,
      sound.holds key,
      shown-suc (of_key key ts),
      eq_iff k key,
    )

    enter-IsSound :
        (found : Option ℕ)
        → get key s.locks ≡ found
        → IsSound
            (enter key s).1
            (record { key = key; lock = (enter key s).0; stage = queued } ∷ ts)
    unfolding enter lock_for
    enter-IsSound (some l) e = rw e (record {
      holds = held_more;
      forgets = λ k free. sound.forgets k (omega arith);
      placed = (e, sound.placed);
      owned = λ m. ground (arith, sound.owned m);
    })
    enter-IsSound none e = rw e (record {
      holds = held_more;
      forgets = λ k free. ground (arith, get-put key k s.made s.locks, sound.forgets k);
      placed = (
        ground (arith, get-put key key s.made s.locks, eq_iff key key),
        Placed-put s.locks key s.made ts (unplaced s.locks key ts e sound.placed) sound.placed,
      );
      owned = λ m. ground (arith, sound.owned m);
    })

one_less : (n : ℕ) → pos (suc n) -ℤ pos 1 ≡ pos n
unfolding ◌-ℤ◌
one_less n = ground arith

-- What `_let_go` leaves where `n` tasks still have the key.
abbrev left_by : ℕ → String → KeyedLocks → KeyedLocks
left_by zero key s = record s { holders = pop key s.holders; locks = pop key s.locks }
left_by (suc n) key s = record s { holders = put key (pos (suc n)) s.holders }

keep_holders_lem :
    (n : ℕ) (key : String) (s : KeyedLocks) (lock : ℕ)
    → get key s.locks ≡ some lock
    → keep_holders (pos n) key s ≡ some (left_by n key s)
unfolding keep_holders delete_lock
keep_holders_lem zero key s lock e = rw e refl
keep_holders_lem (suc n) key s lock e = ground arith

pub let_go_lem :
    (s : KeyedLocks) (t : Task) (us : List Task)
    → ((k : String) → get k s.holders ≡ shown (one_if (str_eq k t.key) + of_key k us))
    → get t.key s.locks ≡ some t.lock
    → let_go t.key s ≡ some (left_by (of_key t.key us) t.key s)
unfolding let_go let_go_of
let_go_lem s t us holds locked = ground (
  arith,
  holds t.key,
  eq_iff t.key t.key,
  one_less (of_key t.key us),
  keep_holders_lem (of_key t.key us) t.key s t.lock locked,
)

-- What a task leaves when its key is let go, where `s` has its lock released already.
module _ (s : KeyedLocks) (t : Task) (us : List Task)
    (holds : (k : String) → get k s.holders ≡ shown (one_if (str_eq k t.key) + of_key k us))
    (forgets : (k : String) → one_if (str_eq k t.key) + of_key k us ≡ 0 → get k s.locks ≡ none)
    (here : get t.key s.locks ≡ some t.lock) (placed : Placed s.locks us)
    (owned : (l : ℕ) → one_if (s.locked l) ≡ has_lock l us) where
  left_by-IsSound : (n : ℕ) → of_key t.key us ≡ n → IsSound (left_by n t.key s) us
  left_by-IsSound zero e = record {
    holds = λ k. ground (arith, get-pop t.key k s.holders, holds k, eq_iff k t.key);
    forgets = λ k free. ground (arith, get-pop t.key k s.locks, forgets k, eq_iff k t.key);
    placed = Placed-pop s.locks t.key us e placed;
    owned = owned;
  }
  left_by-IsSound (suc n) e = record {
    holds = λ k. ground (arith, get-put t.key k (pos (suc n)) s.holders, holds k, eq_iff k t.key);
    forgets = λ k free. ground (arith, forgets k, eq_iff k t.key);
    placed = placed;
    owned = owned;
  }

  let_go-IsSound : (s' : KeyedLocks) → let_go t.key s ≡ some s' → IsSound s' us
  let_go-IsSound s' e =
      let same : left_by (of_key t.key us) t.key s ≡ s' = cc (let_go_lem s t us holds here) in
      subst (λ z. IsSound z us) same (left_by-IsSound (of_key t.key us) refl)

module _ (s : KeyedLocks) (ts : List Task) (sound : IsSound s ts) where
  module _ (t : Task) (us : List Task) (p : Pick t ts us) where
    pub holds_rest : (k : String) → get k s.holders ≡ shown (one_if (str_eq k t.key) + of_key k us)
    holds_rest k = sound.holds k ∙ ap shown (of_key-Pick t k ts us p)

    forgets_rest : (k : String) → one_if (str_eq k t.key) + of_key k us ≡ 0 → get k s.locks ≡ none
    forgets_rest k free = sound.forgets k (of_key-Pick t k ts us p ∙ free)

    acquired-IsSound :
        t.stage ≡ queued
        → s.locked t.lock ≡ false
        → IsSound (set_locked t.lock true s) (record t { stage = inside } ∷ us)
    unfolding set_locked
    acquired-IsSound waits unlocked =
        let here = Placed-Pick t s.locks ts us p sound.placed in
        record {
          holds = holds_rest;
          forgets = forgets_rest;
          placed = here;
          owned = λ l. ground (arith, sound.owned l, has_lock-Pick t l ts us p, sound.owned t.lock);
        }

    cancelled-IsSound :
        t.stage ≡ queued → (s' : KeyedLocks) → let_go t.key s ≡ some s' → IsSound s' us
    cancelled-IsSound waits s' e =
        let_go-IsSound s t us holds_rest forgets_rest (Placed-Pick t s.locks ts us p sound.placed).0
          (Placed-Pick t s.locks ts us p sound.placed).1
          (λ l. ground (arith, sound.owned l, has_lock-Pick t l ts us p)) s' e

    left-IsSound :
        t.stage ≡ inside
        → (s' : KeyedLocks) → let_go t.key (set_locked t.lock false s) ≡ some s'
        → IsSound s' us
    unfolding set_locked
    left-IsSound works s' e =
        let_go-IsSound (set_locked t.lock false s) t us holds_rest forgets_rest
          (Placed-Pick t s.locks ts us p sound.placed).0
          (Placed-Pick t s.locks ts us p sound.placed).1
          (λ l. ground (arith, sound.owned l, has_lock-Pick t l ts us p)) s' e

Act-IsSound :
    {s : KeyedLocks} {ts : List Task} {s' : KeyedLocks} {us : List Task}
    → Act s ts s' us
    → IsSound s ts
    → IsSound s' us
Act-IsSound {s} {ts} (enters key named e d) sound =
    rw (e, d) (enter-IsSound s ts sound key (get key s.locks) refl)
Act-IsSound {s} {ts} (acquires {t} {us} p waits unlocked e) sound =
    rw e (acquired-IsSound s ts sound t us p waits unlocked)
Act-IsSound {s} {ts} (is_cancelled {t} {us} p waits {s'} e) sound =
    cancelled-IsSound s ts sound t us p waits s' e
Act-IsSound {s} {ts} (leaves {t} {us} p works {s'} e) sound =
    left-IsSound s ts sound t us p works s' e

pub Reach-IsSound : {s : KeyedLocks} {ts : List Task} → Reach s ts → IsSound s ts
unfolding get
Reach-IsSound start = record {
  holds = λ k. refl;
  forgets = λ k free. refl;
  placed = tt;
  owned = λ l. refl;
}
Reach-IsSound (then_acts r a) = Act-IsSound a (Reach-IsSound r)
