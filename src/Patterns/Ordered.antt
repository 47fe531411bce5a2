-- ===== src/Patterns/Ordered.antt =====
-- patterns/ordered.py: messages that share a key are not handled at once. One lock per key, forgotten
-- when nobody holds it, and the slot of a key.
pub mod Tasks
pub mod Sound
pub mod OneAtATime
mod Tests
use acemq_python_amqp.Prelude.{
  ℕ, zero, suc, ◌+◌, ◌*◌, ◌%◌, ◌^◌, String, ◌≡◌, Bool, true, false, Option, some, none, List, [],
  ◌∷◌, length, if◌then◌else◌, ◌==◌, concat,
}
use acemq_python_amqp.Prelude.Int.{ℤ, pos, pos_part, leb_ℤ, eqb_ℤ, ◌+ℤ◌, ◌-ℤ◌}
use acemq_python_amqp.Dict.{Dict, get, put, pop}
use acemq_python_amqp.Headers.{Interpreter}
use Prim.Native.Nat.{bit_xor}

abbrev pub fnv_offset : ℕ
fnv_offset = 2166136261

abbrev pub fnv_prime : ℕ
fnv_prime = 16777619

-- `digest ^= byte` and `digest = (digest * _FNV_PRIME) & _FNV_MASK`, whose mask is 2 ^ 32 - 1
unfoldable pub digest_from : ℕ → List ℕ → ℕ
digest_from digest [] = digest
digest_from digest (byte ∷ rest) = digest_from ((bit_xor digest byte * fnv_prime) % 2 ^ 32) rest

-- `partition`, from the bytes of the key. `%` by a positive count.
unfoldable pub partition : List ℕ → ℤ → ℕ
unfolding digest_from
partition bytes count =
    if leb_ℤ count (pos 1) then 0 else digest_from fnv_offset bytes % pos_part count

unfoldable pub partitioned_routing_key :
    Interpreter → (String → List ℕ) → String → String → ℤ → String
partitioned_routing_key py encode base key partitions =
    concat (base ∷ "." ∷ py.str_of_int (pos (partition (encode key) partitions)) ∷ [])

-- `_KeyedLocks`, with the lock objects: how many were made, by which a lock is known, and which are
-- locked.
pub record KeyedLocks : Type 0 where
  pub locks : Dict ℕ
  pub holders : Dict ℤ
  pub made : ℕ
  pub locked : ℕ → Bool

abbrev pub no_locks : KeyedLocks
no_locks = record { locks = []; holders = []; made = 0; locked = λ l. false }

-- `self._locks.get(key)`, or a new lock under the key.
unfoldable pub lock_for : String → Option ℕ → KeyedLocks → ℕ × KeyedLocks
lock_for key (some lock) s = (lock, s)
lock_for key none s = (s.made, record s { locks = put key s.made s.locks; made = s.made + 1 })

abbrev pub or_none_held : Option ℤ → ℤ
or_none_held none = pos 0
or_none_held (some n) = n

-- `hold`, up to the wait.
unfoldable pub enter : String → KeyedLocks → ℕ × KeyedLocks
unfolding lock_for
enter key s =
    let (lock, s') = lock_for key (get key s.locks) s in
    (lock, record s' { holders = put key (or_none_held (get key s'.holders) +ℤ pos 1) s'.holders })

-- `del self._locks[key]`, of the lock that is there; `none` is its KeyError.
unfoldable pub delete_lock : Option ℕ → String → KeyedLocks → Option KeyedLocks
delete_lock none key s = none
delete_lock (some lock) key s = some (record s { locks = pop key s.locks })

-- `_let_go`, whose holders have the key; `none` is a KeyError.
unfoldable pub keep_holders : ℤ → String → KeyedLocks → Option KeyedLocks
unfolding delete_lock
keep_holders remaining key s =
    if eqb_ℤ remaining (pos 0)
    then delete_lock (get key s.locks) key (record s { holders = pop key s.holders })
    else some (record s { holders = put key remaining s.holders })

unfoldable pub let_go_of : Option ℤ → String → KeyedLocks → Option KeyedLocks
unfolding keep_holders
let_go_of none key s = none
let_go_of (some held) key s = keep_holders (held -ℤ pos 1) key s

unfoldable pub let_go : String → KeyedLocks → Option KeyedLocks
unfolding let_go_of
let_go key s = let_go_of (get key s.holders) key s

-- `lock.acquire()` that returns, and `lock.release()`.
unfoldable pub set_locked : ℕ → Bool → KeyedLocks → KeyedLocks
set_locked lock to s = record s { locked = λ l. if l == lock then to else s.locked l }

-- `__len__`
unfoldable pub keys_held : KeyedLocks → ℕ
keys_held s = length s.locks
