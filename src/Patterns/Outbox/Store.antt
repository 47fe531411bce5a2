-- ===== src/Patterns/Outbox/Store.antt =====
-- outbox.py: records that are written twice.
use acemq_python_amqp.Prelude.{
  ◌≡◌, ◌∙◌, ap, sym, Bool-cases, Option-cases, some, ok, arith, inl, inr, str_eq, eq_iff,
}
use acemq_python_amqp.Dict.{get, get-put}
use acemq_python_amqp.Patterns.Outbox.{OutboxRecord, OutboxStore, set_default, add}

-- After `setdefault` the key is there.
set_default-there :
    (entry : OutboxRecord) (s : OutboxStore)
    → (kept : OutboxRecord) × (get entry.id (set_default (get entry.id s.records) entry s).records
        ≡ some kept)
unfolding set_default
set_default-there entry s = elim (Option-cases (get entry.id s.records)) [
  | inl unseen ↦ (
    entry,
    rw unseen
        (get-put entry.id entry.id entry s.records ∙ ground (arith, eq_iff entry.id entry.id)),
  )
  | inr (kept, e) ↦ (kept, rw e e)
]

set_default-kept :
    (entry kept : OutboxRecord) (s : OutboxStore)
    → get entry.id s.records ≡ some kept
    → set_default (get entry.id s.records) entry s ≡ s
unfolding set_default
set_default-kept entry kept s e = rw e

-- A record that is added again, even with another content, changes nothing: a caller that retries its
-- transaction does not make a second message, nor a different one.
pub add_twice :
    (entry again : OutboxRecord) (s s' : OutboxStore)
    → again.id ≡ entry.id
    → add entry s ≡ ok s'
    → add again s' ≡ ok s'
unfolding add
add_twice entry again s s' same e = elim (Bool-cases (str_eq entry.id "")) [
  | inl unnamed ↦ absurd (ground (arith, rw unnamed at e))
  | inr named ↦
      let q : set_default (get entry.id s.records) entry s ≡ s' = cc (rw named at e) in
      let (kept, there) = set_default-there entry s in
      let there' : get again.id s'.records ≡ some kept = rw same (rw (sym q) there) in
      rw same (rw named (ap ok (rw (sym same) (set_default-kept again kept s' there'))))
]
