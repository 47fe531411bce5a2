-- ===== src/Patterns/Outbox/Sweep.antt =====
-- outbox.py: what a sweep does to the records.
use acemq_python_amqp.Prelude.{
  ℕ, suc, ◌≡◌, ◌⊎◌, ◌∙◌, sym, String, Bool-cases, Option-cases, some, List, [], ◌∷◌, Result, ok,
  err, inl, inr, str_eq, eq_iff,
}
use acemq_python_amqp.Dict.{get, get-put, get-pop}
use acemq_python_amqp.Ack.{Failure}
use acemq_python_amqp.Patterns.Outbox.{
  OutboxRecord, OutboxStore, Relay, Published, confirmed, failed, text_or_name, mark_published,
  count_failure, record_failure, after_publish, publish_entry, one_more, go_on, sweep_entries,
  sweep, pending,
}

-- The broker confirmed a record of that id, and routed it to a queue.
abbrev pub Confirmed : String → List (OutboxRecord × Published) → Type 0
Confirmed id [] = ⊥
Confirmed id ((entry, confirmed) ∷ sent) = (entry.id ≡ id) ⊎ Confirmed id sent
Confirmed id ((entry, failed failure) ∷ sent) = Confirmed id sent

-- The record is in the outbox, or it was published.
abbrev pub Kept : String → Relay → Type 0
Kept id r = ((entry : OutboxRecord) × (get id r.store.records ≡ some entry)) ⊎ Confirmed id r.sent

module _ (publish : List (OutboxRecord × Published) → OutboxRecord → Published) (id : String) where
  record_failure-there :
      (key error : String) (s : OutboxStore)
      → ((entry : OutboxRecord) × (get id s.records ≡ some entry))
      → (entry : OutboxRecord) × (get id (record_failure key error s).records ≡ some entry)
  unfolding record_failure count_failure
  record_failure-there key error s (entry, there) = elim (Option-cases (get key s.records)) [
    | inl gone ↦ (entry, rw gone there)
    | inr (found, e) ↦
        let counted = record found { attempts = suc found.attempts; last_error = error } in
        rw e (elim (Bool-cases (str_eq id key)) [
          | inl same ↦ (counted, get-put key id counted s.records ∙ rw same)
          | inr other ↦ (entry, get-put key id counted s.records ∙ rw other there)
        ])
  ]

  after_publish-Kept :
      (answer : Published) (entry : OutboxRecord) (r : Relay)
      → Kept id r
      → Kept id
          (after_publish publish answer entry (record r { sent = (entry, answer) ∷ r.sent })).1
  unfolding after_publish mark_published
  after_publish-Kept confirmed entry r (inr c) = inr (inr c)
  after_publish-Kept confirmed entry r (inl (e, there)) = elim (Bool-cases (str_eq id entry.id)) [
    | inl same ↦ inr (inl (sym ((eq_iff id entry.id).0 same)))
    | inr other ↦ inl (e, get-pop entry.id id r.store.records ∙ rw other there)
  ]
  after_publish-Kept (failed failure) entry r (inr c) = inr c
  after_publish-Kept (failed failure) entry r (inl there) =
      inl (record_failure-there entry.id (text_or_name failure) r.store there)

  one_more-Kept : (x : Result Failure ℕ × Relay) → Kept id x.1 → Kept id (one_more x).1
  one_more-Kept (ok n, r) k = k
  one_more-Kept (err failure, r) k = k

  go_on-Kept :
      (returned : Result Failure Unit) (swept : Result Failure ℕ × Relay) (r : Relay)
      → Kept id r
      → Kept id swept.1
      → Kept id (go_on returned swept r).1
  unfolding go_on
  go_on-Kept (ok done) swept r k after = one_more-Kept swept after
  go_on-Kept (err failure) swept r k after = k

  sweep_entries-Kept :
      (entries : List OutboxRecord) (r : Relay)
      → Kept id r
      → Kept id (sweep_entries publish entries r).1
  unfolding sweep_entries publish_entry
  sweep_entries-Kept [] r k = k
  sweep_entries-Kept (entry ∷ rest) r k =
      let answer = publish r.sent entry in
      let r' = (publish_entry publish entry r).1 in
      let k' = after_publish-Kept answer entry r k in
      let swept = sweep_entries publish rest r' in
      go_on-Kept (publish_entry publish entry r).0 swept r' k' (sweep_entries-Kept rest r' k')

-- A sweep loses nothing, wherever it stops and whatever the broker answers: a record that was in the
-- outbox is in it still, or the broker confirmed it and routed it to a queue.
pub sweep-Kept :
    (publish : List (OutboxRecord × Published) → OutboxRecord → Published) (id : String) (batch : ℕ)
    (r : Relay)
    → Kept id r
    → Kept id (sweep publish batch r).1
unfolding sweep
sweep-Kept publish id batch r k = sweep_entries-Kept publish id (pending batch r.store) r k
