-- ===== src/Patterns/Schema/Entries.antt =====
-- patterns/schema.py: the two dicts whose keys are numbers and pairs, and `by_id`.
use acemq_python_amqp.Prelude.{
  ℕ, ◌≡◌, refl, sym, ap, ◌∙◌, arith, inl, inr, String, Bool, true, false, Bool-cases, some, none,
  List, [], ◌∷◌, ok, err, if◌then◌else◌, eq_iff,
}
use mathlib.Core.Path.{subst}
use acemq_python_amqp.Patterns.Schema.{
  no_schema_with_id, SchemaDefinition, find, set_entry, same_id, same_pair, InMemorySchemaRegistry,
  by_id, or_missing,
}

-- An entry that was set is found, and the others are as they were.
module _ {K V : Type 0} (same : K → K → Bool) (means : (j k : K) → same j k ≡ true → j ≡ k)
    (itself : (k : K) → same k k ≡ true) where
  pub find-set_entry-same :
      (k : K) (v : V) (d : List (K × V)) → find same k (set_entry same k v d) ≡ some v
  unfolding find set_entry
  find-set_entry-same k v [] = rw (itself k) refl
  find-set_entry-same k v ((j, w) ∷ rest) = elim (Bool-cases (same k j)) [
    | inl e ↦ rw e (rw (itself k) refl)
    | inr e ↦ rw e (rw e (find-set_entry-same k v rest))
  ]

  pub find-set_entry-other :
      (i k : K) (v : V) (d : List (K × V))
      → same i k ≡ false
      → find same i (set_entry same k v d) ≡ find same i d
  unfolding find set_entry
  find-set_entry-other i k v [] apart = rw apart refl
  find-set_entry-other i k v ((j, w) ∷ rest) apart = elim (Bool-cases (same k j)) [
    | inl e ↦ let this = means k j e in rw e (rw apart (rw (ap (same i) (sym this) ∙ apart) refl))
    | inr e ↦ rw e (rw (find-set_entry-other i k v rest apart) refl)
  ]

pub same_id-eq : (i j : ℕ) → same_id i j ≡ true → i ≡ j
same_id-eq i j e = ground arith

pub same_id_itself : (i : ℕ) → same_id i i ≡ true
same_id_itself i = ground arith

pub same_pair-eq : (p q : String × String) → same_pair p q ≡ true → p ≡ q
same_pair-eq (a, b) (c, d) e =
    let left : a ≡ c = ground (arith, eq_iff a c) in
    let right : b ≡ d = ground (arith, eq_iff b d, eq_iff a c) in rw left (rw right refl)

pub same_pair_itself : (p : String × String) → same_pair p p ≡ true
same_pair_itself (a, b) = ground (arith, eq_iff a a, eq_iff b b)

module _ (r : InMemorySchemaRegistry) where
  pub by_id-found :
      (i : ℕ) (d : SchemaDefinition) → find same_id i r.ids ≡ some d → by_id i r ≡ ok d
  unfolding by_id or_missing
  by_id-found i d e = rw e refl

  pub by_id-missing : (i : ℕ) → find same_id i r.ids ≡ none → by_id i r ≡ err (no_schema_with_id i)
  unfolding by_id or_missing
  by_id-missing i e = rw e refl

  pub by_id-same :
      (r' : InMemorySchemaRegistry) (i : ℕ)
      → find same_id i r'.ids ≡ find same_id i r.ids
      → by_id i r' ≡ by_id i r
  unfolding by_id
  by_id-same r' i e = rw e refl

  -- Two registries that differ in one schema.
  pub by_id-set :
      (r' : InMemorySchemaRegistry) (d : SchemaDefinition)
      → by_id d.id r' ≡ ok d
      → (i : ℕ) → (same_id i d.id ≡ false → by_id i r' ≡ by_id i r)
      → by_id i r' ≡ (if same_id i d.id then ok d else by_id i r)
  by_id-set r' d here i there = elim (Bool-cases (same_id i d.id)) [
    | inl e ↦ rw e (subst (λ n. by_id n r' ≡ ok d) (sym (same_id-eq i d.id e)) here)
    | inr e ↦ rw e (there e)
  ]
