-- ===== src/Patterns/Schema/Kept.antt =====
-- patterns/schema.py: a schema keeps its identifier and its version.
use acemq_python_amqp.Prelude.{
  ℕ, ◌+◌, ◌≡◌, refl, sym, ap, ◌∙◌, arith, ◌⊎◌, inl, inr, String, true, false, Bool-cases, Option,
  some, none, List, [], ◌∷◌, ◌++◌, ok, err, if◌then◌else◌, str_eq, length, ◌||◌,
}
use mathlib.Core.Path.{subst}
use acemq_python_amqp.Envelope.{Instant}
use acemq_python_amqp.Dict.{get, get-put}
use acemq_python_amqp.Patterns.Schema.{
  no_schema_with_id, new_registry, SchemaDefinition, find, same_id, same_pair,
  InMemorySchemaRegistry, versions, by_id, next_schema, add_schema, register_new, register,
}
use acemq_python_amqp.Patterns.Schema.Entries.{
  find-set_entry-same, find-set_entry-other, same_id-eq, same_id_itself, same_pair-eq,
  same_pair_itself, by_id-found, by_id-missing, by_id-same, by_id-set,
}

-- The versions of a subject count up.
abbrev pub Numbered : ℕ → List SchemaDefinition → Type 0
Numbered n [] = Unit {0}
Numbered n (v ∷ vs) = (v.version ≡ n + 1) × Numbered (n + 1) vs

Numbered-append :
    (n : ℕ) (vs : List SchemaDefinition) (v : SchemaDefinition)
    → Numbered n vs
    → v.version ≡ n + (length vs + 1)
    → Numbered n (vs ++ (v ∷ []))
Numbered-append n [] v t e = (omega (arith, e), tt)
Numbered-append n (w ∷ vs) v t e = (t.0, Numbered-append (n + 1) vs v t.1 (omega (arith, e)))

-- No identifier is used ahead of `_next_id`; what a fingerprint leads to is a schema of that subject
-- that its identifier leads to; the versions of each subject are numbered from 1 in their order.
pub record IsRegistry (r : InMemorySchemaRegistry) : Type 0 where
  pub ahead : (n : ℕ) → find same_id (r.next_id + n) r.ids ≡ none
  pub known :
      (p : String × String) (d : SchemaDefinition)
      → find same_pair p r.fingerprints ≡ some d
      → (find same_id d.id r.ids ≡ some d) × (d.subject ≡ p.0)
  pub numbered : (subject : String) → Numbered 0 (versions subject r)

module _ (fingerprint : String → String) (now : Instant) (subject format definition : String) where
  module _ (r : InMemorySchemaRegistry) (sound : IsRegistry r) where
    abbrev schema : SchemaDefinition
    schema = next_schema fingerprint now subject format definition r

    abbrev added : InMemorySchemaRegistry
    added = add_schema fingerprint now subject format definition r

    abbrev pair : String × String
    pair = (subject, fingerprint definition)

    unused : find same_id r.next_id r.ids ≡ none
    unused =
        let here : r.next_id + 0 ≡ r.next_id = omega arith in
        subst (λ n. find same_id n r.ids ≡ none) here (sound.ahead 0)

    found_schema : find same_id r.next_id added.ids ≡ some schema
    unfolding add_schema
    found_schema = find-set_entry-same same_id same_id-eq same_id_itself r.next_id schema r.ids

    found_other :
        (i : ℕ) → same_id i r.next_id ≡ false → find same_id i added.ids ≡ find same_id i r.ids
    unfolding add_schema
    found_other i apart =
        find-set_entry-other same_id same_id-eq same_id_itself i r.next_id schema r.ids apart

    known_added :
        (p : String × String) (d : SchemaDefinition)
        → same_pair p pair ≡ true
        → find same_pair p added.fingerprints ≡ some d
        → (find same_id d.id added.ids ≡ some d) × (d.subject ≡ p.0)
    unfolding add_schema
    known_added p d here e =
        let this = same_pair-eq p pair here in
        let found : find same_pair pair added.fingerprints ≡ some d =
          subst (λ q. find same_pair q added.fingerprints ≡ some d) this e in
        let stored =
          find-set_entry-same same_pair same_pair-eq same_pair_itself pair schema r.fingerprints in
        let it : schema ≡ d = cc in
        subst (λ x. (find same_id x.id added.ids ≡ some x) × (x.subject ≡ p.0)) it
          (found_schema, ap (λ q. q.0) (sym this))

    known_before :
        (p : String × String) (d : SchemaDefinition)
        → find same_pair p r.fingerprints ≡ some d
        → (find same_id d.id added.ids ≡ some d) × (d.subject ≡ p.0)
    known_before p d e =
        let was = sound.known p d e in
        elim (Bool-cases (same_id d.id r.next_id)) [
          | inl here ↦
              let missing : find same_id d.id r.ids ≡ none =
                subst (λ n. find same_id n r.ids ≡ none) (sym (same_id-eq d.id r.next_id here))
                  unused in
              absurd cc
          | inr apart ↦ (found_other d.id apart ∙ was.0, was.1)
        ]

    added-known :
        (p : String × String) (d : SchemaDefinition)
        → find same_pair p added.fingerprints ≡ some d
        → (find same_id d.id added.ids ≡ some d) × (d.subject ≡ p.0)
    unfolding add_schema
    added-known p d e = elim (Bool-cases (same_pair p pair)) [
      | inl here ↦ known_added p d here e
      | inr apart ↦ known_before p d (
          sym (
            find-set_entry-other same_pair same_pair-eq same_pair_itself p pair schema
              r.fingerprints apart)
          ∙ e)
    ]

    added-Numbered : (s : String) → Numbered 0 (versions s added)
    unfolding add_schema versions
    added-Numbered s = elim (Bool-cases (str_eq s subject)) [
      | inl here ↦ rw (get-put subject s (versions subject r ++ (schema ∷ [])) r.subjects) (
          rw here
            (Numbered-append 0 (versions subject r) schema (sound.numbered subject) (omega arith)))
      | inr apart ↦
          rw (get-put subject s (versions subject r ++ (schema ∷ [])) r.subjects)
            (rw apart (sound.numbered s))
    ]

    added-ahead : (n : ℕ) → find same_id ((r.next_id + 1) + n) added.ids ≡ none
    added-ahead n =
        let apart : same_id ((r.next_id + 1) + n) r.next_id ≡ false = ground arith in
        let further : r.next_id + (1 + n) ≡ (r.next_id + 1) + n = omega arith in
        found_other ((r.next_id + 1) + n) apart
        ∙ subst (λ i. find same_id i r.ids ≡ none) further (sound.ahead (1 + n))

    added-IsRegistry : IsRegistry added
    unfolding add_schema
    added-IsRegistry = record {
      ahead = added-ahead;
      known = added-known;
      numbered = added-Numbered;
    }

    -- What a registration comes to: the registry after it, and the schema.
    abbrev pub IsRegistered : SchemaDefinition → InMemorySchemaRegistry → Type 0
    IsRegistered d r' =
        IsRegistry r'
        × ((i : ℕ) → by_id i r' ≡ (if same_id i d.id then ok d else by_id i r))
        × ((by_id d.id r ≡ ok d) ⊎ (by_id d.id r ≡ err (no_schema_with_id d.id)))
        × (d.subject ≡ subject)
        × ((later : Instant) (other : String)
            → register fingerprint later subject other definition r' ≡ ok (d, r'))

    module _ (named : (str_eq subject "" || str_eq definition "") ≡ false) where
      register_again :
          (d : SchemaDefinition) (r' : InMemorySchemaRegistry)
          → find same_pair pair r'.fingerprints ≡ some d
          → (later : Instant) (other : String)
          → register fingerprint later subject other definition r' ≡ ok (d, r')
      unfolding register register_new
      register_again d r' e later other = rw named (rw e refl)

      register_new-IsRegistered :
          (o : Option SchemaDefinition)
          → find same_pair pair r.fingerprints ≡ o
          → let left = register_new fingerprint now subject format definition o r in
            IsRegistered left.0 left.1
      unfolding register_new
      register_new-IsRegistered (some already) e =
          let is_known = sound.known pair already e in
          let held = by_id-found r already.id already is_known.0 in
          (
            sound,
            λ i. by_id-set r r already held i (λ apart. refl),
            inl held,
            is_known.1,
            register_again already r e,
          )
      register_new-IsRegistered none e = (
        added-IsRegistry,
        λ i.
            by_id-set r added schema (by_id-found added r.next_id schema found_schema) i
              (λ apart. by_id-same r added i (found_other i apart)),
        inr (by_id-missing r r.next_id unused),
        refl,
        register_again schema added (
            unfold add_schema in
            find-set_entry-same same_pair same_pair-eq same_pair_itself pair schema r.fingerprints),
      )

      register-eq-register_new :
          register fingerprint now subject format definition r
          ≡ ok (
              register_new fingerprint now subject format definition
                (find same_pair pair r.fingerprints)
                r)
      unfolding register
      register-eq-register_new = rw named refl

    -- A registry that keeps its accounts keeps them when a schema is registered, under a subject and
    -- with a definition that are not empty. The schema comes back under its identifier, and every
    -- other identifier leads to what it led to; its own led to the same schema, or to none. It has
    -- the subject, and registering the definition under it again, in whatever format and at whatever
    -- time, gives the same schema and changes nothing.
    pub register-IsRegistered :
        (str_eq subject "" || str_eq definition "") ≡ false
        → (d : SchemaDefinition) × (r' : InMemorySchemaRegistry) × (register fingerprint now subject
              format definition r
            ≡ ok (d, r'))
          × IsRegistered d r'
    register-IsRegistered named =
        let o = find same_pair pair r.fingerprints in
        let left = register_new fingerprint now subject format definition o r in
        (left.0, left.1, register-eq-register_new named, register_new-IsRegistered named o refl)

pub new_registry-IsRegistry : IsRegistry new_registry
unfolding find versions get
new_registry-IsRegistry = record {
  ahead = λ n. refl;
  known = λ p d e. absurd cc;
  numbered = λ s. tt;
}
