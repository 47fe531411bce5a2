-- ===== src/Patterns/Schema.antt =====
-- patterns/schema.py: the schemas of messages, kept in the process.
mod Entries
mod Kept
mod Tests
use acemq_python_amqp.Prelude.{
  ℕ, ◌+◌, String, Bool, true, false, ◌&&◌, ◌||◌, Option, some, none, List, [], ◌∷◌, ◌++◌, Result,
  ok, err, if◌then◌else◌, str_eq, ◌==◌, length,
}
use acemq_python_amqp.Envelope.{Instant}
use acemq_python_amqp.Dict.{Dict, get, put}

pub record SchemaDefinition : Type 0 where
  pub id : ℕ
  pub subject : String
  pub version : ℕ
  pub format : String
  pub definition : String
  pub fingerprint : String
  pub registered_at : Instant

-- The ValueError of `register`, and the SchemaNotFoundErrors of `by_id` and `latest`.
pub data SchemaError : Type 0 where
  no_subject_or_definition : SchemaError
  no_schema_with_id : ℕ → SchemaError
  no_schema_for_subject : String → SchemaError

-- A dict whose keys are not texts: `get`, and `d[key] = value`.
module _ {K V : Type 0} (same : K → K → Bool) where
  unfoldable pub find : K → List (K × V) → Option V
  find k [] = none
  find k ((j, v) ∷ rest) = let later = find k rest in if same k j then some v else later

  unfoldable pub set_entry : K → V → List (K × V) → List (K × V)
  set_entry k v [] = (k, v) ∷ []
  set_entry k v ((j, w) ∷ rest) =
      let later = set_entry k v rest in if same k j then (k, v) ∷ rest else (j, w) ∷ later

abbrev pub same_id : ℕ → ℕ → Bool
same_id i j = i == j

abbrev pub same_pair : String × String → String × String → Bool
same_pair (a, b) (c, d) = str_eq a c && str_eq b d

-- `InMemorySchemaRegistry`
pub record InMemorySchemaRegistry : Type 0 where
  pub ids : List (ℕ × SchemaDefinition)
  pub subjects : Dict (List SchemaDefinition)
  pub fingerprints : List ((String × String) × SchemaDefinition)
  pub next_id : ℕ

abbrev pub new_registry : InMemorySchemaRegistry
new_registry = record { ids = []; subjects = []; fingerprints = []; next_id = 1 }

abbrev pub or_no_versions : Option (List SchemaDefinition) → List SchemaDefinition
or_no_versions none = []
or_no_versions (some vs) = vs

-- `versions`
unfoldable pub versions : String → InMemorySchemaRegistry → List SchemaDefinition
versions subject r = or_no_versions (get subject r.subjects)

unfoldable pub or_missing : ℕ → Option SchemaDefinition → Result SchemaError SchemaDefinition
or_missing id none = err (no_schema_with_id id)
or_missing id (some schema) = ok schema

unfoldable pub by_id : ℕ → InMemorySchemaRegistry → Result SchemaError SchemaDefinition
unfolding or_missing
by_id id r = or_missing id (find same_id id r.ids)

-- `versions[-1]`, of versions that there are.
unfoldable pub last_of : String → List SchemaDefinition → Result SchemaError SchemaDefinition
last_of subject [] = err (no_schema_for_subject subject)
last_of subject (v ∷ []) = ok v
last_of subject (v ∷ w ∷ rest) = last_of subject (w ∷ rest)

unfoldable pub latest : String → InMemorySchemaRegistry → Result SchemaError SchemaDefinition
unfolding last_of
latest subject r = last_of subject (versions subject r)

-- `fingerprint` is SHA-256 in hexadecimal, and `now` the clock.
module _ (fingerprint : String → String) (now : Instant) (subject format definition : String) where
  abbrev pub next_schema : InMemorySchemaRegistry → SchemaDefinition
  next_schema r = record {
    id = r.next_id;
    subject = subject;
    version = length (versions subject r) + 1;
    format = format;
    definition = definition;
    fingerprint = fingerprint definition;
    registered_at = now;
  }

  unfoldable pub add_schema : InMemorySchemaRegistry → InMemorySchemaRegistry
  add_schema r =
      let schema = next_schema r in
      record {
        ids = set_entry same_id schema.id schema r.ids;
        subjects = put subject (versions subject r ++ (schema ∷ [])) r.subjects;
        fingerprints = set_entry same_pair (subject, fingerprint definition) schema r.fingerprints;
        next_id = r.next_id + 1;
      }

  unfoldable pub register_new :
      Option SchemaDefinition → InMemorySchemaRegistry → SchemaDefinition × InMemorySchemaRegistry
  register_new (some already) r = (already, r)
  register_new none r = (next_schema r, add_schema r)

  -- `register`
  unfoldable pub register :
      InMemorySchemaRegistry → Result SchemaError (SchemaDefinition × InMemorySchemaRegistry)
  unfolding register_new add_schema
  register r =
      if str_eq subject "" || str_eq definition ""
      then err no_subject_or_definition
      else ok (register_new (find same_pair (subject, fingerprint definition) r.fingerprints) r)
