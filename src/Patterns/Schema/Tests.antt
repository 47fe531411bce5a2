-- ===== src/Patterns/Schema/Tests.antt =====
-- One schema, and a second version of it.
use acemq_python_amqp.Prelude.{◌≡◌, refl, String, ok}
use acemq_python_amqp.Prelude.Int.{pos}
use acemq_python_amqp.Patterns.Schema.{
  SchemaDefinition, InMemorySchemaRegistry, new_registry, register,
}
use acemq_python_amqp.Patterns.Schema.Kept.{
  IsRegistered, new_registry-IsRegistry, register-IsRegistered,
}

abbrev own_print : String → String
own_print definition = definition

register-IsRegistered_example :
    (d : SchemaDefinition) × (r' : InMemorySchemaRegistry) × (register own_print
        (pos 0)
        "order.placed"
        "avro"
        "{}"
        new_registry
      ≡ ok (d, r'))
    × IsRegistered own_print
        (pos 0)
        "order.placed"
        "avro"
        "{}"
        new_registry
        new_registry-IsRegistry
        d
        r'
register-IsRegistered_example =
    register-IsRegistered own_print (pos 0) "order.placed" "avro" "{}" new_registry
      new_registry-IsRegistry refl
