-- ===== src/Interceptors/Tests.antt =====
-- interceptors.py at a chain of two. The context is the list of what has run.
use acemq_python_amqp.Prelude.{String, ◌≡◌, refl, List, [], ◌∷◌}
use acemq_python_amqp.Interceptors.{Step, Interceptor, chain}

abbrev around : String → Interceptor (List String) String
around name context rest = rest (name ∷ context)

abbrev handler : Step (List String) String
handler context = ("done", "handler" ∷ context)

two_run :
    chain (around "tracing" ∷ around "metrics" ∷ []) handler []
    ≡ ("done", "handler" ∷ "metrics" ∷ "tracing" ∷ [])
unfolding chain
two_run = refl
