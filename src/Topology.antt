-- ===== src/Topology.antt =====
-- topology.py: exchanges, queues and bindings, and where a consumer's failures go.
pub mod Failures
mod Tests
use acemq_python_amqp.Prelude.{
  ℕ, ◌*◌, ◌/◌, ◌+◌, String, Bool, true, false, not, ◌&&◌, ◌||◌, Option, some, none, List, [], ◌∷◌,
  ◌++◌, map, Result, ok, err, ◌>>=◌, if◌then◌else◌, str_eq,
}
use acemq_python_amqp.Prelude.Int.{pos, pos_part}
use acemq_python_amqp.Dict.{Dict, get, put}
use acemq_python_amqp.Headers.{HeaderValue, text, integer, Interpreter, text_of}
use acemq_python_amqp.Retry.{Duration, OverflowError, FloatTime, RetryPolicy, broker_rungs}
use acemq_python_amqp.Naming.{dead_letter_queue, parked_queue, retry_queue}

abbrev pub dead_letter_exchange_arg : String
dead_letter_exchange_arg = "x-dead-letter-exchange"

abbrev pub dead_letter_routing_key_arg : String
dead_letter_routing_key_arg = "x-dead-letter-routing-key"

abbrev pub message_ttl_arg : String
message_ttl_arg = "x-message-ttl"

abbrev pub retry_exchange : String
retry_exchange = "acemq.retry"

abbrev pub dead_letter_exchange : String
dead_letter_exchange = "acemq.dlx"

abbrev pub queue_type_arg : String
queue_type_arg = "x-queue-type"

abbrev pub quorum_queue_type : String
quorum_queue_type = "quorum"

-- transport.py: `QueueSpec` and `ExchangeSpec`
pub record QueueSpec : Type 0 where
  pub durable : Bool
  pub auto_delete : Bool
  pub exclusive : Bool
  pub args : Dict HeaderValue

pub record ExchangeSpec : Type 0 where
  pub kind : String
  pub durable : Bool
  pub auto_delete : Bool
  pub args : Dict HeaderValue

-- _MANAGED_EXCHANGE
abbrev pub managed_exchange : ExchangeSpec
managed_exchange = record { kind = "direct"; durable = true; auto_delete = false; args = [] }

abbrev pub plain_queue : Bool → Dict HeaderValue → QueueSpec
plain_queue durable args = record {
  durable = durable;
  auto_delete = false;
  exclusive = false;
  args = args;
}

-- `rung_args`. `int(delay.total_seconds() * 1000)`, for a delay that is positive.
unfoldable pub rung_args : String → Duration → Dict HeaderValue
rung_args source delay =
    (message_ttl_arg, integer (pos (pos_part delay / 1000)))
    ∷ (dead_letter_exchange_arg, text retry_exchange)
    ∷ (dead_letter_routing_key_arg, text source)
    ∷ []

pub record Binding : Type 0 where
  pub queue : String
  pub exchange : String
  pub routing_key : String

pub record Topology : Type 0 where
  pub exchanges : List (String × ExchangeSpec)
  pub queues : List (String × QueueSpec)
  pub bindings : List Binding

abbrev pub empty_topology : Topology
empty_topology = record { exchanges = []; queues = []; bindings = [] }

-- The ValueErrors of this module, and the OverflowError of the retry arithmetic.
pub data TopologyError : Type 0 where
  no_exchange_name no_queue_name : TopologyError
  no_kind both_types quorum_refused both_dead_letters : String → TopologyError
  queue_twice exchange_twice : String → TopologyError
  unknown_queue default_exchange unknown_exchange : Binding → TopologyError
  overflows : OverflowError → TopologyError

-- `Topology.exchange`
unfoldable pub add_exchange : String → ExchangeSpec → Topology → Result TopologyError Topology
add_exchange name spec t =
    if str_eq name ""
    then err no_exchange_name
    else if str_eq spec.kind ""
    then err (no_kind name)
    else ok (record t { exchanges = t.exchanges ++ ((name, spec) ∷ []) })

-- What a queue is asked to be, besides its name, its dead letters and its retries.
pub record QueueShape : Type 0 where
  pub durable : Bool
  pub auto_delete : Bool
  pub exclusive : Bool
  pub quorum : Option Bool
  pub args : Dict HeaderValue

abbrev per_connection : QueueShape → Bool
per_connection q = q.exclusive || q.auto_delete || not q.durable

-- `_queue_type`
unfoldable pub unwritten_type :
    String → Option Bool → QueueShape → Result TopologyError (Option String)
unwritten_type name none q = ok (if per_connection q then none else some quorum_queue_type)
unwritten_type name (some false) q = ok none
unwritten_type name (some true) q =
    if per_connection q then err (quorum_refused name) else ok (some quorum_queue_type)

unfoldable pub written_type : String → String → Option Bool → Result TopologyError (Option String)
written_type name kind none = ok (some kind)
written_type name kind (some quorum) = err (both_types name)

unfoldable pub queue_type :
    Interpreter → String → Option HeaderValue → QueueShape → Result TopologyError (Option String)
unfolding unwritten_type written_type
queue_type py name none q = unwritten_type name q.quorum q
queue_type py name (some value) q = written_type name (text_of py value) q.quorum

abbrev pub with_type : Option String → Dict HeaderValue → Dict HeaderValue
with_type none args = args
with_type (some kind) args = put queue_type_arg (text kind) args

abbrev present : Option HeaderValue → Bool
present none = false
present (some value) = true

-- The arguments of the queue itself, with its dead letters.
unfoldable pub dead_letter_args :
    String → Bool → Dict HeaderValue → Result TopologyError (Dict HeaderValue)
dead_letter_args name false args = ok args
dead_letter_args name true args =
    if present (get dead_letter_exchange_arg args) || present (get dead_letter_routing_key_arg args)
    then err (both_dead_letters name)
    else ok (
        put dead_letter_routing_key_arg (text (dead_letter_queue name))
          (put dead_letter_exchange_arg (text dead_letter_exchange) args))

-- `any(entry.name == name for entry in entries)`
unfoldable pub has_entry : {V : Type 0} → String → List (String × V) → Bool
has_entry name [] = false
has_entry name ((key, value) ∷ rest) = str_eq key name || has_entry name rest

-- `_managed_exchange`
unfoldable pub manage : String → Topology → Topology
unfolding has_entry
manage name t =
    if has_entry name t.exchanges
    then t
    else record t { exchanges = t.exchanges ++ ((name, managed_exchange) ∷ []) }

-- A queue for failures, with its binding.
unfoldable pub add_target : Bool → String → Topology → Topology
add_target durable target t = record t {
  queues = t.queues ++ ((target, plain_queue durable []) ∷ []);
  bindings =
      t.bindings
      ++ (record { queue = target; exchange = dead_letter_exchange; routing_key = target } ∷ []);
}

unfoldable pub add_dead_letters : String → Bool → Bool → Topology → Topology
unfolding manage add_target
add_dead_letters name durable false t = t
add_dead_letters name durable true t =
    add_target durable (parked_queue name)
      (add_target durable (dead_letter_queue name) (manage dead_letter_exchange t))

-- The rungs, each a queue, and the binding that brings their messages back.
unfoldable pub add_rungs : Interpreter → String → Bool → List Duration → Topology → Topology
unfolding manage rung_args
add_rungs py name durable [] t = t
add_rungs py name durable (first ∷ rest) t =
    let managed = manage retry_exchange t in
    record managed {
      queues =
          managed.queues
          ++ map (λ rung. (retry_queue py name rung, plain_queue durable (rung_args name rung)))
              (first ∷ rest);
      bindings =
          managed.bindings
          ++ (record { queue = name; exchange = retry_exchange; routing_key = name } ∷ []);
    }

abbrev overflow_of : {A : Type 0} → Result OverflowError A → Result TopologyError A
overflow_of (ok a) = ok a
overflow_of (err x) = err (overflows x)

module _ (ft : FloatTime) (py : Interpreter) where
  -- `retry.broker_rungs()`, or no rungs without a policy.
  unfoldable pub rungs_of : Option (RetryPolicy ft.Float) → Result OverflowError (List Duration)
  rungs_of none = ok []
  rungs_of (some retry) = broker_rungs ft retry

  -- `Topology.queue`
  unfoldable pub add_queue :
      String
      → QueueShape
      → Bool
      → Option (RetryPolicy ft.Float)
      → Topology
      → Result TopologyError Topology
  unfolding queue_type dead_letter_args add_dead_letters add_rungs rungs_of
  add_queue name q dead_letter retry t =
      if str_eq name ""
      then err no_queue_name
      else queue_type py name (get queue_type_arg q.args) q >>= λ kind.
          dead_letter_args name dead_letter (with_type kind q.args) >>= λ args.
          overflow_of (rungs_of retry) >>= λ rungs.
          let spec : QueueSpec = record {
            durable = q.durable;
            auto_delete = q.auto_delete;
            exclusive = q.exclusive;
            args = args;
          } in
          ok (
            add_rungs py name q.durable rungs (
              add_dead_letters name q.durable dead_letter
                (record t { queues = t.queues ++ ((name, spec) ∷ []) })))

-- `Topology.binding`
unfoldable pub add_binding : String → String → String → Topology → Topology
add_binding queue exchange routing_key t = record t {
  bindings =
      t.bindings ++ (record { queue = queue; exchange = exchange; routing_key = routing_key } ∷ []);
}

-- The first name that stands twice.
unfoldable pub first_twice : {V : Type 0} → List (String × V) → List (String × V) → Option String
unfolding has_entry
first_twice seen [] = none
first_twice seen ((name, value) ∷ rest) =
    let later = first_twice ((name, value) ∷ seen) rest in
    if has_entry name seen then some name else later

abbrev unless : Option TopologyError → Result TopologyError Unit → Result TopologyError Unit
unless none rest = rest
unless (some x) rest = err x

abbrev as_error : (String → TopologyError) → Option String → Option TopologyError
as_error f none = none
as_error f (some name) = some (f name)

unfoldable pub check_bindings : Topology → List Binding → Result TopologyError Unit
unfolding has_entry
check_bindings t [] = ok tt
check_bindings t (b ∷ bs) =
    let rest = check_bindings t bs in
    if not (has_entry b.queue t.queues)
    then err (unknown_queue b)
    else if str_eq b.exchange ""
    then err (default_exchange b)
    else if not (has_entry b.exchange t.exchanges)
    then err (unknown_exchange b)
    else rest

-- `validate`
unfoldable pub validate : Topology → Result TopologyError Unit
unfolding first_twice check_bindings
validate t =
    unless (as_error queue_twice (first_twice [] t.queues))
      (unless (as_error exchange_twice (first_twice [] t.exchanges)) (check_bindings t t.bindings))

-- What is asked of a transport.
pub data Declaration : Type 0 where
  exchange : String → ExchangeSpec → Declaration
  queue : String → QueueSpec → Declaration
  binding : String → String → String → Declaration

-- `apply`, over a transport that refuses nothing.
unfoldable pub apply : Topology → Result TopologyError (List Declaration)
unfolding validate
apply t = validate t >>= λ _. ok (
    map (λ e. exchange e.0 e.1) t.exchanges
    ++ (map (λ q. queue q.0 q.1) t.queues
        ++ map (λ b. binding b.queue b.exchange b.routing_key) t.bindings))

-- `rungs.setdefault(naming.retry_queue(queue, delay), delay)`
unfoldable pub set_rung : Option Duration → String → Duration → Dict Duration → Dict Duration
set_rung none name delay rungs = put name delay rungs
set_rung (some first) name delay rungs = rungs

unfoldable pub named_rungs : Interpreter → String → List Duration → Dict Duration → Dict Duration
unfolding set_rung
named_rungs py source [] rungs = rungs
named_rungs py source (delay ∷ rest) rungs =
    let name = retry_queue py source delay in
    named_rungs py source rest (set_rung (get name rungs) name delay rungs)

abbrev pub rung_declaration : String → String × Duration → Declaration
rung_declaration source rung = queue rung.0 (plain_queue true (rung_args source rung.1))

unfoldable pub declare_rungs : String → Dict Duration → List Declaration
unfolding rung_args
declare_rungs source [] = []
declare_rungs source (first ∷ rest) =
    exchange retry_exchange managed_exchange
    ∷ (map (rung_declaration source) (first ∷ rest) ++ (binding source retry_exchange source ∷ []))

-- `declare_where_failures_go`, over a transport that refuses nothing.
unfoldable pub declare_where_failures_go :
    (ft : FloatTime)
    → Interpreter
    → String
    → Option (RetryPolicy ft.Float)
    → Result OverflowError (List Declaration)
unfolding rungs_of named_rungs declare_rungs
declare_where_failures_go ft py source retry = rungs_of ft py retry >>= λ rungs. ok (
    exchange dead_letter_exchange managed_exchange
    ∷ queue (dead_letter_queue source) (plain_queue true [])
    ∷ binding (dead_letter_queue source) dead_letter_exchange (dead_letter_queue source)
    ∷ queue (parked_queue source) (plain_queue true [])
    ∷ binding (parked_queue source) dead_letter_exchange (parked_queue source)
    ∷ declare_rungs source (named_rungs py source rungs []))
