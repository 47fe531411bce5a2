-- ===== src/Consumer/Effects.antt =====
-- connection.py: what a consumer reads and what it leaves: messages as they arrive and go out, the
-- trace of what it did to the broker and to the metrics, and actions that may raise.
use acemq_python_amqp.Prelude.{ℕ, String, Bool, Option, List, ◌∷◌, Result, ok, err}
use acemq_python_amqp.Prelude.Int.{ℤ}
use acemq_python_amqp.Dict.{Dict}
use acemq_python_amqp.Headers.{HeaderValue, Interpreter}
use acemq_python_amqp.Envelope.{Envelope, Instant}
use acemq_python_amqp.Retry.{Duration, FloatTime, RetryPolicy}
use acemq_python_amqp.Ack.{Ack, Outcome, Settlement, Failure}
use acemq_python_amqp.Interceptors.{Interceptor}

abbrev pub Bytes : Type 0
Bytes = List ℕ

-- transport.py: `Outbound`
pub record Outbound : Type 0 where
  pub body : Bytes
  pub content_type : String
  pub message_id : String
  pub reply_to : String
  pub headers : Dict HeaderValue
  pub persistent : Bool
  pub mandatory : Bool

-- transport.py: `Delivery`, without the two callbacks, which are the effects `ack` and `nack`.
pub record Delivery : Type 0 where
  pub body : Bytes
  pub content_type : Option String
  pub routing_key : String
  pub message_id : String
  pub headers : Dict HeaderValue
  pub redelivered : Bool
  pub reply_to : String

-- What `publish_raw` comes back with: a result that was routed or was not, a PublishError, or
-- another exception.
pub data PublishAnswer : Type 0 where
  routed unrouted : PublishAnswer
  refused : String → PublishAnswer
  broke : Failure → PublishAnswer

-- The label `where` of the retry counter.
pub data Place : Type 0 where
  consumer broker requeued : Place

-- What a consumer does to the world outside: to the delivery, to the broker, to the clock and to the
-- observer.
pub data Effect : Type 0 where
  ack : Effect
  nack : Bool → Effect
  published : String → Outbound → PublishAnswer → Effect
  slept : Duration → Effect
  announced : Settlement → Effect
  halting : Effect
  consume_attempts : ℤ → Effect
  in_flight_gauge : ℕ → Effect
  consume_total : Outcome → Effect
  consume_duration : Outcome → Effect
  retried_total : Place → Effect
  rung_missing : String → Effect
  dead_lettered_total : Outcome → Effect
  set_aside_failed : String → Effect

-- The trace has the latest effect first.
pub record World : Type 0 where
  pub trace : List Effect
  pub halted : Bool
  pub in_flight : ℕ

-- A delivery as the handler sees it.
pub record Message (P : Type 0) : Type 0 where
  pub payload : P
  pub envelope : Envelope
  pub routing_key : String
  pub content_type : Option String
  pub redelivered : Bool
  pub body : Bytes
  pub reply_to : String

-- interceptors.py: `ConsumeContext`, without the settlement listeners, which only observe.
pub record ConsumeContext (P : Type 0) : Type 0 where
  pub queue : String
  pub envelope : Envelope
  pub payload : P
  pub body : Bytes
  pub content_type : Option String
  pub routing_key : String
  pub redelivered : Bool
  pub reports_settlement : Bool
  pub reply_to : String

-- What a handler returns: an Ack, or an object of another class, by the name of that class.
pub data Answer : Type 0 where
  decided : Ack → Answer
  not_an_ack : String → Answer

-- What a consumer is built from, and what it calls that is not in this repository: the codec, the
-- handler and the interceptors, the broker, the clock and the random numbers. Each may depend on all
-- that has happened.
pub record Setup (ft : FloatTime) (P : Type 0) : Type 0 where
  pub queue : String
  pub retry : RetryPolicy ft.Float
  pub py : Interpreter
  pub decode : List Effect → Bytes → Option String → Result Failure P
  pub handler : List Effect → Message P → Result Failure Answer
  pub interceptors : List Effect → List (Interceptor (ConsumeContext P) (Result Failure Answer))
  pub publish : List Effect → String → Outbound → PublishAnswer
  pub now : List Effect → Instant
  pub random : List Effect → ft.Float
  pub fresh_id : List Effect → String

-- An action: what was done before a raise stays done.
abbrev pub Exec : Type 0 → Type 0
Exec A = World → Result Failure A × World

module _ {A : Type 0} where
  abbrev pub pure : A → Exec A
  pure a w = (ok a, w)

  abbrev pub lift : Result Failure A → Exec A
  lift r w = (r, w)

abbrev pub emit : Effect → Exec Unit
emit e w = (ok tt, record w { trace = e ∷ w.trace })

module _ {A B : Type 0} where
  abbrev pub continue : Result Failure A → (A → Exec B) → Exec B
  continue (ok a) f = f a
  continue (err e) f = λ w. (err e, w)

  infixl 5 ◌>>=◌ ◌>>◌
  abbrev pub ◌>>=◌ : Exec A → (A → Exec B) → Exec B
  ◌>>=◌ m f w = let (r, w') = m w in continue r f w'

  abbrev pub ◌>>◌ : Exec A → Exec B → Exec B
  m >> n = m >>= λ _. n
