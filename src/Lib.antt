-- ===== src/Lib.antt =====
-- A verification library of acemq-python-amqp, a messaging library over RabbitMQ, in
-- src/acemq_amqp/ of the repository.
--
-- The program. A publisher writes an Envelope into the headers of a message (envelope.py, headers.py).
-- A Consumer (connection.py) takes deliveries from the broker (transport.py), reads the envelope back,
-- runs the interceptors and the handler (interceptors.py), decides from the handler's answer (ack.py)
-- and the retry policy (retry.py) what is to happen, and carries that out: it acknowledges the delivery,
-- or publishes a copy of the message, to a retry rung, to its own queue, to the dead letters or to the
-- parking lot (naming.py), and acknowledges the delivery only if the copy reached a queue. The patterns
-- (patterns/) are wrappers around handlers and publishers.
--
-- The files.
--   Prelude    Boolean tests, lists, results, f-strings, and integers, over the native numbers.
--   Dict       Python's dict with text keys, in insertion order.
--   Headers    headers.py, the values of headers and what the interpreter computes on them.
--   Envelope   envelope.py: `__post_init__`, `to_headers`, `from_headers`.
--   Retry      retry.py: `schedule`, `broker_rungs`, `_unjittered`, `next_wait`.
--   Ack        ack.py, and `_describe` of connection.py.
--   Naming     naming.py.
--   Interceptors   interceptors.py: `publish_chain` and `consume_chain`.
--   Consumer   connection.py, class Consumer: Effects is its state and what it does to the world,
--              Decide is `_decide`, Settle is `_carry_out` and what it calls, Deliver is `_handle`,
--              `_handle_one`, `_work_loop` and the return of pending deliveries by `close`. Ledger,
--              Conserved, Returns, Decided, Copies and Verdict hold the proofs.
--   Publisher  connection.py, class Publisher and `publish_raw` of class Connection: Outstanding is
--              `publish_raw` with its bound on outstanding publishes, Sending is `_send`, `send` and
--              `send_all`, Interleaved the turns of the tasks that publish at once. Answered, Batch and
--              Recorded hold the proofs.
--   Topology   topology.py: the builder, `validate`, `apply`, `declare_where_failures_go`.
--   Patterns   Idempotency, Saga, Scheduler, Outbox, Ordered, RoutingSlip, ClaimCheck, Replay,
--              Schema, Pipeline, RequestReply: the module of that name under src/acemq_amqp/patterns/.
--
-- How the parts meet. The publishers of RoutingSlip, Pipeline and RequestReply are those of Publisher,
-- which writes an Envelope by `to_headers`; the consumer reads it by `from_headers`. The waits of
-- Retry decide which rungs Topology declares and the names of Naming what they are called, and the
-- consumer publishes to those names.
--
-- How state and calls are modelled. An action of a consumer is a function from its World to a result
-- and a World: the World has the trace of what the consumer did, the latest first, and what an action
-- did before it raised stays done. What is outside the repository is a parameter: the broker's answer to
-- a publish, the handler, the codec, the clock, the random numbers and the fresh identifiers are functions
-- of the trace, so each may depend on all that has happened. Floats, `timedelta * float` and its
-- OverflowError are the parameter FloatTime; the conversion of texts, and of instants to and from
-- milliseconds, the parameter Interpreter, where `none` stands for what the interpreter raises.
-- Durations and instants are integers, in microseconds. A dict is the list of its items.
--
-- Bounds and fuel. Every function of the model is structurally recursive; no function has fuel. The way
-- of a scheduled message through `forward` and the rungs is the relation Delivers, which counts hops;
-- one hop more than the delay has seconds is enough. The way of a message through the followers of a
-- pipeline is the relation Travels. A replay is over the list of what its calls of `pull` come back
-- with, after which the queue is empty.
--
-- Tasks that overlap. Where the code lets tasks take turns, at the bound on outstanding publishes and at
-- the locks of ordered handling, a turn is one move between two awaits, and the theorems are about every
-- order of turns. An asyncio lock has one owner; who of those that wait gets it next is left open.
--
-- Not modelled. Of a consumer, the overlap of several workers, for its deliveries are handled one
-- after another; an acknowledgement, or the return of a delivery, that itself raises, and an observer
-- that does. Cancellation of a task, but where it is a move of a step relation or a fault that a
-- definition names. The start of a subscription, the drain timeout, health reports, and the declaring,
-- consuming, pulling and closing of a connection, which are I/O. The texts of log lines and of most
-- exceptions. What a pipeline, a requester and a responder declare and start, the files of a claim
-- check store, and the wait at the end of a replay. The deadline and logging of a chain, the consumer
-- group and streams patterns, the codecs, the broker driver, telemetry, security and the SQL stores.
pub mod Prelude
pub mod Dict
pub mod Headers
pub mod Envelope
pub mod Retry
pub mod Ack
pub mod Naming
pub mod Consumer
pub mod Interceptors
pub mod Patterns
pub mod Publisher
pub mod Topology
