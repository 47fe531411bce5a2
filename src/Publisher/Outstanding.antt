-- ===== src/Publisher/Outstanding.antt =====
-- connection.py: `Connection.publish_raw` and the bound on the publishes that wait for the broker;
-- errors.py: `PublishError`; transport.py: `PublishResult`.
use acemq_python_amqp.Prelude.{
  ℕ, ◌+◌, ◌-◌, String, Bool, true, false, not, ◌&&◌, Option, some, none, [], ◌∷◌, Result, ok, err,
  concat, if◌then◌else◌, str_eq,
}
use acemq_python_amqp.Prelude.Int.{ℤ, pos, pos_part, ltb_ℤ, leb_ℤ}
use acemq_python_amqp.Retry.{Duration, zero_duration}
use acemq_python_amqp.Ack.{Failure}

pub record PublishResult : Type 0 where
  pub message_id : String
  pub confirmed : Bool
  pub routed : Bool
  pub return_reason : String

-- The fields of the exception, with its keyword arguments.
pub record PublishError : Type 0 where
  pub message_id : String
  pub exchange : String
  pub routing_key : String
  pub reason : String
  pub unroutable : Bool
  pub summary : String

-- What a publish raises: a `PublishingPausedError`, another `PublishError`, another `Exception`, or
-- the `CancelledError` of its task, which is not an `Exception`.
pub data PublishFault : Type 0 where
  paused declined : PublishError → PublishFault
  raised : Failure → PublishFault
  cancelled : PublishFault

-- What Python writes for a text by `!r`, for a number and for a timedelta.
pub record Wording : Type 0 where
  pub repr : String → String
  pub str_of_nat : ℕ → String
  pub str_of_timedelta : Duration → String

-- `PublishError.__init__`: what `str` of the exception is.
unfoldable pub error_text : Wording → PublishError → String
error_text words e =
    let where_to =
      concat ("exchange " ∷ words.repr e.exchange ∷ " with key " ∷ words.repr e.routing_key ∷ []) in
    if not (str_eq e.summary "")
    then e.summary
    else if e.unroutable
    then concat (
        "acemq: message " ∷ e.message_id ∷ " to " ∷ where_to ∷ " reached no queue: " ∷ e.reason
        ∷ [])
    else concat
        ("acemq: cannot publish message " ∷ e.message_id ∷ " to " ∷ where_to ∷ ": " ∷ e.reason ∷ [])

-- What a publish is called with, as far as its exceptions name it.
pub record Request : Type 0 where
  pub message_id : String
  pub exchange : String
  pub routing_key : String

abbrev pub error_about : Request → String → PublishError
error_about r reason = record {
  message_id = r.message_id;
  exchange = r.exchange;
  routing_key = r.routing_key;
  reason = reason;
  unroutable = false;
  summary = "";
}

-- The connection's bound, its semaphore's value and `_in_flight_publishes`.
pub record Gate : Type 0 where
  pub max_outstanding : ℕ
  pub permits : ℕ
  pub in_flight : ℕ

-- The ValueErrors of `Connection.__init__`.
pub data ConnectionError : Type 0 where
  negative_prefetch no_room : ℤ → ConnectionError
  no_time : Duration → ConnectionError

abbrev pub open_gate : ℕ → Gate
open_gate most = record { max_outstanding = most; permits = most; in_flight = 0 }

-- `Connection.__init__`, as far as the gate.
unfoldable pub new_gate : ℤ → ℤ → Duration → Result ConnectionError Gate
new_gate prefetch most timeout =
    if ltb_ℤ prefetch (pos 0)
    then err (negative_prefetch prefetch)
    else if ltb_ℤ most (pos 1)
    then err (no_room most)
    else if leb_ℤ timeout zero_duration
    then err (no_time timeout)
    else ok (open_gate (pos_part most))

-- BLOCKED_DETAIL
abbrev pub blocked_text : String
blocked_text = "the broker has blocked this connection; publishing is paused"

-- `_blocked_detail`
unfoldable pub blocked_detail : Option String → String
blocked_detail none = blocked_text
blocked_detail (some reason) =
    if str_eq reason "" then blocked_text else concat (blocked_text ∷ ": " ∷ reason ∷ [])

-- Where a publish stands: called, waiting for a permit, waiting for the broker, or over.
pub data Stage : Type 0 where
  called waiting writing : Stage
  over : Result PublishFault PublishResult → Stage

-- What the wait for a permit comes to, and what the wait for the broker does: `silent` is a confirm
-- that did not come within the timeout.
pub data Permit : Type 0 where
  granted none_free interrupted : Permit

pub data Reply : Type 0 where
  answered : PublishResult → Reply
  silent : Reply
  failed : PublishFault → Reply

-- What one publish meets on its way.
pub record Weather : Type 0 where
  pub blocked : Option Bool
  pub blocked_reason : Option String
  pub permit : Permit
  pub reply : Reply

module _ (words : Wording) (most : ℕ) (timeout : Duration) (r : Request) where
  -- The test of `self.blocked is True`.
  unfoldable pub look : Option Bool → Option String → Stage
  look (some true) reason = over (
      err (
        paused (
          error_about r (
            concat (
              blocked_detail reason
              ∷ ". Nothing was sent; back off and retry once the broker unblocks"
              ∷ [])))))
  look (some false) reason = waiting
  look none reason = waiting

  unfoldable pub stalled : PublishError
  stalled = error_about r (
      concat (
        words.str_of_nat most
        ∷ " publishes are already waiting for a confirm and none completed within "
        ∷ words.str_of_timedelta timeout
        ∷ ". The broker is not keeping up; publish more slowly rather than buffering more."
        ∷ []))

  unfoldable pub acquire : Permit → Stage
  acquire granted = writing
  acquire none_free = over (err (declined stalled))
  acquire interrupted = over (err cancelled)

  unfoldable pub unconfirmed : PublishError
  unconfirmed = error_about r (
      concat (
        "the broker did not confirm this publish within "
        ∷ words.str_of_timedelta timeout
        ∷ ". It may or may not have been stored, so treat it as neither sent nor lost"
        ∷ []))

  unfoldable pub nacked : PublishError
  nacked = error_about r (
      concat (
        "the broker refused to confirm it. The message reached the broker and the broker has not "
        ∷ "taken responsibility for it, so it must be treated as not sent" ∷ []))

  -- What is raised or returned for the broker's answer.
  unfoldable pub conclude_publish : Reply → Result PublishFault PublishResult
  conclude_publish silent = err (declined unconfirmed)
  conclude_publish (failed fault) = err fault
  conclude_publish (answered result) =
      if not result.confirmed && result.routed then err (declined nacked) else ok result

  unfoldable pub after_permit : Stage → Reply → Result PublishFault PublishResult
  after_permit (over ending) reply = ending
  after_permit _ reply = conclude_publish reply

  unfoldable pub after_look : Stage → Permit → Reply → Result PublishFault PublishResult
  after_look (over ending) permit reply = ending
  after_look _ permit reply = after_permit (acquire permit) reply

  -- `publish_raw`, as its caller sees it.
  unfoldable pub publish_raw : Weather → Result PublishFault PublishResult
  publish_raw w = after_look (look w.blocked w.blocked_reason) w.permit w.reply

-- `self._outstanding.acquire()` that succeeds, with the increment.
unfoldable pub take_permit : Gate → Gate
take_permit g = record g { permits = g.permits - 1; in_flight = g.in_flight + 1 }

-- The `finally`.
unfoldable pub give_permit : Gate → Gate
give_permit g = record g { permits = g.permits + 1; in_flight = g.in_flight - 1 }
