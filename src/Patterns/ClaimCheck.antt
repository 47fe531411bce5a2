-- ===== src/Patterns/ClaimCheck.antt =====
-- patterns/claimcheck.py: a codec that leaves a large body in a store and sends a reference to it.
pub mod Round
mod Tests
use acemq_python_amqp.Prelude.{
  ℕ, zero, suc, String, Bool, true, false, not, ◌&&◌, ◌||◌, Option, some, none, List, [], ◌∷◌, ◌++◌,
  length, ltb, leb, ◌==◌, Result, ok, err, ◌>>=◌, concat, if◌then◌else◌,
}
use acemq_python_amqp.Prelude.Int.{ℤ, pos, ltb_ℤ, leb_ℤ}
use acemq_python_amqp.Dict.{Dict, get, put, pop}
use acemq_python_amqp.Ack.{Failure, fatal, ordinary}
use acemq_python_amqp.Consumer.Effects.{Bytes}
use acemq_python_amqp.Patterns.Idempotency.{Call}
use Prim.Native.Char.{Char, code}
use Prim.Native.String

abbrev pub magic : ℕ
magic = 0xAC

abbrev pub frame_version : ℕ
frame_version = 1

abbrev pub inline_kind : ℕ
inline_kind = 0

abbrev pub checked_kind : ℕ
checked_kind = 1

abbrev pub default_threshold : ℤ
default_threshold = pos 65536

-- `ClaimCheckStore`
pub record ClaimCheckStore (W : Type 0) : Type 0 where
  pub put : Bytes → Call W String
  pub get : String → Call W (Option Bytes)
  pub delete : String → Call W Unit

-- `InMemoryClaimCheckStore`: what it holds, and how many identifiers `uuid4` has made.
pub record Contents : Type 0 where
  pub contents : Dict Bytes
  pub made : ℕ

unfoldable pub remember : (ℕ → String) → Bytes → Call Contents String
remember uuid content s = (
  ok (uuid s.made),
  record s { contents = put (uuid s.made) content s.contents; made = suc s.made },
)

unfoldable pub recall : String → Call Contents (Option Bytes)
recall key s = (ok (get key s.contents), s)

unfoldable pub delete : String → Call Contents Unit
delete key s = (ok tt, record s { contents = pop key s.contents })

unfoldable pub clear : Contents → Contents
clear s = record s { contents = [] }

-- `__len__`
unfoldable pub held_count : Contents → ℕ
held_count s = length s.contents

abbrev pub in_memory : (ℕ → String) → ClaimCheckStore Contents
in_memory uuid = record {
  put = λ content. remember uuid content;
  get = λ key. recall key;
  delete = λ key. delete key;
}

-- What the codec calls: its delegate, and UTF-8, whose strict decoding may raise.
pub record Delegate (P : Type 0) : Type 0 where
  pub encode : P → Result Failure Bytes
  pub decode : Bytes → Option String → Result Failure P
  pub encode_utf8 : String → Bytes
  pub decode_utf8 : Bytes → Result Failure String
  pub repr : String → String

-- `_frame`
unfoldable pub frame : ℕ → Bytes → Bytes
frame kind rest = magic ∷ frame_version ∷ kind ∷ rest

-- `_is_framed`, of a body that is there.
unfoldable pub is_framed : Bytes → Bool
is_framed (first ∷ second ∷ kind ∷ rest) =
    first == magic && second == frame_version && (kind == inline_kind || kind == checked_kind)
is_framed _ = false

-- `body[2]` and `body[_HEADER:]`
abbrev pub kind_of : Bytes → ℕ
kind_of (first ∷ second ∷ kind ∷ rest) = kind
kind_of _ = 0

abbrev pub rest_of : Bytes → Bytes
rest_of (first ∷ second ∷ kind ∷ rest) = rest
rest_of _ = []

pub data ThresholdError : Type 0 where
  negative : ℤ → ThresholdError

-- The ValueError of `ClaimCheckCodec.__init__`.
unfoldable pub checked_threshold : ℤ → Result ThresholdError ℤ
checked_threshold threshold =
    if ltb_ℤ threshold (pos 0) then err (negative threshold) else ok threshold

module _ {P W : Type 0} (d : Delegate P) (store : ClaimCheckStore W) (threshold : ℤ) where
  abbrev pub framed_key : Result Failure String → Result Failure Bytes
  framed_key (ok key) = ok (frame checked_kind (d.encode_utf8 key))
  framed_key (err failure) = err failure

  unfoldable pub encode_body : Result Failure Bytes → Call W Bytes
  encode_body (err failure) w = (err failure, w)
  encode_body (ok encoded) w =
      let (key, w') = store.put encoded w in
      if ltb_ℤ (pos (length encoded)) threshold
      then (ok (frame inline_kind encoded), w)
      else (framed_key key, w')

  -- `encode`
  unfoldable pub encode : P → Call W Bytes
  unfolding encode_body
  encode payload w = encode_body (d.encode payload) w

  abbrev pub missing : String → Failure
  missing key = record {
    kind = fatal;
    name = "FatalError";
    text = concat (
        "acemq: the claim check "
        ∷ d.repr key
        ∷ " is not in the store, so this message cannot be read. The payload was removed while a "
        ∷ "message referring to it was still deliverable — the store's retention has to outlast "
        ∷ "every queue, every dead-letter queue, and any replay somebody might do by hand."
        ∷ []);
  }

  unfoldable pub decode_content :
      String → Option String → Result Failure (Option Bytes) → Result Failure P
  decode_content key content_type (err failure) = err failure
  decode_content key content_type (ok none) = err (missing key)
  decode_content key content_type (ok (some content)) = d.decode content content_type

  unfoldable pub decode_claimed : Result Failure String → Option String → Call W P
  unfolding decode_content
  decode_claimed (err failure) content_type w = (err failure, w)
  decode_claimed (ok key) content_type w =
      let (content, w') = store.get key w in (decode_content key content_type content, w')

  -- `decode`
  unfoldable pub decode : Bytes → Option String → Call W P
  unfolding decode_claimed is_framed
  decode body content_type w =
      if not (is_framed body)
      then (d.decode body content_type, w)
      else if kind_of body == inline_kind
      then (d.decode (rest_of body) content_type, w)
      else decode_claimed (d.decode_utf8 (rest_of body)) content_type w

  abbrev some_key : Result Failure String → Result Failure (Option String)
  some_key (ok key) = ok (some key)
  some_key (err failure) = err failure

  -- `claim_key_of`
  unfoldable pub claim_key_of : Bytes → Result Failure (Option String)
  unfolding is_framed
  claim_key_of body =
      if not (is_framed body) || not (kind_of body == checked_kind)
      then ok none
      else some_key (d.decode_utf8 (rest_of body))

  abbrev is_some : Result Failure (Option String) → Result Failure Bool
  is_some (ok (some key)) = ok true
  is_some (ok none) = ok false
  is_some (err failure) = err failure

  -- `is_claim_check`
  unfoldable pub is_claim_check : Bytes → Result Failure Bool
  unfolding claim_key_of
  is_claim_check body = is_some (claim_key_of body)

-- `FilesystemClaimCheckStore._SAFE_KEY`: a letter or a digit, then at most 127 of those, `.`, `_`, `-`.
abbrev between : ℕ → ℕ → ℕ → Bool
between low high c = leb low c && leb c high

unfoldable pub is_key_start : Char → Bool
is_key_start c =
    between b'A' b'Z' (code c) || between b'a' b'z' (code c) || between b'0' b'9' (code c)

unfoldable pub is_key_char : Char → Bool
unfolding is_key_start
is_key_char c = is_key_start c || code c == b'.' || code c == b'_' || code c == b'-'

unfoldable pub key_chars : ℕ → String → Bool
unfolding is_key_char
key_chars room String.[] = true
key_chars zero (String.◌∷◌ c s) = false
key_chars (suc room) (String.◌∷◌ c s) = is_key_char c && key_chars room s

unfoldable pub is_safe_key : String → Bool
unfolding key_chars is_key_start
is_safe_key String.[] = false
is_safe_key (String.◌∷◌ c s) = is_key_start c && key_chars 127 s

-- `_path_for`: the file of a key in the directory, or the AceMQError.
unfoldable pub path_for : (String → String) → String → String → Result Failure String
unfolding is_safe_key
path_for repr directory key =
    if is_safe_key key
    then ok (concat (directory ∷ "/" ∷ key ∷ []))
    else err (record {
      kind = ordinary;
      name = "AceMQError";
      text = concat (
          "acemq: "
          ∷ repr key
          ∷ " is not a key this store issued. A key becomes a path segment, so one arriving "
          ∷ "from a message is checked rather than trusted."
          ∷ []);
    })
