-- ===== src/Patterns/ClaimCheck/Round.antt =====
-- patterns/claimcheck.py: what was encoded is decoded, through the store or not.
use acemq_python_amqp.Prelude.{
  ℕ, ◌<◌, ◌≡◌, ◌≢◌, ◌⊎◌, inl, inr, refl, ◌∙◌, arith, String, false, Bool-cases, Option, some, none,
  List, [], ◌∷◌, length, ok, err, eq_iff,
}
use acemq_python_amqp.Prelude.Int.{ℤ, pos, ltb_ℤ, ◌≤ℤ◌, ◌<ℤ◌}
use acemq_python_amqp.Dict.{get, put, pop, get-put, get-pop}
use acemq_python_amqp.Consumer.Effects.{Bytes}
use acemq_python_amqp.Patterns.ClaimCheck.{
  Contents, remember, recall, delete, in_memory, Delegate, frame, is_framed, encode_body, encode,
  missing, decode_content, decode_claimed, decode, claim_key_of, is_claim_check, inline_kind,
  checked_kind,
}

-- What happens to the store between an encode and a decode: other payloads come and go.
pub data Change : Type 0 where
  stored : Bytes → Change
  deleted : String → Change

abbrev pub change : (ℕ → String) → Change → Contents → Contents
change uuid (stored content) s = (remember uuid content s).1
change uuid (deleted key) s = (delete key s).1

abbrev pub changed : (ℕ → String) → List Change → Contents → Contents
changed uuid [] s = s
changed uuid (c ∷ cs) s = changed uuid cs (change uuid c s)

-- No change deletes what is under the key.
abbrev pub Spares : String → List Change → Type 0
Spares key [] = Unit {0}
Spares key (stored content ∷ cs) = Spares key cs
Spares key (deleted k ∷ cs) = (k ≢ key) × Spares key cs

module _ (uuid : ℕ → String) (distinct : (m n : ℕ) → uuid m ≡ uuid n → m ≡ n) where
  -- A payload stays where it was put.
  kept :
      (n : ℕ) (content : Bytes) (cs : List Change) (s : Contents)
      → Spares (uuid n) cs
      → n < s.made
      → get (uuid n) s.contents ≡ some content
      → get (uuid n) (changed uuid cs s).contents ≡ some content
  unfolding remember delete
  kept n content [] s spared older e = e
  kept n content (stored other ∷ cs) s spared older e =
      kept n content cs (change uuid (stored other) s) spared (omega arith) (
        ground (
          arith,
          get-put (uuid s.made) (uuid n) other s.contents,
          eq_iff (uuid n) (uuid s.made),
          distinct n s.made,
        ))
  kept n content (deleted k ∷ cs) s spared older e =
      kept n content cs (change uuid (deleted k) s) spared.1 older
        (ground (arith, get-pop k (uuid n) s.contents, eq_iff (uuid n) k, spared.0))

  module _ {P : Type 0} (d : Delegate P) (threshold : ℤ)
      (utf8 : (n : ℕ) → d.decode_utf8 (d.encode_utf8 (uuid n)) ≡ ok (uuid n)) where
    decode_inline :
        (content : Bytes) (content_type : Option String) (w : Contents)
        → ((decode d (in_memory uuid) threshold (frame inline_kind content) content_type w).0
            ≡ d.decode content content_type)
          × (is_claim_check d (in_memory uuid) threshold (frame inline_kind content) ≡ ok false)
    unfolding decode frame is_framed is_claim_check claim_key_of
    decode_inline content content_type w = (refl, refl)

    decode_checked :
        (n : ℕ) (content_type : Option String) (w : Contents)
        → let key = uuid n in
          let body = frame checked_kind (d.encode_utf8 key) in
          ((decode d (in_memory uuid) threshold body content_type w).0
            ≡ decode_content d
                (in_memory uuid)
                threshold
                key
                content_type
                (ok (get key w.contents)))
          × (claim_key_of d (in_memory uuid) threshold body ≡ ok (some key))
    unfolding decode frame is_framed claim_key_of decode_claimed recall
    decode_checked n content_type w = (rw (utf8 n) refl, rw (utf8 n) refl)

    abbrev checked_body : String → Bytes
    checked_body key = frame checked_kind (d.encode_utf8 key)

    -- A body that stands for content in the store.
    checked :
        (content : Bytes) (content_type : Option String) (s : Contents) (cs : List Change)
        → Spares (uuid s.made) cs
        → let later = changed uuid cs (remember uuid content s).1 in
          let body = checked_body (uuid s.made) in
          (claim_key_of d (in_memory uuid) threshold body ≡ ok (some (uuid s.made)))
          × ((decode d (in_memory uuid) threshold body content_type later).0
              ≡ d.decode content content_type)
          × ((decode d
                (in_memory uuid)
                threshold
                body
                content_type
                (delete (uuid s.made) later).1).0
              ≡ err (missing d (in_memory uuid) threshold (uuid s.made)))
    unfolding remember delete decode_content
    checked content content_type s cs spared =
        let key = uuid s.made in
        let later = changed uuid cs (remember uuid content s).1 in
        let there : get key (put key content s.contents) ≡ some content =
          ground (arith, get-put key key content s.contents, eq_iff key key) in
        let still = kept s.made content cs (remember uuid content s).1 spared (omega arith) there in
        let gone : get key (pop key later.contents) ≡ none =
          ground (arith, get-pop key key later.contents, eq_iff key key) in
        (
          (decode_checked s.made content_type later).1,
          (decode_checked s.made content_type later).0 ∙ rw still refl,
          (decode_checked s.made content_type (delete key later).1).0 ∙ rw gone refl,
        )

    -- The content of a message: its payload, encoded by the delegate. Below the threshold the body
    -- carries it and is no claim check, and it is decoded whatever the store holds. From the threshold
    -- on the body is a claim check for a new key, which the store holds the content under; after any
    -- changes to the store that do not delete that key, `decode` is what the delegate makes of the
    -- content, and once the key is deleted it is a FatalError. Identifiers are distinct, and UTF-8
    -- decodes those that it encoded.
    pub decode-encode :
        (payload : P) (content : Bytes) (content_type : Option String) (s s' : Contents)
        (cs : List Change)
        → d.encode payload ≡ ok content
        → Spares (uuid s.made) cs
        → let sent = encode d (in_memory uuid) threshold payload s in
          let later = changed uuid cs sent.1 in
          (body : Bytes) × (sent.0 ≡ ok body)
          × (((pos (length content) <ℤ threshold)
                × (is_claim_check d (in_memory uuid) threshold body ≡ ok false)
                × (sent.1 ≡ s)
                × ((decode d (in_memory uuid) threshold body content_type s').0
                    ≡ d.decode content content_type))
              ⊎ ((threshold ≤ℤ pos (length content))
                  × (claim_key_of d (in_memory uuid) threshold body ≡ ok (some (uuid s.made)))
                  × ((decode d (in_memory uuid) threshold body content_type later).0
                      ≡ d.decode content content_type)
                  × ((decode d
                        (in_memory uuid)
                        threshold
                        body
                        content_type
                        (delete (uuid s.made) later).1).0
                      ≡ err (missing d (in_memory uuid) threshold (uuid s.made)))))
    unfolding encode encode_body remember
    decode-encode payload content content_type s s' cs encoded spared =
        elim (Bool-cases (ltb_ℤ (pos (length content)) threshold)) [
          | inl small ↦
              let back = decode_inline content content_type s' in
              rw (encoded, small)
                (frame inline_kind content, refl, inl (ground arith, back.1, refl, back.0))
          | inr large ↦
              let held = checked content content_type s cs spared in
              rw (encoded, large)
                (checked_body (uuid s.made), refl, inr (ground arith, held.0, held.1, held.2))
        ]
