-- ===== src/Patterns/ClaimCheck/Tests.antt =====
-- A payload of two bytes, at a threshold of two.
use acemq_python_amqp.Prelude.{
  ℕ, zero, suc, ◌≡◌, ◌⊎◌, refl, ap, arith, String, false, some, none, [], ◌∷◌, length, Result, ok,
  err,
}
use acemq_python_amqp.Prelude.Int.{pos, ◌≤ℤ◌, ◌<ℤ◌}
use acemq_python_amqp.Ack.{Failure}
use acemq_python_amqp.Consumer.Effects.{Bytes}
use acemq_python_amqp.Patterns.ClaimCheck.{
  Contents, in_memory, delete, Delegate, encode, decode, missing, claim_key_of, is_claim_check,
}
use acemq_python_amqp.Patterns.ClaimCheck.Round.{changed, stored, decode-encode}
use text.Mathlib.TextLemmas.{tail-eq_of_cons-eq, nil≢cons, cons≢nil}

-- Identifiers of the letter "a", as many as were made.
unary : ℕ → String
unary zero = ""
unary (suc n) = String.◌∷◌ "a" (unary n)

unary_distinct : (m n : ℕ) → unary m ≡ unary n → m ≡ n
unfolding unary
unary_distinct zero zero e = refl
unary_distinct zero (suc n) e = absurd (nil≢cons e)
unary_distinct (suc m) zero e = absurd (cons≢nil e)
unary_distinct (suc m) (suc n) e = ap suc (unary_distinct m n (tail-eq_of_cons-eq e))

as_bytes : String → Bytes
as_bytes String.[] = []
as_bytes (String.◌∷◌ c s) = 97 ∷ as_bytes s

abbrev bare : Delegate Bytes
bare = record {
  encode = λ payload. ok payload;
  decode = λ body content_type. ok body;
  encode_utf8 = as_bytes;
  decode_utf8 = λ b. ok (unary (length b));
  repr = λ s. s;
}

length-as_bytes : (n : ℕ) → length (as_bytes (unary n)) ≡ n
unfolding as_bytes unary
length-as_bytes zero = refl
length-as_bytes (suc n) = omega (arith, length-as_bytes n)

unary_back :
    (n : ℕ)
    → ◌≡◌ {A = Result Failure String} (ok (unary (length (as_bytes (unary n))))) (ok (unary n))
unary_back n = rw (length-as_bytes n) refl

abbrev nothing : Contents
nothing = record { contents = []; made = 0 }

decode-encode_example :
    let content : Bytes = 7 ∷ 8 ∷ [] in
    let sent = encode bare (in_memory unary) (pos 2) content nothing in
    let later = changed unary (stored [] ∷ []) sent.1 in
    (body : Bytes) × (sent.0 ≡ ok body)
    × (((pos (length content) <ℤ pos 2)
          × (is_claim_check bare (in_memory unary) (pos 2) body ≡ ok false)
          × (sent.1 ≡ nothing)
          × ((decode bare (in_memory unary) (pos 2) body none nothing).0
              ≡ bare.decode content none))
        ⊎ ((pos 2 ≤ℤ pos (length content))
            × (claim_key_of bare (in_memory unary) (pos 2) body ≡ ok (some (unary 0)))
            × ((decode bare (in_memory unary) (pos 2) body none later).0 ≡ bare.decode content none)
            × ((decode bare (in_memory unary) (pos 2) body none (delete (unary 0) later).1).0
                ≡ err (missing bare (in_memory unary) (pos 2) (unary 0)))))
decode-encode_example =
    decode-encode unary unary_distinct bare (pos 2) unary_back (7 ∷ 8 ∷ []) (7 ∷ 8 ∷ []) none
      nothing nothing (stored [] ∷ []) refl tt
