-- ===== src/Publisher/Batch.antt =====
-- connection.py: `Publisher.send_all`, once every send of the batch has come to its end.
use acemq_python_amqp.Prelude.{
  ℕ, suc, ◌+◌, ◌≡◌, refl, ap, ◌∙◌, ◌↔◌, inl, inr, Option-cases, String, false, Option, some, none,
  List, [], ◌∷◌, ◌++◌, map, arith, length, append_assoc, append-nil, Result, ok, err, concat,
  if◌then◌else◌, str_eq,
}
use acemq_python_amqp.Publisher.Outstanding.{
  PublishResult, PublishError, PublishFault, paused, declined, raised, cancelled, Wording,
  error_text,
}

-- The variables of the loop over what `gather` returned.
pub record Tally : Type 0 where
  pub results : List PublishResult
  pub first_failure : Option PublishFault
  pub failed : ℕ

-- `if first_failure is None: first_failure = outcome`
abbrev pub first_of : Option PublishFault → PublishFault → Option PublishFault
first_of none fault = some fault
first_of (some first) fault = some first

unfoldable pub count_outcome : Tally → Result PublishFault PublishResult → Tally
count_outcome tally (err fault) = record tally {
  failed = tally.failed + 1;
  first_failure = first_of tally.first_failure fault;
}
count_outcome tally (ok result) = record tally { results = tally.results ++ (result ∷ []) }

unfoldable pub count_all : Tally → List (Result PublishFault PublishResult) → Tally
unfolding count_outcome
count_all tally [] = tally
count_all tally (outcome ∷ rest) = count_all (count_outcome tally outcome) rest

abbrev pub nothing_yet : Tally
nothing_yet = record { results = []; first_failure = none; failed = 0 }

module _ (words : Wording) where
  abbrev pub named : String → String → String
  named text name = if str_eq text "" then name else text

  -- `str(first_failure) or type(first_failure).__name__`
  unfoldable pub described : PublishFault → String
  described (paused e) = named (error_text words e) "PublishingPausedError"
  described (declined e) = named (error_text words e) "PublishError"
  described (raised failure) = named failure.text failure.name
  described cancelled = "CancelledError"

  -- The PublishError of a batch of `size` messages.
  unfoldable pub batch_error : String → String → ℕ → Tally → PublishFault → PublishError
  batch_error exchange routing_key size tally first = record {
    message_id = "";
    exchange = exchange;
    routing_key = routing_key;
    reason = described first;
    unroutable = false;
    summary = concat (
        words.str_of_nat tally.failed
        ∷ " of "
        ∷ words.str_of_nat size
        ∷ " messages were not confirmed; "
        ∷ words.str_of_nat (length tally.results)
        ∷ " were. The first failure was: "
        ∷ described first
        ∷ []);
  }

  module _ (exchange routing_key : String) where
    unfoldable pub batch_answer :
        ℕ → Tally → Option PublishFault → Result PublishFault (List PublishResult)
    batch_answer size tally none = ok tally.results
    batch_answer size tally (some first) =
        err (declined (batch_error exchange routing_key size tally first))

    -- `send_all`, from what its sends came to, in the order of the payloads.
    unfoldable pub send_all :
        List (Result PublishFault PublishResult) → Result PublishFault (List PublishResult)
    send_all settled =
        let tally = count_all nothing_yet settled in
        batch_answer (length settled) tally tally.first_failure

-- The messages of a batch that arrived, and the number of those that did not.
pub arrived : List (Result PublishFault PublishResult) → List PublishResult
arrived [] = []
arrived (err fault ∷ rest) = arrived rest
arrived (ok result ∷ rest) = result ∷ arrived rest

pub lost : List (Result PublishFault PublishResult) → ℕ
lost [] = 0
lost (err fault ∷ rest) = suc (lost rest)
lost (ok result ∷ rest) = lost rest

pub first_fault : List (Result PublishFault PublishResult) → Option PublishFault
first_fault [] = none
first_fault (err fault ∷ rest) = some fault
first_fault (ok result ∷ rest) = first_fault rest

abbrev or_first : Option PublishFault → Option PublishFault → Option PublishFault
or_first none o = o
or_first (some first) o = some first

or_first-none : (o : Option PublishFault) → or_first o none ≡ o
or_first-none none = refl
or_first-none (some first) = refl

or_first-first_of :
    (o : Option PublishFault) (fault : PublishFault) (q : Option PublishFault)
    → or_first (first_of o fault) q ≡ or_first o (some fault)
or_first-first_of none fault q = refl
or_first-first_of (some first) fault q = refl

count_all_lem :
    (tally : Tally) (settled : List (Result PublishFault PublishResult))
    → count_all tally settled ≡ record {
      results = tally.results ++ arrived settled;
      first_failure = or_first tally.first_failure (first_fault settled);
      failed = tally.failed + lost settled;
    }
unfolding count_all count_outcome arrived lost first_fault
count_all_lem tally [] = ground (arith, append-nil tally.results, or_first-none tally.first_failure)
count_all_lem tally (err fault ∷ rest) = ground (
  arith,
  count_all_lem (count_outcome tally (err fault)) rest,
  or_first-first_of tally.first_failure fault (first_fault rest),
)
count_all_lem tally (ok result ∷ rest) = ground (
  arith,
  count_all_lem (count_outcome tally (ok result)) rest,
  append_assoc tally.results (result ∷ []) (arrived rest),
)

none_lost :
    (rs : List PublishResult) → (first_fault (map ok rs) ≡ none) × (arrived (map ok rs) ≡ rs)
unfolding first_fault arrived
none_lost [] = (refl, refl)
none_lost (r ∷ rs) = ground (arith, none_lost rs)

all_arrived :
    (settled : List (Result PublishFault PublishResult))
    → first_fault settled ≡ none
    → settled ≡ map ok (arrived settled)
unfolding first_fault arrived
all_arrived [] e = refl
all_arrived (ok r ∷ rest) e = ap (λ l. ok r ∷ l) (all_arrived rest e)
all_arrived (err fault ∷ rest) e = cc

mixed :
    (before : List PublishResult) (fault : PublishFault)
    (after : List (Result PublishFault PublishResult))
    → let batch = map ok before ++ (err fault ∷ after) in
      (first_fault batch ≡ some fault)
      × (arrived batch ≡ before ++ arrived after)
      × (lost batch ≡ suc (lost after))
unfolding first_fault arrived lost
mixed [] fault after = (refl, refl, refl)
mixed (r ∷ before) fault after = ground (arith, mixed before fault after)

length-arrived :
    (settled : List (Result PublishFault PublishResult))
    → length settled ≡ lost settled + length (arrived settled)
unfolding arrived lost
length-arrived [] = omega arith
length-arrived (ok r ∷ rest) = omega (arith, length-arrived rest)
length-arrived (err fault ∷ rest) = omega (arith, length-arrived rest)

module _ (words : Wording) (exchange routing_key : String) where
  ok_iff :
      (settled : List (Result PublishFault PublishResult)) (rs : List PublishResult)
      → (send_all words exchange routing_key settled ≡ ok rs) ↔ (settled ≡ map ok rs)
  unfolding send_all batch_answer
  ok_iff settled rs =
      let counted = count_all_lem nothing_yet settled in
      elim (Option-cases (first_fault settled)) [
        | inl e ↦
            let fine = all_arrived settled e in
            (
              λ (h : send_all words exchange routing_key settled ≡ ok rs).
                  let same : arrived settled ≡ rs = ground arith in fine ∙ ap (map ok) same,
              λ (h : settled ≡ map ok rs).
                  let same : arrived settled ≡ rs = ap arrived h ∙ (none_lost rs).1 in ground arith,
            )
        | inr (fault, e) ↦ (
          λ (h : send_all words exchange routing_key settled ≡ ok rs). absurd (ground arith),
          λ (h : settled ≡ map ok rs).
              let clean : first_fault settled ≡ none = ap first_fault h ∙ (none_lost rs).0 in cc,
        )
      ]

  -- `send_all` returns results exactly when every send of the batch returned, and then theirs in the
  -- order of the payloads. If the first send to raise stands after `before` that returned, the batch
  -- raises one PublishError with that failure described and three numbers in its summary: the sends
  -- that raised, the size of the batch, and the sends that returned, wherever they stand; the first
  -- and the last add up to the size.
  pub send_all_lem :
      (settled : List (Result PublishFault PublishResult)) (rs before : List PublishResult)
      (fault : PublishFault) (after : List (Result PublishFault PublishResult))
      → let batch = map ok before ++ (err fault ∷ after) in
        let tally : Tally = record {
          results = before ++ arrived after;
          first_failure = some fault;
          failed = suc (lost after);
        } in
        ((send_all words exchange routing_key settled ≡ ok rs) ↔ (settled ≡ map ok rs))
        × (send_all words exchange routing_key batch
            ≡ err (declined (batch_error words exchange routing_key (length batch) tally fault)))
        × (length batch ≡ tally.failed + length tally.results)
  unfolding send_all batch_answer
  send_all_lem settled rs before fault after =
      let batch = map ok before ++ (err fault ∷ after) in
      (
        ok_iff settled rs,
        ground (arith, count_all_lem nothing_yet batch, mixed before fault after),
        ground (arith, length-arrived batch, mixed before fault after),
      )
