-- ===== src/Patterns/Saga/Nested.antt =====
-- saga.py: a saga against nested attempts, in which each step is undone after all that came after it.
use acemq_python_amqp.Prelude.{
  String, ◌≡◌, refl, sym, ap, ◌∙◌, Bool-cases, false, ◌||◌, Option, none, some, List, [], ◌∷◌, ◌++◌,
  append-nil, append_assoc, Result-cases, ok, err, arith, inl, inr, str_eq, eq_iff,
}
use mathlib.Core.List.{reverse, reverse-cons, reverse-reverse}
use acemq_python_amqp.Ack.{Failure}
use acemq_python_amqp.Patterns.Saga.{
  SagaAction, SagaStep, SagaResult, Saga, step, any_named, step_named, undo, undo_named, compensate,
  failed_result, run_steps, run_any, run,
}

-- What an attempt at some steps came to: the names that ran, where it failed, and what could not be
-- undone.
pub record Attempt : Type 0 where
  pub ran : List String
  pub stopped : Option (String × Failure)
  pub left : List String

abbrev pub report : String → Attempt → SagaResult
report saga a = record {
  saga = saga;
  completed = a.ran;
  failed_at = elim a.stopped [ none ↦ none | some at ↦ some at.0 ];
  failure = elim a.stopped [ none ↦ none | some at ↦ some at.1 ];
  unresolved = a.left;
}

module _ {T W : Type 0} where
  abbrev pub names : List (SagaStep T W) → List String
  names [] = []
  names (s ∷ steps) = s.name ∷ names steps

  -- An attempt at the rest, around which `s` has run: `s` is undone if the rest has failed.
  abbrev pub undo_around : SagaStep T W → T → Attempt × W → Attempt × W
  undo_around s subject (a, w) = elim a.stopped [
    | none ↦ (record a { ran = s.name ∷ a.ran }, w)
    | some at ↦
        let (more, w') = undo s.compensation s.name subject w in
        (record a { ran = s.name ∷ a.ran; left = a.left ++ more }, w')
  ]

  -- The specification: run a step, attempt the rest, and undo the step if the rest failed.
  abbrev pub attempt : List (SagaStep T W) → T → W → Attempt × W
  attempt [] subject w = (record { ran = []; stopped = none; left = [] }, w)
  attempt (s ∷ rest) subject w =
      let (returned, w') = s.action subject w in
      elim returned [
        | ok done ↦ undo_around s subject (attempt rest subject w')
        | err failure ↦ (record { ran = []; stopped = some (s.name, failure); left = [] }, w')
      ]

  -- The names of the steps are distinct, which `step` sees to.
  abbrev pub DistinctSteps : List (SagaStep T W) → Type 0
  DistinctSteps [] = Unit {0}
  DistinctSteps (s ∷ rest) = (any_named s.name rest ≡ false) × DistinctSteps rest

  -- Each of the steps is found under its name.
  abbrev pub AllFound : List (SagaStep T W) → List (SagaStep T W) → Type 0
  AllFound all [] = Unit {0}
  AllFound all (s ∷ steps) = (step_named s.name all ≡ some s) × AllFound all steps

  -- The steps undone, the first of the list first.
  abbrev undo_all : List (SagaStep T W) → T → W → List String × W
  undo_all [] subject w = ([], w)
  undo_all (s ∷ steps) subject w =
      let (more, w') = undo s.compensation s.name subject w in
      let (rest, w'') = undo_all steps subject w' in (more ++ rest, w'')

  undo_named_all :
      (all steps : List (SagaStep T W)) (subject : T) (w : W)
      → AllFound all steps
      → undo_named all (names steps) subject w
        ≡ (ok (undo_all steps subject w).0, (undo_all steps subject w).1)
  unfolding undo_named
  undo_named_all all [] subject w f = refl
  undo_named_all all (s ∷ steps) subject w (found, f) = rw (
    undo_named,
    found,
    undo_named_all all steps subject (undo s.compensation s.name subject w).1 f,
  )

  compensate-found :
      (all before : List (SagaStep T W)) (subject : T) (w : W)
      → AllFound all before
      → compensate all (reverse (names before)) subject w
        ≡ (ok (undo_all before subject w).0, (undo_all before subject w).1)
  unfolding compensate
  compensate-found all before subject w f =
      ap (λ ns. undo_named all ns subject w) (reverse-reverse (names before))
      ∙ undo_named_all all before subject w f

  found_under :
      (t : SagaStep T W) (all steps : List (SagaStep T W))
      → AllFound all steps
      → any_named t.name steps ≡ false
      → AllFound (t ∷ all) steps
  unfolding step_named any_named
  found_under t all [] f fresh = tt
  found_under t all (s ∷ steps) (found, f) fresh =
      let same = eq_iff t.name s.name in
      let turned = eq_iff s.name t.name in (ground arith, found_under t all steps f (ground arith))

  distinct-AllFound : (steps : List (SagaStep T W)) → DistinctSteps steps → AllFound steps steps
  unfolding step_named
  distinct-AllFound [] d = tt
  distinct-AllFound (s ∷ steps) (fresh, d) =
      let same = eq_iff s.name s.name in
      (ground arith, found_under s steps steps (distinct-AllFound steps d) fresh)

  -- What is left of an attempt after the steps before it, latest first, are undone if it failed.
  abbrev undo_before : List (SagaStep T W) → T → Attempt × W → Attempt × W
  undo_before [] subject a = a
  undo_before (s ∷ before) subject a = undo_before before subject (undo_around s subject a)

  undo_before-failed :
      (before : List (SagaStep T W)) (subject : T) (ran left : List String) (at : String × Failure)
      (w : W)
      → undo_before before subject (record { ran = ran; stopped = some at; left = left }, w) ≡ (
        record {
          ran = reverse (names before) ++ ran;
          stopped = some at;
          left = left ++ (undo_all before subject w).0;
        },
        (undo_all before subject w).1,
      )
  undo_before-failed [] subject ran left at w = rw (append-nil left)
  undo_before-failed (s ∷ before) subject ran left at w =
      let (more, w') = undo s.compensation s.name subject w in
      undo_before-failed before subject (s.name ∷ ran) (left ++ more) at w'
      ∙ rw (
        append_assoc left more (undo_all before subject w').0,
        reverse-cons s.name (names before),
        append_assoc (reverse (names before)) (s.name ∷ []) ran,
      )

  undo_before-done :
      (before : List (SagaStep T W)) (subject : T) (ran left : List String) (w : W)
      → undo_before before subject (record { ran = ran; stopped = none; left = left }, w)
        ≡ (record { ran = reverse (names before) ++ ran; stopped = none; left = left }, w)
  undo_before-done [] subject ran left w = refl
  undo_before-done (s ∷ before) subject ran left w =
      undo_before-done before subject (s.name ∷ ran) left w
      ∙ rw (
        reverse-cons s.name (names before),
        append_assoc (reverse (names before)) (s.name ∷ []) ran,
      )

  module _ (s : Saga T W) (subject : T) where
    -- The loop of `run` from the middle of a saga is an attempt at the rest, with what is before it
    -- undone if that fails.
    run_steps-attempt :
        (before rest : List (SagaStep T W)) (w : W)
        → AllFound s.steps before
        → AllFound s.steps rest
        → run_steps s subject (reverse (names before)) rest w ≡ (
          ok (report s.name (undo_before before subject (attempt rest subject w)).0),
          (undo_before before subject (attempt rest subject w)).1,
        )
    unfolding run_steps compensate
    run_steps-attempt before [] w fb fr =
        rw (undo_before-done before subject [] [] w, append-nil (reverse (names before)))
    run_steps-attempt before (next ∷ rest) w fb (found, fr) =
        elim (Result-cases (next.action subject w).0) [
          | inl (done, e) ↦ rw e (
              ap (λ c. run_steps s subject c rest (next.action subject w).1)
                (sym (reverse-cons next.name (names before)))
              ∙ run_steps-attempt (next ∷ before) rest (next.action subject w).1 (found, fb) fr)
          | inr (failure, e) ↦
              rw
                (
                  e,
                  undo_before-failed before subject [] [] (next.name, failure)
                      (next.action subject w).1,
                  append-nil (reverse (names before)),
                )
                (ap (failed_result s subject (reverse (names before)) next.name failure)
                  (compensate-found s.steps before subject (next.action subject w).1 fb))
        ]

    -- A saga of one step or more, whose steps have distinct names, does what nested attempts do: the
    -- steps run in order up to the first that fails, and then each step that ran is undone, the latest
    -- first and each once, with the names of the compensations that failed in the order they were tried.
    pub run-attempt :
        (first : SagaStep T W) (rest : List (SagaStep T W)) (w : W)
        → s.steps ≡ first ∷ rest
        → DistinctSteps s.steps
        → run s subject w
          ≡ (ok (report s.name (attempt s.steps subject w).0), (attempt s.steps subject w).1)
    unfolding run run_any
    run-attempt first rest w e d =
        ap (λ steps. run_any s subject steps w) e
        ∙ ap (λ steps. run_steps s subject [] steps w) (sym e)
        ∙ run_steps-attempt [] s.steps w tt (distinct-AllFound s.steps d)

  any_named-append :
      (name : String) (steps : List (SagaStep T W)) (t : SagaStep T W)
      → any_named name (steps ++ t ∷ []) ≡ any_named name steps || str_eq t.name name
  unfolding any_named
  any_named-append name [] t = ground arith
  any_named-append name (s ∷ steps) t = ground (arith, any_named-append name steps t)

  distinct-append :
      (steps : List (SagaStep T W)) (t : SagaStep T W)
      → DistinctSteps steps
      → any_named t.name steps ≡ false
      → DistinctSteps (steps ++ t ∷ [])
  unfolding any_named
  distinct-append [] t d fresh = (refl, tt)
  distinct-append (s ∷ steps) t (other, d) fresh =
      let same = eq_iff t.name s.name in
      let turned = eq_iff s.name t.name in
      (any_named-append s.name steps t ∙ ground arith, distinct-append steps t d (ground arith))

  names-append :
      (steps : List (SagaStep T W)) (t : SagaStep T W)
      → names (steps ++ t ∷ []) ≡ names steps ++ t.name ∷ []
  names-append [] t = refl
  names-append (s ∷ steps) t = ap (λ ns. s.name ∷ ns) (names-append steps t)

  -- Adding a step keeps the names of a saga's steps distinct, or is refused; the step is the last.
  step-DistinctSteps :
      (name : String) (action : SagaAction T W) (compensation : Option (SagaAction T W))
      (s s' : Saga T W)
      → DistinctSteps s.steps
      → step name action compensation s ≡ ok s'
      → DistinctSteps s'.steps × (names s'.steps ≡ names s.steps ++ name ∷ [])
  unfolding step
  step-DistinctSteps name action compensation s s' d e = elim (Bool-cases (str_eq name "")) [
    | inl empty ↦ absurd (ground (arith, rw empty at e))
    | inr named ↦ elim (Bool-cases (any_named name s.steps)) [
      | inl used ↦ absurd (ground (arith, rw (named, used) at e))
      | inr fresh ↦
          let added : SagaStep T W = record {
            name = name;
            action = action;
            compensation = compensation;
          } in
          let q : record s { steps = s.steps ++ added ∷ [] } ≡ s' = cc (rw (named, fresh) at e) in
          rw (sym q) (distinct-append s.steps added d fresh, names-append s.steps added)
    ]
  ]
