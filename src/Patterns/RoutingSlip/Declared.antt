-- ===== src/Patterns/RoutingSlip/Declared.antt =====
-- patterns/routingslip.py: a declared route, written onto an envelope and read back.
use acemq_python_amqp.Prelude.{
  ℕ, suc, ◌≤◌, ◌≡◌, refl, ap, String, Bool, true, false, none, some, List, [], ◌∷◌, ◌++◌, map,
  arith, length, take, drop, ok, eq_iff,
}
use acemq_python_amqp.Prelude.Int.{pos}
use acemq_python_amqp.Dict.{get}
use acemq_python_amqp.Headers.{Interpreter}
use acemq_python_amqp.Envelope.{Envelope, any_reserved, filled, post_init}
use acemq_python_amqp.Patterns.RoutingSlip.Texts.{
  comma_join, comma_split, strip, Plain, comma_split-comma_join,
}
use acemq_python_amqp.Patterns.RoutingSlip.Json.{JsonText}
use acemq_python_amqp.Patterns.RoutingSlip.Slip.{
  slip_header, SlipForm, Step, bare_step, RoutingSlip, all_on, step_word, words_of, names_of_all,
  names_of, run_or, onto_as, onto,
}
use acemq_python_amqp.Patterns.RoutingSlip.Reading.{
  SlipText, stripped, cut_at, declared_route, read_slip, slip_from,
}
use Prim.Native.Char.{Char}

-- Steps of one exchange that are named after their routing keys.
abbrev pub OnRoute : String → List String → List Step → Type 0
OnRoute pipeline [] [] = Unit {0}
OnRoute pipeline (name ∷ names) (step ∷ steps) =
    (step.exchange ≡ pipeline)
    × (step.name ≡ name)
    × (step.routing_key ≡ name)
    × OnRoute pipeline names steps
OnRoute pipeline _ _ = ⊥

-- What `_declared_route` makes of a route.
abbrev pub route_slip : String → String → List String → List String → RoutingSlip
route_slip pipeline run before after = record {
  steps = map (λ n. bare_step pipeline n n) after;
  done = map (λ n. bare_step pipeline n n) before;
  run_id = run;
  form = SlipForm.step_names;
}

pub bare-OnRoute :
    (pipeline : String) (names : List String)
    → OnRoute pipeline names (map (λ n. bare_step pipeline n n) names)
bare-OnRoute pipeline [] = tt
bare-OnRoute pipeline (n ∷ names) = (refl, refl, refl, bare-OnRoute pipeline names)

pub OnRoute-append :
    (pipeline : String) (ms ns : List String) (ss ts : List Step)
    → OnRoute pipeline ms ss
    → OnRoute pipeline ns ts
    → OnRoute pipeline (ms ++ ns) (ss ++ ts)
OnRoute-append pipeline [] ns [] ts p q = q
OnRoute-append pipeline (m ∷ ms) ns (s ∷ ss) ts p q =
    (p.0, p.1, p.2, OnRoute-append pipeline ms ns ss ts p.3 q)
OnRoute-append pipeline [] ns (s ∷ ss) ts p q = absurd p
OnRoute-append pipeline (m ∷ ms) ns [] ts p q = absurd p

OnRoute-length :
    (pipeline : String) (ns : List String) (ss : List Step)
    → OnRoute pipeline ns ss
    → length ss ≡ length ns
OnRoute-length pipeline [] [] p = refl
OnRoute-length pipeline (n ∷ ns) (s ∷ ss) p = ap suc (OnRoute-length pipeline ns ss p.3)
OnRoute-length pipeline [] (s ∷ ss) p = absurd p
OnRoute-length pipeline (n ∷ ns) [] p = absurd p

all_on_lem :
    (pipeline : String) (ns : List String) (ss : List Step)
    → OnRoute pipeline ns ss
    → all_on pipeline ss ≡ true
unfolding all_on
all_on_lem pipeline [] [] p = refl
all_on_lem pipeline (n ∷ ns) (s ∷ ss) p =
    ground (arith, all_on_lem pipeline ns ss p.3, eq_iff pipeline s.exchange)
all_on_lem pipeline [] (s ∷ ss) p = absurd p
all_on_lem pipeline (n ∷ ns) [] p = absurd p

module _ (is_space : Char → Bool) (pipeline : String) where
  words_of_lem :
      (ns : List String) (ss : List Step)
      → Plain is_space ns
      → OnRoute pipeline ns ss
      → words_of ss ≡ ok ns
  unfolding words_of step_word
  words_of_lem [] [] plain p = refl
  words_of_lem (n ∷ ns) (s ∷ ss) plain p =
      rw (p.1, p.2) (ground (arith, words_of_lem ns ss plain.3 p.3, eq_iff n "", eq_iff n n))
  words_of_lem [] (s ∷ ss) plain p = absurd p
  words_of_lem (n ∷ ns) [] plain p = absurd p

  pub names_of_all_lem :
      (n : String) (ns : List String) (ss : List Step)
      → Plain is_space (n ∷ ns)
      → OnRoute pipeline (n ∷ ns) ss
      → names_of_all ss ≡ ok (n ∷ ns)
  unfolding names_of_all
  names_of_all_lem n ns [] plain p = absurd p
  names_of_all_lem n ns (s ∷ ss) plain p =
      rw (p.0, all_on_lem pipeline ns ss p.3) (words_of_lem (n ∷ ns) (s ∷ ss) plain p)

stripped_lem :
    (py : Interpreter) (st : SlipText) (ns : List String)
    → Plain st.is_space ns
    → stripped py st ns ≡ ns
unfolding stripped
stripped_lem py st [] plain = refl
stripped_lem py st (n ∷ ns) plain =
    ground (arith, stripped_lem py st ns plain.3, eq_iff n "", eq_iff (strip st.is_space n) "")

drop-map-append :
    {A : Type 0} (g : String → A) (ms ns : List String)
    → (drop (length ms) (map g (ms ++ ns)) ≡ map g ns)
      × (take (length ms) (map g (ms ++ ns)) ≡ map g ms)
      × (length ms ≤ length (map g (ms ++ ns)))
drop-map-append g [] ns = (refl, refl, omega arith)
drop-map-append g (m ∷ ms) ns =
    let rest = drop-map-append g ms ns in (rest.0, ap (λ l. g m ∷ l) rest.1, omega arith)

-- What a declared route leaves on an envelope that has no other slip.
pub record Routed (route run : String) (position : ℕ) (e : Envelope) : Type 0 where
  pub route_is : e.route ≡ route
  pub position_is : e.route_position ≡ pos position
  pub run_is : e.route_id ≡ run
  pub no_slip : get slip_header e.headers ≡ none
  pub application : any_reserved e.headers ≡ false

module _ (py : Interpreter) (st : SlipText) (pipeline run : String) where
  cut_lem :
      (before : List String) (n : String) (after : List String)
      → cut_at py st (length before) pipeline run (before ++ (n ∷ after))
        ≡ some (route_slip pipeline run before (n ∷ after))
  cut_lem [] n after = ground arith
  cut_lem (b ∷ before) n after =
      let cut = drop-map-append (λ m. bare_step pipeline m m) (b ∷ before) (n ∷ after) in
      ground arith

  split_back :
      (before : List String) (n : String) (after : List String)
      → Plain st.is_space (before ++ (n ∷ after))
      → comma_split (comma_join (before ++ (n ∷ after))) ≡ before ++ (n ∷ after)
  split_back [] n after plain = comma_split-comma_join st.is_space n after plain
  split_back (b ∷ before) n after plain =
      comma_split-comma_join st.is_space b (before ++ (n ∷ after)) plain

  pub declared_lem :
      (before : List String) (n : String) (after : List String) (e : Envelope)
      → Plain st.is_space (before ++ (n ∷ after))
      → Routed (comma_join (before ++ (n ∷ after))) run (length before) e
      → slip_from py st e pipeline ≡ ok (some (route_slip pipeline run before (n ∷ after)))
  unfolding slip_from read_slip declared_route
  declared_lem before n after e plain r =
      rw
        (
          r.no_slip,
          r.route_is,
          r.position_is,
          r.run_is,
          split_back before n after plain,
          stripped_lem py st (before ++ (n ∷ after)) plain,
        )
        (ap ok (cut_lem before n after))

module _ (j : JsonText) (is_space : Char → Bool) (pipeline : String) where
  names_joined :
      (before : List String) (n : String) (after : List String) (ss : List Step)
      → Plain is_space (before ++ (n ∷ after))
      → OnRoute pipeline (before ++ (n ∷ after)) ss
      → names_of_all ss ≡ ok (before ++ (n ∷ after))
  names_joined [] n after ss plain p = names_of_all_lem is_space pipeline n after ss plain p
  names_joined (b ∷ before) n after ss plain p =
      names_of_all_lem is_space pipeline b (before ++ (n ∷ after)) ss plain p

  -- A slip on a declared route, written onto an envelope.
  pub onto-Routed :
      (fresh : String) (slip : RoutingSlip) (before : List String) (n : String)
      (after : List String) (e : Envelope)
      → slip.form ≡ SlipForm.step_names
      → OnRoute pipeline before slip.done
      → OnRoute pipeline (n ∷ after) slip.steps
      → Plain is_space (before ++ (n ∷ after))
      → any_reserved e.headers ≡ false
      → get slip_header e.headers ≡ none
      → (e' : Envelope) × (onto j fresh slip e ≡ ok e')
        × Routed (comma_join (before ++ (n ∷ after))) (run_or slip.run_id fresh) (length before) e'
  unfolding onto onto_as names_of post_init filled
  onto-Routed fresh slip before n after e form done steps plain clean free =
      let names : names_of_all (slip.done ++ slip.steps) ≡ ok (before ++ (n ∷ after)) =
        names_joined before n after (slip.done ++ slip.steps) plain
          (OnRoute-append pipeline before (n ∷ after) slip.done slip.steps done steps) in
      let left : Envelope = filled (record e {
        route = comma_join (before ++ (n ∷ after));
        route_position = pos (length slip.done);
        route_id = run_or slip.run_id fresh;
      }) in
      (
        left,
        rw (form, names, clean) refl,
        record {
          route_is = refl;
          position_is = ground (arith, OnRoute-length pipeline before slip.done done);
          run_is = refl;
          no_slip = free;
          application = clean;
        },
      )
