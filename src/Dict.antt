-- ===== src/Dict.antt =====
-- Python's `dict` with text keys, as the list of its items in insertion order.
use acemq_python_amqp.Prelude.{
  String, ◌≡◌, refl, Bool, Option, some, none, List, [], ◌∷◌, arith, if◌then◌else◌, str_eq, eq_iff,
}

abbrev pub Dict : Type 0 → Type 0
Dict V = List (String × V)

module _ {V : Type 0} where
  -- `d.get(k)`
  unfoldable pub get : String → Dict V → Option V
  get k [] = none
  get k ((j, v) ∷ d) = if str_eq k j then some v else get k d

  -- `d[k] = v`: a key that is there keeps its place.
  unfoldable pub put : String → V → Dict V → Dict V
  put k v [] = (k, v) ∷ []
  put k v ((j, w) ∷ d) = if str_eq k j then (j, v) ∷ d else (j, w) ∷ put k v d

  -- `d.pop(k, None)`
  unfoldable pub pop : String → Dict V → Dict V
  pop k [] = []
  pop k ((j, v) ∷ d) = let rest = pop k d in if str_eq k j then rest else (j, v) ∷ rest

  -- `d.update(items)`
  unfoldable pub update : Dict V → Dict V → Dict V
  unfolding put
  update d [] = d
  update d ((k, v) ∷ items) = update (put k v d) items

  -- `{n: v for n, v in d.items() if keep(n)}`
  unfoldable pub keep_keys : (String → Bool) → Dict V → Dict V
  keep_keys keep [] = []
  keep_keys keep ((k, v) ∷ d) =
      let rest = keep_keys keep d in if keep k then (k, v) ∷ rest else rest

  pub get-put :
      (k j : String) (v : V) (d : Dict V)
      → get j (put k v d) ≡ (if str_eq j k then some v else get j d)
  unfolding get put
  get-put k j v [] = refl
  get-put k j v ((i, w) ∷ d) = ground (arith, eq_iff k i, eq_iff j i, eq_iff j k, get-put k j v d)

  pub get-pop :
      (k j : String) (d : Dict V) → get j (pop k d) ≡ (if str_eq j k then none else get j d)
  unfolding get pop
  get-pop k j [] = ground arith
  get-pop k j ((i, w) ∷ d) = ground (arith, eq_iff k i, eq_iff j i, eq_iff j k, get-pop k j d)

  -- What `update` leaves at a key: its own value, or the one that was there. The items of a dict
  -- have distinct keys, which `Unique` states.
  abbrev pub or_else : Option V → Option V → Option V
  or_else none o = o
  or_else (some v) o = some v

  abbrev pub Unique : Dict V → Type 0
  Unique [] = Unit {0}
  Unique ((k, v) ∷ d) = (get k d ≡ none) × Unique d

  pub get-update :
      (j : String) (d items : Dict V)
      → Unique items
      → get j (update d items) ≡ or_else (get j items) (get j d)
  unfolding get update
  get-update j d [] u = refl
  get-update j d ((k, v) ∷ items) u =
      ground (arith, get-update j (put k v d) items u.1, get-put k j v d, eq_iff j k)

  pub get-keep_keys :
      (keep : String → Bool) (j : String) (d : Dict V)
      → get j (keep_keys keep d) ≡ (if keep j then get j d else none)
  unfolding get keep_keys
  get-keep_keys keep j [] = ground arith
  get-keep_keys keep j ((k, v) ∷ d) = ground (arith, get-keep_keys keep j d, eq_iff j k)
