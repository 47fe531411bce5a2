-- ===== src/Interceptors.antt =====
-- src/acemq_amqp/interceptors.py: the chains that a publish and a handler run in. A context is
-- changed in place, so a step returns the context that it leaves; what a step raises is part of its
-- answer.
mod Tests
use acemq_python_amqp.Prelude.{◌≡◌, refl, ◌∙◌, ap, List, [], ◌∷◌, ◌++◌}
use mathlib.Core.List.{reverse, reverse-cons}

-- The rest of a chain, over contexts `C` and answers `R`.
abbrev pub Step : Type 0 → Type 0 → Type 0
Step C R = C → R × C

abbrev pub Interceptor : Type 0 → Type 0 → Type 0
Interceptor C R = C → Step C R → R × C

module _ {C R : Type 0} where
  -- `_publish_step` and `_consume_step`
  unfoldable pub link : Interceptor C R → Step C R → Step C R
  link interceptor rest = λ context. interceptor context rest

  -- The loop: each interceptor goes around what is composed so far.
  unfoldable pub compose : Step C R → List (Interceptor C R) → Step C R
  unfolding link
  compose composed [] = composed
  compose composed (interceptor ∷ rest) = compose (link interceptor composed) rest

  -- `publish_chain` and `consume_chain`, which differ in their types only.
  unfoldable pub chain : List (Interceptor C R) → Step C R → Step C R
  unfolding compose
  chain interceptors innermost = compose innermost (reverse interceptors)

  compose-append :
      (s : Step C R) (is js : List (Interceptor C R))
      → compose s (is ++ js) ≡ compose (compose s is) js
  unfolding compose
  compose-append s [] js = refl
  compose-append s (i ∷ is) js = compose-append (link i s) is js

  -- The first interceptor registered is the outermost: a chain runs it first, around the chain of
  -- the others; an empty chain is the innermost work.
  chain_outermost :
      (i : Interceptor C R) (is : List (Interceptor C R)) (s : Step C R)
      → (chain [] s ≡ s) × (chain (i ∷ is) s ≡ link i (chain is s))
  unfolding chain
  chain_outermost i is s =
      (refl, ap (compose s) (reverse-cons i is) ∙ compose-append s (reverse is) (i ∷ []))
