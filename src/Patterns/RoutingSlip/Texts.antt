-- ===== src/Patterns/RoutingSlip/Texts.antt =====
-- The operations of `str` that patterns/routingslip.py calls: `",".join`, `split(",")`, `strip` and
-- `"," in`. Which characters `strip` takes off is a parameter, `is_space`.
use acemq_python_amqp.Prelude.{
  ◌≡◌, ◌≢◌, refl, ap, sym, ◌∙◌, String, Bool, true, false, Bool-cases, inl, inr, List, [], ◌∷◌,
  arith, if◌then◌else◌, ◌==◌, ◌&&◌, str_eq,
}
use Prim.Native.Char.{Char, code}
use Prim.Native.String
use text.Mathlib.TextLemmas.{nil-append, cons-append, append-nil}

abbrev is_comma : Char → Bool
is_comma c = code c == b','

-- `"," in s`
unfoldable pub has_comma : String → Bool
has_comma String.[] = false
has_comma (String.◌∷◌ c s) = let rest = has_comma s in if is_comma c then true else rest

-- `",".join(names)`
unfoldable pub comma_join : List String → String
comma_join [] = ""
comma_join (name ∷ []) = name
comma_join (name ∷ next ∷ rest) = String.◌++◌ name (String.◌++◌ "," (comma_join (next ∷ rest)))

abbrev cons_first : Char → List String → List String
cons_first c [] = String.◌∷◌ c "" ∷ []
cons_first c (word ∷ words) = String.◌∷◌ c word ∷ words

-- `s.split(",")`
unfoldable pub comma_split : String → List String
comma_split String.[] = "" ∷ []
comma_split (String.◌∷◌ c s) =
    let rest = comma_split s in if is_comma c then "" ∷ rest else cons_first c rest

module _ (is_space : Char → Bool) where
  unfoldable pub lstrip : String → String
  lstrip String.[] = ""
  lstrip (String.◌∷◌ c s) = let rest = lstrip s in if is_space c then rest else String.◌∷◌ c s

  unfoldable pub rstrip : String → String
  rstrip String.[] = ""
  rstrip (String.◌∷◌ c s) =
      let rest = rstrip s in if str_eq rest "" && is_space c then "" else String.◌∷◌ c rest

  -- `s.strip()`
  unfoldable pub strip : String → String
  unfolding lstrip rstrip
  strip s = rstrip (lstrip s)

-- A text with no comma in front of another text.
split_word :
    (s t : String) (words : List String)
    → has_comma s ≡ false
    → comma_split t ≡ "" ∷ words
    → comma_split (String.◌++◌ s t) ≡ s ∷ words
unfolding comma_split has_comma
split_word String.[] t words none_there e = rw (nil-append t) e
split_word (String.◌∷◌ c s) t words none_there e = elim (Bool-cases (is_comma c)) [
  | inl comma ↦ absurd (ground arith)
  | inr other ↦
      let free : has_comma s ≡ false = ground arith in
      let rest = split_word s t words free e in rw (cons-append c s t, other, rest)
]

split_alone : (s : String) → has_comma s ≡ false → comma_split s ≡ s ∷ []
split_alone s none_there =
    ap comma_split (sym (append-nil s)) ∙ split_word s "" [] none_there (unfold comma_split in refl)

comma_first : (t : String) → comma_split (String.◌++◌ "," t) ≡ "" ∷ comma_split t
unfolding comma_split
comma_first t = rw (cons-append, nil-append) refl

split-comma :
    (s t : String)
    → has_comma s ≡ false
    → comma_split (String.◌++◌ s (String.◌++◌ "," t)) ≡ s ∷ comma_split t
split-comma s t none_there =
    split_word s (String.◌++◌ "," t) (comma_split t) none_there (comma_first t)

-- Names that a route carries: not empty, with no comma and no blank at an end.
abbrev pub Plain : (Char → Bool) → List String → Type 0
Plain is_space [] = Unit {0}
Plain is_space (name ∷ rest) =
    (has_comma name ≡ false) × (strip is_space name ≡ name) × (name ≢ "") × Plain is_space rest

pub comma_split-comma_join :
    (is_space : Char → Bool) (name : String) (rest : List String)
    → Plain is_space (name ∷ rest)
    → comma_split (comma_join (name ∷ rest)) ≡ name ∷ rest
unfolding comma_join
comma_split-comma_join is_space name [] p = split_alone name p.0
comma_split-comma_join is_space name (next ∷ rest) p =
    split-comma name (comma_join (next ∷ rest)) p.0
    ∙ ap (λ words. name ∷ words) (comma_split-comma_join is_space next rest p.3)
