-- ===== src/Prelude/Automata.antt =====
-- Partial automata: what a sequence of inputs makes of a state.
use mathlib.Core.Path.{◌≡◌, refl, ap, ◌∙◌}
use mathlib.Core.List.{List, [], ◌∷◌, ◌++◌}
use mathlib.Core.Option.{Option, none, some}

module _ {A B : Type 0} (step : A → B → Option A) where
  -- `none` as soon as a step is refused.
  unfoldable pub steps : A → List B → Option A
  steps s [] = some s
  steps s (c ∷ cs) = elim (step s c) [ none ↦ none | some t ↦ steps t cs ]

  pub steps-cons :
      (s t : A) (c : B) (cs : List B) → step s c ≡ some t → steps s (c ∷ cs) ≡ steps t cs
  unfolding steps
  steps-cons s t c cs e = ap (λ (o : Option A). elim o [ none ↦ none | some u ↦ steps u cs ]) e

  pub steps_nil : (s : A) → steps s [] ≡ some s
  unfolding steps
  steps_nil s = refl

  pub steps-one : (s t : A) (c : B) → step s c ≡ some t → steps s (c ∷ []) ≡ some t
  steps-one s t c e = steps-cons s t c [] e ∙ steps_nil t

  pub steps-append :
      (s t : A) (xs ys : List B) → steps s xs ≡ some t → steps s (xs ++ ys) ≡ steps t ys
  unfolding steps
  steps-append s t [] ys e = cc
  steps-append s t (x ∷ xs) ys e = through (step s x) e (λ u e'. steps-append u t xs ys e')
    where
      through :
          (o : Option A)
          → elim o [ none ↦ none | some u ↦ steps u xs ] ≡ some t
          → ((u : A) → steps u xs ≡ some t → steps u (xs ++ ys) ≡ steps t ys)
          → elim o [ none ↦ none | some u ↦ steps u (xs ++ ys) ] ≡ steps t ys
      through none e rec = absurd cc
      through (some u) e rec = rec u e
