-- ===== src/Base/Take.antt =====
-- One place of a list taken out of it.
use mathlib.Core.List.{List, ◌∷◌}

pub data Take {ℓ} {A : Type ℓ} (o : A) : List A → List A → Type ℓ where
  here : {xs : List A} → Take o (o ∷ xs) xs
  there : {x : A} {xs ys : List A} → Take o xs ys → Take o (x ∷ xs) (x ∷ ys)
