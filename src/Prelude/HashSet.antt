-- ===== src/Prelude/HashSet.antt =====
-- `HashSet`, as a list without repetition in some order of iteration.
use mathlib.Core.Path.{◌≡◌}
use mathlib.Core.Bool.{Bool, false, ◌||◌}
use mathlib.Core.List.{List, [], ◌∷◌}
use native.Mathlib.Omega.{arith}
use sidecar.Prelude.Tests.{if◌then◌else◌}
use sidecar.Prelude.Equality.{Eq, ◌==◌}

module _ {ℓ} {A : Type ℓ} ⦃e : Eq A⦄ where
  abbrev pub contains : A → List A → Bool
  contains a [] = false
  contains a (x ∷ xs) = x == a || contains a xs

  -- `insert` returns whether the element is new: the negation of `contains`.
  abbrev pub insert : A → List A → List A
  insert a xs = if contains a xs then xs else a ∷ xs

  pub contains-insert :
      (a b : A) (xs : List A) → contains b (insert a xs) ≡ (a == b) || contains b xs
  contains-insert a b xs = ground (arith, e.beq_iff a b, contains_same xs)
    where
      contains_same : (ys : List A) → a ≡ b → contains a ys ≡ contains b ys
      contains_same ys p = λ i. contains (p i) ys
