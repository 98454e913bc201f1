-- ===== src/Base/Sort.antt =====
-- `ORDER BY`: insertion sort by a test `before`, which puts a row ahead of the rows that it does
-- not come after.
use pqc_grade_a.Base.Tests.{if◌then◌else◌}
use pqc_grade_a.Base.Table.{count}
use mathlib.Core.Path.{◌≡◌, refl}
use mathlib.Core.Bool.{Bool}
use mathlib.Core.List.{List, [], ◌∷◌}
use native.Mathlib.Omega.{arith}

module _ {ℓ} {A : Type ℓ} (before : A → A → Bool) where
  unfoldable pub place : A → List A → List A
  place x [] = x ∷ []
  place x (y ∷ ys) = if before x y then x ∷ y ∷ ys else y ∷ place x ys

  unfoldable pub order_by : List A → List A
  unfolding place
  order_by [] = []
  order_by (x ∷ xs) = place x (order_by xs)

module _ {ℓ} {A : Type ℓ} (before : A → A → Bool) (p : A → Bool) where
  count-place : (x : A) (ys : List A) → count p (place before x ys) ≡ count p (x ∷ ys)
  unfolding place count
  count-place x [] = refl
  count-place x (y ∷ ys) = ground (arith, count-place x ys)

  -- Sorting loses no row and repeats none.
  pub count-order_by : (xs : List A) → count p (order_by before xs) ≡ count p xs
  unfolding order_by count
  count-order_by [] = refl
  count-order_by (x ∷ xs) = ground (arith, count-place x (order_by before xs), count-order_by xs)
