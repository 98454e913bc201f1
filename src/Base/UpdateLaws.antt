-- ===== src/Base/UpdateLaws.antt =====
-- What an update leaves, and rows that share a unique key.
use Prim.Native.Nat.{◌≤◌, ◌<◌}
use pqc_grade_a.Base.Tests.{Bool-cases}
use pqc_grade_a.Base.Table.{select, update_where, count, All}
use mathlib.Core.Path.{◌≡◌, refl}
use mathlib.Core.Logic.{inl, inr}
use mathlib.Core.Bool.{Bool, true, false, ◌&&◌}
use mathlib.Core.List.{List, [], ◌∷◌}
use native.Mathlib.Omega.{arith}

module _ {A : Type 0} (p q : A → Bool) where
  pub count-select : (xs : List A) → count p (select q xs) ≡ count (λ x. q x && p x) xs
  unfolding count select
  count-select [] = refl
  count-select (x ∷ xs) = ground (arith, count-select xs)

  -- The rows that the query selects are not the updated ones.
  pub select-update_where_other :
      (f : A → A) (xs : List A)
      → All (λ x. q x ≡ true → (p x ≡ false) × (p (f x) ≡ false)) xs
      → select p (update_where q f xs) ≡ select p xs
  unfolding select update_where
  select-update_where_other f [] h = refl
  select-update_where_other f (x ∷ xs) h = ground (arith, h.0, select-update_where_other f xs h.1)

  count_and : (xs : List A) → count (λ x. q x && p x) xs ≤ count q xs
  unfolding count
  count_and [] = omega arith
  count_and (x ∷ xs) = ground (arith, count_and xs)

  All-none : (xs : List A) → count q xs ≡ 0 → All (λ x. q x ≡ true → p x ≡ true) xs
  unfolding count
  All-none [] h = tt
  All-none (x ∷ xs) h = ((λ k. ground arith), All-none xs (ground arith))

  -- If one row at most satisfies `q`, and it satisfies `p`, then all that satisfy `q` do.
  pub All-unique :
      (xs : List A)
      → count q xs ≤ 1
      → 0 < count (λ x. q x && p x) xs
      → All (λ x. q x ≡ true → p x ≡ true) xs
  unfolding count
  All-unique [] h k = tt
  All-unique (x ∷ xs) h k = elim (Bool-cases (q x)) [
    | inl e ↦ ((λ _. ground (arith, count_and xs)), All-none xs (ground arith))
    | inr e ↦ ((λ r. ground arith), All-unique xs (ground arith) (ground arith))
  ]
