-- ===== src/Base/AppendLaws.antt =====
-- A table with a row more at its end.
use pqc_grade_a.Base.Tests.{Bool-cases}
use pqc_grade_a.Base.Table.{first_where, exists, count}
use pqc_grade_a.Base.TableLaws.{count-append, first_where-append}
use Prim.Native.Nat.{◌≤◌}
use mathlib.Core.Path.{◌≡◌}
use mathlib.Core.Logic.{inl, inr}
use mathlib.Core.Bool.{Bool, true, false}
use mathlib.Core.Option.{none, some}
use mathlib.Core.List.{List, [], ◌∷◌, ◌++◌}
use native.Mathlib.Omega.{arith}

pub exists_last {ℓ} :
    {A : Type ℓ} (p : A → Bool) (xs : List A) (x : A) → p x ≡ true → exists p (xs ++ x ∷ []) ≡ true
unfolding exists
exists_last p [] x h = ground arith
exists_last p (y ∷ xs) x h = ground (arith, exists_last p xs x)

pub count_append_one {ℓ} :
    {A : Type ℓ} (p : A → Bool) (xs : List A) (x : A)
    → count p xs ≤ 1
    → (p x ≡ true → count p xs ≡ 0)
    → count p (xs ++ x ∷ []) ≤ 1
unfolding count
count_append_one p xs x h new = elim (Bool-cases (p x)) [
  | inl e ↦ ground (arith, count-append p xs (x ∷ []), new e)
  | inr e ↦ ground (arith, count-append p xs (x ∷ []))
]

pub first_where_last {ℓ} :
    {A : Type ℓ} (p : A → Bool) (xs : List A) (x : A)
    → first_where p xs ≡ none
    → p x ≡ true
    → first_where p (xs ++ x ∷ []) ≡ some x
unfolding first_where
first_where_last p xs x h e = ground (arith, first_where-append p xs (x ∷ []))

pub first_where_before {ℓ} :
    {A : Type ℓ} (p : A → Bool) (xs : List A) (x : A)
    → first_where p xs ≡ none
    → p x ≡ false
    → first_where p (xs ++ x ∷ []) ≡ none
unfolding first_where
first_where_before p xs x h e = ground (arith, first_where-append p xs (x ∷ []))
