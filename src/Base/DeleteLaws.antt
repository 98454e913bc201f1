-- ===== src/Base/DeleteLaws.antt =====
-- What a deletion leaves: the rows of other keys, and none of the deleted ones.
use pqc_grade_a.Base.Table.{select, first_where, delete_where}
use mathlib.Core.Path.{◌≡◌, refl}
use mathlib.Core.Bool.{Bool, true, false}
use mathlib.Core.Option.{none}
use mathlib.Core.List.{List, [], ◌∷◌}
use native.Mathlib.Omega.{arith}

module _ {ℓ} {A : Type ℓ} (p q : A → Bool) where
  pub select-delete_where_other :
      (xs : List A)
      → ((x : A) → p x ≡ true → q x ≡ false)
      → select p (delete_where q xs) ≡ select p xs
  unfolding select delete_where
  select-delete_where_other [] h = refl
  select-delete_where_other (x ∷ xs) h = ground (arith, h x, select-delete_where_other xs h)

  pub select-delete_where_gone :
      (xs : List A) → ((x : A) → p x ≡ true → q x ≡ true) → select p (delete_where q xs) ≡ []
  unfolding select delete_where
  select-delete_where_gone [] h = refl
  select-delete_where_gone (x ∷ xs) h = ground (arith, h x, select-delete_where_gone xs h)

  pub first_where-delete_where_gone :
      (xs : List A) → ((x : A) → p x ≡ true → q x ≡ true) → first_where p (delete_where q xs) ≡ none
  unfolding first_where delete_where
  first_where-delete_where_gone [] h = refl
  first_where-delete_where_gone (x ∷ xs) h = ground (arith, h x, first_where-delete_where_gone xs h)
