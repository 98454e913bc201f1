-- ===== src/Exec/Rows.antt =====
-- A query for the one row of a unique key returns the first row that has it.
use pqc_grade_a.Base.{
  ◌≤◌, ◌≡◌, refl, Bool, List, [], ◌∷◌, arith, select, first_where, count, select_of_none, inl, inr,
  Bool-cases,
}
use pqc_grade_a.Exec.{ok, scalar_one_or_none}

module _ {A : Type 0} (p : A → Bool) where
  pub scalar_select :
      (xs : List A) → count p xs ≤ 1 → scalar_one_or_none (select p xs) ≡ ok (first_where p xs)
  unfolding scalar_one_or_none select first_where count
  scalar_select [] h = refl
  scalar_select (x ∷ xs) h = elim (Bool-cases (p x)) [
    | inl e ↦ rw e (rw (select_of_none p xs (ground arith)))
    | inr e ↦ rw e (scalar_select xs (ground arith))
  ]
