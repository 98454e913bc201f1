-- ===== src/Base/TableLaws.antt =====
-- How the updates of a table change what its queries return.
use pqc_grade_a.Base.Tests.{if◌then◌else◌, Option-cases}
use pqc_grade_a.Base.Table.{select, first_where, exists, update_where, delete_where, count}
use Prim.Native.Nat.{◌+◌, ◌≤◌, ◌<◌}
use mathlib.Core.Path.{◌≡◌, refl, sym, ap, ◌∙◌}
use mathlib.Core.Bool.{Bool, true, false, ◌||◌}
use mathlib.Core.Logic.{inl, inr}
use mathlib.Core.Option
use mathlib.Core.Option.{Option, none, some}
use mathlib.Core.List.{List, [], ◌∷◌, ◌++◌}
use native.Mathlib.Omega.{arith}

-- A row's value after `update_where`.
abbrev pub touched {ℓ} : {A : Type ℓ} → (A → Bool) → (A → A) → A → A
touched q f x = if q x then f x else x

abbrev pub or_else {ℓ} : {A : Type ℓ} → Option A → Option A → Option A
or_else none o = o
or_else (some x) o = some x

module _ {ℓ} {A : Type ℓ} (p : A → Bool) where
  pub first_where-append :
      (xs ys : List A) → first_where p (xs ++ ys) ≡ or_else (first_where p xs) (first_where p ys)
  unfolding first_where
  first_where-append [] ys = refl
  first_where-append (x ∷ xs) ys = ground (arith, first_where-append xs ys)

  pub first_where_holds : (xs : List A) (x : A) → first_where p xs ≡ some x → p x ≡ true
  unfolding first_where
  first_where_holds [] x h = cc
  first_where_holds (y ∷ xs) x h = ground (arith, first_where_holds xs x)

  pub count-append : (xs ys : List A) → count p (xs ++ ys) ≡ count p xs + count p ys
  unfolding count
  count-append [] ys = omega arith
  count-append (x ∷ xs) ys = ground (arith, count-append xs ys)

  pub count_of_none : (xs : List A) → first_where p xs ≡ none → count p xs ≡ 0
  unfolding count first_where
  count_of_none [] h = refl
  count_of_none (x ∷ xs) h = ground (arith, count_of_none xs)

  pub none_of_count : (xs : List A) → count p xs ≡ 0 → first_where p xs ≡ none
  unfolding count first_where
  none_of_count [] h = refl
  none_of_count (x ∷ xs) h = ground (arith, none_of_count xs)

  pub count_of_some : (xs : List A) (x : A) → first_where p xs ≡ some x → 0 < count p xs
  unfolding count first_where
  count_of_some [] x h = cc
  count_of_some (y ∷ xs) x h = ground (arith, count_of_some xs x)

  pub exists_of_found : (xs : List A) (x : A) → first_where p xs ≡ some x → exists p xs ≡ true
  unfolding first_where exists
  exists_of_found [] x h = cc
  exists_of_found (y ∷ xs) x h = ground (arith, exists_of_found xs x)

  pub not_exists_of_count : (xs : List A) → count p xs ≡ 0 → exists p xs ≡ false
  unfolding count exists
  not_exists_of_count [] h = refl
  not_exists_of_count (y ∷ xs) h = ground (arith, not_exists_of_count xs)

  pub exists_of_count : (xs : List A) → exists p xs ≡ true → 0 < count p xs
  unfolding count exists
  exists_of_count [] h = cc
  exists_of_count (y ∷ xs) h = ground (arith, exists_of_count xs)

  pub count_of_not_exists : (xs : List A) → exists p xs ≡ false → count p xs ≡ 0
  unfolding count exists
  count_of_not_exists [] h = refl
  count_of_not_exists (y ∷ xs) h = ground (arith, count_of_not_exists xs)

  pub select_of_none : (xs : List A) → count p xs ≡ 0 → select p xs ≡ []
  unfolding count select
  select_of_none [] h = refl
  select_of_none (x ∷ xs) h = ground (arith, select_of_none xs)

  pub exists-append : (xs ys : List A) → exists p (xs ++ ys) ≡ (exists p xs || exists p ys)
  unfolding exists
  exists-append [] ys = refl
  exists-append (x ∷ xs) ys = ground (arith, exists-append xs ys)

module _ {ℓ} {A : Type ℓ} (p q : A → Bool) where
  pub count_mono : (xs : List A) → ((x : A) → p x ≡ true → q x ≡ true) → count p xs ≤ count q xs
  unfolding count
  count_mono [] h = omega arith
  count_mono (x ∷ xs) h = ground (arith, h x, count_mono xs h)

  pub count-delete_where_le : (xs : List A) → count p (delete_where q xs) ≤ count p xs
  unfolding count delete_where
  count-delete_where_le [] = omega arith
  count-delete_where_le (x ∷ xs) = ground (arith, count-delete_where_le xs)

  pub count-delete_where_gone :
      (xs : List A) → ((x : A) → p x ≡ true → q x ≡ true) → count p (delete_where q xs) ≡ 0
  unfolding count delete_where
  count-delete_where_gone [] h = refl
  count-delete_where_gone (x ∷ xs) h = ground (arith, h x, count-delete_where_gone xs h)

  pub first_where-delete_where_other :
      (xs : List A)
      → ((x : A) → p x ≡ true → q x ≡ false)
      → first_where p (delete_where q xs) ≡ first_where p xs
  unfolding first_where delete_where
  first_where-delete_where_other [] h = refl
  first_where-delete_where_other (x ∷ xs) h =
      ground (arith, h x, first_where-delete_where_other xs h)

module _ {ℓ} {A : Type ℓ} (p q : A → Bool) where
  pub count-delete_where_other :
      (xs : List A)
      → ((x : A) → p x ≡ true → q x ≡ false)
      → count p (delete_where q xs) ≡ count p xs
  unfolding count delete_where
  count-delete_where_other [] h = refl
  count-delete_where_other (x ∷ xs) h = ground (arith, h x, count-delete_where_other xs h)

  pub exists-delete_where : (xs : List A) → exists p (delete_where q xs) ≡ true → exists p xs ≡ true
  unfolding exists delete_where
  exists-delete_where [] h = cc
  exists-delete_where (x ∷ xs) h = ground (arith, exists-delete_where xs)

  pub exists_mono :
      (xs : List A) → ((x : A) → p x ≡ true → q x ≡ true) → exists p xs ≡ true → exists q xs ≡ true
  unfolding exists
  exists_mono [] h e = cc
  exists_mono (x ∷ xs) h e = ground (arith, h x, exists_mono xs h)

module _ {ℓ} {A : Type ℓ} (p q : A → Bool) (f : A → A) where
  pub count-update_where :
      (xs : List A) → ((x : A) → p (f x) ≡ p x) → count p (update_where q f xs) ≡ count p xs
  unfolding count update_where
  count-update_where [] h = refl
  count-update_where (x ∷ xs) h = ground (arith, h x, count-update_where xs h)

  pub first_where-update_where :
      (xs : List A)
      → ((x : A) → p (f x) ≡ p x)
      → first_where p (update_where q f xs) ≡ Option.map (touched q f) (first_where p xs)
  unfolding first_where update_where
  first_where-update_where [] h = refl
  first_where-update_where (x ∷ xs) h = ground (arith, h x, first_where-update_where xs h)

  pub exists-update_where :
      (xs : List A) → ((x : A) → p (f x) ≡ p x) → exists p (update_where q f xs) ≡ exists p xs
  unfolding exists update_where
  exists-update_where [] h = refl
  exists-update_where (x ∷ xs) h = ground (arith, h x, exists-update_where xs h)

module _ {ℓ} {A : Type ℓ} where
  -- A row that a query finds counts for every test that it passes.
  pub count_of_found :
      (p r : A → Bool) (xs : List A) (x : A)
      → first_where p xs ≡ some x
      → r x ≡ true
      → 0 < count r xs
  unfolding first_where count
  count_of_found p r [] x hx rx = cc
  count_of_found p r (z ∷ zs) x hx rx = ground (arith, count_of_found p r zs x)

  -- Two rows that the queries find are one, if a unique column holds one value in both.
  pub same_row :
      (p q r : A → Bool) (xs : List A) (x y : A)
      → count r xs ≤ 1
      → first_where p xs ≡ some x
      → first_where q xs ≡ some y
      → r x ≡ true
      → r y ≡ true
      → x ≡ y
  unfolding first_where count
  same_row p q r [] x y u hx hy rx ry = cc
  same_row p q r (z ∷ zs) x y u hx hy rx ry =
      ground (arith, same_row p q r zs x y, count_of_found p r zs x, count_of_found q r zs y)

module _ {ℓ} {A : Type ℓ} (p q : A → Bool) where
  -- A row that one test finds is the one that another finds, which is of one row at most.
  pub first_where_of_key :
      (xs : List A) (x : A)
      → first_where p xs ≡ some x
      → count q xs ≤ 1
      → q x ≡ true
      → first_where q xs ≡ some x
  first_where_of_key xs x e unique h = elim (Option-cases (first_where q xs)) [
    | inl none_there ↦
        absurd (omega (arith, count_of_none q xs none_there, count_of_found p q xs x e h))
    | inr (y, there) ↦
        there
        ∙ ap some (sym (same_row p q q xs x y unique e there h (first_where_holds q xs y there)))
  ]

-- `count_mono` where the rows that pass `r` are none, or the one row that a query finds.
module _ {ℓ} {A : Type ℓ} (p q r : A → Bool) where
  pub count_mono_none :
      (xs : List A)
      → count r xs ≡ 0
      → ((x : A) → r x ≡ false → p x ≡ true → q x ≡ true)
      → count p xs ≤ count q xs
  unfolding count
  count_mono_none [] u h = omega arith
  count_mono_none (x ∷ xs) u h = ground (arith, h x, count_mono_none xs)

  pub count_mono_one :
      (xs : List A) (y : A)
      → count r xs ≤ 1
      → first_where r xs ≡ some y
      → ((x : A) → r x ≡ false → p x ≡ true → q x ≡ true)
      → (p y ≡ true → q y ≡ true)
      → count p xs ≤ count q xs
  unfolding count first_where
  count_mono_one [] y u e h hy = cc
  count_mono_one (x ∷ xs) y u e h hy = ground (arith, h x, count_mono_one xs y, count_mono_none xs)
