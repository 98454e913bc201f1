-- ===== src/Base/SortLaws.antt =====
-- Sorting by a total preorder gives an ordered list, and commutes with a selection.
use pqc_grade_a.Base.Tests.{Bool-cases}
use pqc_grade_a.Base.Table.{select, All}
use pqc_grade_a.Base.Sort.{place, order_by}
use mathlib.Core.Path.{◌≡◌, refl}
use mathlib.Core.Bool.{Bool, true, false}
use mathlib.Core.Logic.{inl, inr}
use mathlib.Core.List.{List, [], ◌∷◌}
use native.Mathlib.Omega.{arith}

-- Each row may stand before all that follow.
abbrev pub Ordered {ℓ} : {A : Type ℓ} → (A → A → Bool) → List A → Type 0
Ordered before [] = Unit
Ordered before (x ∷ xs) = All (λ y. before x y ≡ true) xs × Ordered before xs

-- The tests by which the repositories sort are total and transitive.
pub record IsPreorder {ℓ} {A : Type ℓ} (before : A → A → Bool) : Type ℓ where
  pub total : (x y : A) → before x y ≡ false → before y x ≡ true
  pub trans : (x y z : A) → before x y ≡ true → before y z ≡ true → before x z ≡ true

module _ {ℓ} {A : Type ℓ} (P Q : A → Type 0) where
  pub All-mono : (xs : List A) → ((x : A) → P x → Q x) → All P xs → All Q xs
  All-mono [] f h = tt
  All-mono (x ∷ xs) f h = (f x h.0, All-mono xs f h.1)

module _ {ℓ} {A : Type ℓ} (P : A → Type 0) (p : A → Bool) where
  pub All-select : (xs : List A) → All P xs → All P (select p xs)
  unfolding select
  All-select [] h = tt
  All-select (x ∷ xs) h = elim (Bool-cases (p x)) [
    | inl e ↦ rw e (h.0, All-select xs h.1)
    | inr e ↦ rw e (All-select xs h.1)
  ]

module _ {ℓ} {A : Type ℓ} (before : A → A → Bool) where
  All-place : (P : A → Type 0) (x : A) (ys : List A) → P x → All P ys → All P (place before x ys)
  unfolding place
  All-place P x [] px h = (px, tt)
  All-place P x (y ∷ ys) px h = elim (Bool-cases (before x y)) [
    | inl e ↦ rw e (px, h)
    | inr e ↦ rw e (h.0, All-place P x ys px h.1)
  ]

  pub All-order_by : (P : A → Type 0) (xs : List A) → All P xs → All P (order_by before xs)
  unfolding order_by
  All-order_by P [] h = tt
  All-order_by P (x ∷ xs) h = All-place P x (order_by before xs) h.0 (All-order_by P xs h.1)

  place_first : (x : A) (ys : List A) → All (λ y. before x y ≡ true) ys → place before x ys ≡ x ∷ ys
  unfolding place
  place_first x [] h = refl
  place_first x (y ∷ ys) h = rw h.0

module _ {ℓ} {A : Type ℓ} (before : A → A → Bool) (o : IsPreorder before) where
  place-Ordered : (x : A) (ys : List A) → Ordered before ys → Ordered before (place before x ys)
  unfolding place
  place-Ordered x [] h = (tt, tt)
  place-Ordered x (y ∷ ys) h = elim (Bool-cases (before x y)) [
    | inl e ↦ rw e (
      (
        e,
        All-mono (λ z. before y z ≡ true) (λ z. before x z ≡ true) ys (λ z f. o.trans x y z e f)
            h.0,
      ),
      h,
    )
    | inr e ↦
        rw e (
          All-place before (λ z. before y z ≡ true) x ys (o.total x y e) h.0,
          place-Ordered x ys h.1,
        )
  ]

  pub order_by-Ordered : (xs : List A) → Ordered before (order_by before xs)
  unfolding order_by
  order_by-Ordered [] = tt
  order_by-Ordered (x ∷ xs) = place-Ordered x (order_by before xs) (order_by-Ordered xs)

  module _ (p : A → Bool) where
    select-place_out :
        (x : A) (ys : List A) → p x ≡ false → select p (place before x ys) ≡ select p ys
    unfolding select place
    select-place_out x [] e = rw e
    select-place_out x (y ∷ ys) e = ground (arith, select-place_out x ys)

    select-place_in :
        (x : A) (ys : List A)
        → Ordered before ys
        → p x ≡ true
        → select p (place before x ys) ≡ place before x (select p ys)
    unfolding select place
    select-place_in x [] h e = rw e
    select-place_in x (y ∷ ys) h e = elim (Bool-cases (before x y)) [
      | inl f ↦
          let front : place before x (select p ys) ≡ x ∷ select p ys =
            place_first before x (select p ys) (
              All-select (λ z. before x z ≡ true) p ys
                (All-mono (λ z. before y z ≡ true) (λ z. before x z ≡ true) ys
                  (λ z g. o.trans x y z f g) h.0)) in
          ground arith
      | inr f ↦ ground (arith, select-place_in x ys h.1)
    ]

    -- Selecting from the sorted rows is sorting the selected rows.
    pub select-order_by :
        (xs : List A) → select p (order_by before xs) ≡ order_by before (select p xs)
    unfolding select order_by
    select-order_by [] = refl
    select-order_by (x ∷ xs) = elim (Bool-cases (p x)) [
      | inl e ↦
          rw (select-place_in x (order_by before xs) (order_by-Ordered xs) e)
            (ground (arith, select-order_by xs))
      | inr e ↦ rw (select-place_out x (order_by before xs) e) (ground (arith, select-order_by xs))
    ]
