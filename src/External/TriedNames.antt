-- ===== src/External/TriedNames.antt =====
-- The names that the search for a username tries.
use pqc_grade_a.Base.{
  ℕ, zero, suc, ◌+◌, ◌≤◌, ◌<◌, ◌≡◌, ◌≢◌, refl, sym, ap, ◌∙◌, Bool, true, false, List, [], ◌∷◌, ◌++◌,
  Text, ◌==◌, if◌then◌else◌, length, take, length-append, arith, inl, inr, Bool-cases, is_some,
  text_eq→eq, exists, first_where, delete_where,
}
use pqc_grade_a.Db.{User}
use pqc_grade_a.Account.Users.{has_username}
use pqc_grade_a.External.Decimal.{decimal, decimal-injective, length-decimal, decimal_filled}
use pqc_grade_a.External.Handles.{IsHandle, IsBase, candidate-IsHandle}
use mathlib.Core.List.{append-nil, append_cancel_left}
use pqc_grade_a.External.Usernames.{candidate}

-- The names in the order in which the loop tries them.
abbrev pub name_at : Text → ℕ → Text
name_at base n = if n == 0 then base else candidate base n

pub name_at-IsHandle : (base : Text) (n : ℕ) → IsBase base → IsHandle (name_at base n)
name_at-IsHandle base n b = elim (Bool-cases (n == 0)) [
  | inl e ↦ rw e (record { long = b.long; short = omega (arith, b.short); chars = b.chars })
  | inr e ↦ rw e (candidate-IsHandle base n b)
]

take_all : (n : ℕ) (s : Text) → length s ≤ n → take n s ≡ s
take_all zero [] h = refl
take_all zero (c ∷ s) h = absurd (omega arith)
take_all (suc n) [] h = refl
take_all (suc n) (c ∷ s) h = ap (λ t. c ∷ t) (take_all n s (omega arith))

tail_at : ℕ → Text
tail_at zero = []
tail_at (suc n) = decimal (suc n)

name_at_whole : (base : Text) (n : ℕ) → IsBase base → n < 10000 → name_at base n ≡ base ++ tail_at n
unfolding candidate tail_at
name_at_whole base zero b h = sym (append-nil base)
name_at_whole base (suc n) b h =
    let later : (suc n == 0) ≡ false = ground arith in
    rw later (
      take_all 32 (base ++ decimal (suc n))
        (omega (arith, b.short, length-append base (decimal (suc n)), length-decimal (suc n) h)))

tail_at-injective : (m n : ℕ) → tail_at m ≡ tail_at n → m ≡ n
unfolding tail_at
tail_at-injective zero zero h = refl
tail_at-injective zero (suc n) h =
    let e : length {A = ℕ} [] ≡ length (decimal (suc n)) = ap length h in
    absurd (omega (arith, e, decimal_filled (suc n)))
tail_at-injective (suc m) zero h =
    let e : length (decimal (suc m)) ≡ length {A = ℕ} [] = ap length h in
    absurd (omega (arith, e, decimal_filled (suc m)))
tail_at-injective (suc m) (suc n) h = decimal-injective (suc m) (suc n) h

pub name_at-injective :
    (base : Text) (m n : ℕ)
    → IsBase base
    → m < 10000
    → n < 10000
    → name_at base m ≡ name_at base n
    → m ≡ n
name_at-injective base m n b hm hn h = tail_at-injective m n (
    append_cancel_left base (tail_at m) (tail_at n)
      (sym (name_at_whole base m b hm) ∙ h ∙ name_at_whole base n b hn))

pub has_one_name :
    (s t : Text) (u : User) → s ≢ t → has_username s u ≡ true → has_username t u ≡ false
has_one_name s t u ne h = elim (Bool-cases (has_username t u)) [
  | inr e ↦ e
  | inl e ↦ absurd (ne (sym (text_eq→eq u.username s h) ∙ text_eq→eq u.username t e))
]

pub name_next : (base : Text) (n : ℕ) → candidate base (n + 1) ≡ name_at base (n + 1)
name_next base n = ground arith

module _ {A : Type 0} (p q : A → Bool) where
  pub exists-delete_where_other :
      (xs : List A)
      → ((x : A) → p x ≡ true → q x ≡ false)
      → exists p xs ≡ true
      → exists p (delete_where q xs) ≡ true
  unfolding exists delete_where
  exists-delete_where_other [] apart h = h
  exists-delete_where_other (x ∷ xs) apart h =
      ground (arith, apart x, exists-delete_where_other xs apart)

module _ {A : Type 0} (q : A → Bool) where
  length-delete_where_le : (xs : List A) → length (delete_where q xs) ≤ length xs
  unfolding delete_where
  length-delete_where_le [] = omega arith
  length-delete_where_le (x ∷ xs) = ground (arith, length-delete_where_le xs)

  pub length-delete_where_lt :
      (xs : List A) → exists q xs ≡ true → length (delete_where q xs) < length xs
  unfolding delete_where exists
  length-delete_where_lt [] h = cc
  length-delete_where_lt (x ∷ xs) h =
      ground (arith, length-delete_where_le xs, length-delete_where_lt xs)

  pub is_some-first_where : (xs : List A) → is_some (first_where q xs) ≡ exists q xs
  unfolding first_where exists
  is_some-first_where [] = refl
  is_some-first_where (x ∷ xs) = ground (arith, is_some-first_where xs)
