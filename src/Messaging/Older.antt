-- ===== src/Messaging/Older.antt =====
-- The order of the messages, and the rows that are strictly older than one of them.

use pqc_grade_a.Base.{
  ℕ, zero, suc, ◌≤◌, ◌≡◌, ◌≢◌, refl, ap, Bool, true, false, ◌&&◌, List, [], ◌∷◌, ◌++◌, All, ◌==◌,
  arith, length, take, drop, select, count,
}
use pqc_grade_a.Base.SortLaws.{Ordered, IsPreorder}
use pqc_grade_a.Db.{Message}
use pqc_grade_a.Messaging.Repository.{newest_first, strictly_older}

pub newest_first-IsPreorder : IsPreorder newest_first
newest_first-IsPreorder = record {
  total = λ x y h. ground arith;
  trans = λ x y z h k. ground arith;
}

module _ (k : Message) where
  abbrev pub older : Message → Bool
  older = strictly_older k.sent_at k.id

  not_older : (x : Message) → newest_first x k ≡ true → older x ≡ false
  not_older x h = ground arith

  is_older : (y : Message) → newest_first k y ≡ true → y.id ≢ k.id → older y ≡ true
  is_older y h ne = ground arith

  select-older_after :
      (post : List Message)
      → All (λ y. newest_first k y ≡ true) post
      → count (λ m. m.id == k.id) post ≡ 0
      → select older post ≡ post
  unfolding select count
  select-older_after [] h u = refl
  select-older_after (y ∷ post) h u = ground (arith, is_older y h.0, select-older_after post h.1)

  -- In the sorted rows, those strictly older than one are those behind it.
  pub select-older :
      (pre post : List Message)
      → Ordered newest_first (pre ++ k ∷ post)
      → count (λ m. m.id == k.id) (pre ++ k ∷ post) ≤ 1
      → select older (pre ++ k ∷ post) ≡ post
  unfolding select count
  select-older [] post o u = ground (arith, not_older k, select-older_after post o.0)
  select-older (x ∷ pre) post o u =
      ground (arith, not_older x (first_before x pre post o.0), select-older pre post o.1)
    where
      first_before :
          (x' : Message) (pre' post' : List Message)
          → All (λ y. newest_first x' y ≡ true) (pre' ++ k ∷ post')
          → newest_first x' k ≡ true
      first_before x' [] post' h = h.0
      first_before x' (z ∷ pre') post' h = first_before x' pre' post' h.1

pub select-select :
    (p q : Message → Bool) (xs : List Message)
    → select (λ m. p m && q m) xs ≡ select q (select p xs)
unfolding select
select-select p q [] = refl
select-select p q (x ∷ xs) = ground (arith, select-select p q xs)

pub count-select_le :
    (p q : Message → Bool) (xs : List Message) → count q (select p xs) ≤ count q xs
unfolding select count
count-select_le p q [] = omega arith
count-select_le p q (x ∷ xs) = ground (arith, count-select_le p q xs)

pub take-take : (n : ℕ) (xs : List Message) → take n (take (suc n) xs) ≡ take n xs
take-take zero xs = refl
take-take (suc n) [] = refl
take-take (suc n) (x ∷ xs) = ap (λ (ys : List Message). x ∷ ys) (take-take n xs)

pub take-append-drop : (n : ℕ) (xs : List Message) → take n xs ++ drop n xs ≡ xs
take-append-drop zero xs = refl
take-append-drop (suc n) [] = refl
take-append-drop (suc n) (x ∷ xs) = ap (λ (ys : List Message). x ∷ ys) (take-append-drop n xs)

pub take_all : (n : ℕ) (xs : List Message) → length xs ≤ n → take n xs ≡ xs
take_all zero [] h = refl
take_all zero (x ∷ xs) h = absurd (omega arith)
take_all (suc n) [] h = refl
take_all (suc n) (x ∷ xs) h = ap (λ (ys : List Message). x ∷ ys) (take_all n xs (omega arith))
