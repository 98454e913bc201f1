-- ===== src/External/Handles.antt =====
-- The names that `_unique_username_from_email` tries are usernames.
use pqc_grade_a.Base.{
  ℕ, zero, suc, ◌+◌, ◌≤◌, ◌<◌, ◌≡◌, refl, true, [], ◌∷◌, ◌++◌, map, Text, length, take,
  length-append, length-take, All, arith, max,
}
use pqc_grade_a.Account.Platform.{Platform}
use pqc_grade_a.External.Decimal.{All-append, decimal, decimal-All}
use pqc_grade_a.External.Usernames.{
  local_part, is_handle_char, clean, or_user, ljust, base_of, candidate,
}

abbrev pub IsHandleChar : ℕ → Type 0
IsHandleChar c = is_handle_char c ≡ true

-- `^[a-z0-9_]{3,32}$`: a username in the form that is stored.
pub record IsHandle (name : Text) : Type 0 where
  pub long : 3 ≤ length name
  pub short : length name ≤ 32
  pub chars : All IsHandleChar name

-- What is relied on of `str.lower`: a text in lower case stays, and such a name is one.
pub record LowerLaws (k : Platform) : Type 0 where
  pub idempotent : (s : Text) → k.lower (k.lower s) ≡ k.lower s
  pub fixed : (s : Text) → All IsHandleChar s → k.lower s ≡ s

clean-IsHandleChar : (c : ℕ) → IsHandleChar (clean c)
unfolding is_handle_char
clean-IsHandleChar c = ground arith

All-clean : (s : Text) → All IsHandleChar (map clean s)
All-clean [] = tt
All-clean (c ∷ s) = (clean-IsHandleChar c, All-clean s)

All-take : (P : ℕ → Type 0) (n : ℕ) (s : Text) → All P s → All P (take n s)
All-take P zero s h = tt
All-take P (suc n) [] h = tt
All-take P (suc n) (c ∷ s) h = (h.0, All-take P n s h.1)

All-or_user : (s : Text) → All IsHandleChar s → All IsHandleChar (or_user s)
unfolding is_handle_char
All-or_user [] h = (refl, (refl, (refl, (refl, tt))))
All-or_user (c ∷ s) h = h

All-ljust : (n : ℕ) (s : Text) → All IsHandleChar s → All IsHandleChar (ljust n s)
unfolding ljust is_handle_char
All-ljust zero s h = h
All-ljust (suc n) [] h = (refl, All-ljust n [] tt)
All-ljust (suc n) (c ∷ s) h = (h.0, All-ljust n s h.1)

length-ljust : (n : ℕ) (s : Text) → length (ljust n s) ≡ max n (length s)
unfolding ljust
length-ljust zero s = omega arith
length-ljust (suc n) [] = omega (arith, length-ljust n [])
length-ljust (suc n) (c ∷ s) = omega (arith, length-ljust n s)

length-or_user : (s : Text) → length (or_user s) ≤ max 4 (length s)
length-or_user [] = omega arith
length-or_user (c ∷ s) = omega arith

-- What the names of the loop begin with.
pub record IsBase (base : Text) : Type 0 where
  pub long : 3 ≤ length base
  pub short : length base ≤ 28
  pub chars : All IsHandleChar base

pub base_of-IsBase : (k : Platform) (email : Text) → IsBase (base_of k email)
unfolding base_of
base_of-IsBase k email =
    let cut : Text = take 28 (map clean (k.lower (local_part email))) in
    record {
      long = omega (arith, length-ljust 3 (or_user cut));
      short = omega (
        arith,
        length-ljust 3 (or_user cut),
        length-or_user cut,
        length-take 28 (map clean (k.lower (local_part email))),
      );
      chars = All-ljust 3 (or_user cut) (
          All-or_user cut (
            All-take IsHandleChar 28 (map clean (k.lower (local_part email)))
              (All-clean (k.lower (local_part email)))));
    }

digit-IsHandleChar : (d : ℕ) → d < 10 → IsHandleChar (b'0' + d)
unfolding is_handle_char
digit-IsHandleChar d h = ground arith

pub candidate-IsHandle : (base : Text) (n : ℕ) → IsBase base → IsHandle (candidate base n)
unfolding candidate
candidate-IsHandle base n b = record {
  long = omega (arith, b.long, length-take 32 (base ++ decimal n), length-append base (decimal n));
  short = omega (arith, length-take 32 (base ++ decimal n));
  chars = All-take IsHandleChar 32 (base ++ decimal n) (
      All-append IsHandleChar base (decimal n) b.chars
        (decimal-All IsHandleChar digit-IsHandleChar n));
}
