-- ===== src/Account/PasswordPolicy.antt =====
-- backend/src/services/password_policy.py.
use pqc_grade_a.Base.{
  ◌≤◌, ◌≡◌, ◌↔◌, Bool, true, List, [], ◌∷◌, ◌++◌, Text, ltb, length, exists, if◌then◌else◌, arith,
}
use pqc_grade_a.Errors.{auth, weak_password}
use pqc_grade_a.Exec.{Result, ok, err}
use pqc_grade_a.Account.Platform.{Platform}

pub data CharacterClass : Type 0 where
  lowercase_letter uppercase_letter digit : CharacterClass

abbrev pub missing_if : Bool → CharacterClass → List CharacterClass
missing_if present c = if present then [] else c ∷ []

unfoldable pub missing_classes : Platform → Text → List CharacterClass
missing_classes k password =
    missing_if (exists k.is_lower password) lowercase_letter
    ++ missing_if (exists k.is_upper password) uppercase_letter
    ++ missing_if (exists k.is_digit password) digit

-- `PasswordPolicyError` with the classes that are missing, as `AuthService` maps it.
unfoldable pub validate : Platform → Text → Result (Unit {0})
validate k password =
    if ltb (length password) 12
    then err (auth weak_password)
    else elim (missing_classes k password) [ [] ↦ ok tt | c ∷ cs ↦ err (auth weak_password) ]

-- A password passes exactly if it has 12 characters and one of each of the three classes.
pub validate_iff :
    (k : Platform) (password : Text)
    → (validate k password ≡ ok tt) ↔ (
        (12 ≤ length password)
        × (exists k.is_lower password ≡ true)
        × (exists k.is_upper password ≡ true)
        × (exists k.is_digit password ≡ true))
unfolding validate missing_classes
validate_iff k password = (ground arith, ground arith)
