-- ===== src/Directory/Like.antt =====
-- `ILIKE` of PostgreSQL with the escape character `\`, and how the search of
-- backend/src/repositories/user_repository.py escapes what a user typed. `fold` says when the
-- database takes two characters for the same letter.
use pqc_grade_a.Base.{
  ℕ, Bool, true, false, ◌&&◌, ◌||◌, not, Option, none, some, List, [], ◌∷◌, ◌++◌, Text, ◌==◌,
  if◌then◌else◌,
}

abbrev pub backslash : ℕ
backslash = 92

pub data LikeToken : Type 0 where
  -- `%`, `_` and a character that stands for itself
  run one : LikeToken
  literal : ℕ → LikeToken

abbrev pub special : ℕ → LikeToken
special c = if c == b'%' then run else if c == b'_' then one else literal c

abbrev pub starts_escape : Bool → ℕ → Bool
starts_escape escaped c = not escaped && c == backslash

abbrev pub token_of : Bool → ℕ → LikeToken
token_of escaped c = if escaped then literal c else special c

abbrev pub push : LikeToken → Option (List LikeToken) → Option (List LikeToken)
push t none = none
push t (some ts) = some (t ∷ ts)

-- `none` is the error of a pattern that ends with the escape character.
unfoldable pub tokens : Bool → Text → Option (List LikeToken)
tokens escaped [] = if escaped then none else some []
tokens escaped (c ∷ s) =
    let rest = tokens (starts_escape escaped c) s in
    if starts_escape escaped c then rest else push (token_of escaped c) rest

abbrev pub any_suffix : (Text → Bool) → Text → Bool
any_suffix f [] = f []
any_suffix f (c ∷ s) = f (c ∷ s) || any_suffix f s

abbrev pub with_head : (ℕ → Bool) → (Text → Bool) → Text → Bool
with_head p f [] = false
with_head p f (c ∷ s) = p c && f s

abbrev pub at_end : Text → Bool
at_end [] = true
at_end (c ∷ s) = false

unfoldable pub matches : (ℕ → ℕ) → List LikeToken → Text → Bool
matches fold [] s = at_end s
matches fold (run ∷ p) s = any_suffix (matches fold p) s
matches fold (one ∷ p) s = with_head (λ d. true) (matches fold p) s
matches fold (literal c ∷ p) s = with_head (λ d. fold c == fold d) (matches fold p) s

-- `str.replace` of a character.
unfoldable pub replace : ℕ → Text → Text → Text
replace c new [] = []
replace c new (d ∷ s) = (if d == c then new else d ∷ []) ++ replace c new s

-- `query.replace("\\", "\\\\").replace("%", "\\%").replace("_", "\\_")`
unfoldable pub escape : Text → Text
unfolding replace
escape query =
    replace b'_' (backslash ∷ b'_' ∷ [])
      (replace b'%' (backslash ∷ b'%' ∷ []) (replace backslash (backslash ∷ backslash ∷ []) query))
