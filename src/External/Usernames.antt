-- ===== src/External/Usernames.antt =====
-- `_unique_username_from_email` of backend/src/services/external_identity_linker.py. The loop runs on
-- fuel: a round for each user and one more. Where that does not suffice, it ends as `unfinished`.
use pqc_grade_a.Base.{
  ℕ, zero, suc, ◌+◌, Bool, ◌||◌, [], ◌∷◌, ◌++◌, map, Text, ◌==◌, if◌then◌else◌, length, take,
}
use pqc_grade_a.Errors.{unfinished}
use pqc_grade_a.Exec.{Action, pure, raise, gets, ◌>>=◌}
use pqc_grade_a.Messaging.Envelope.{between}
use pqc_grade_a.Account.Platform.{Platform}
use pqc_grade_a.Account.Users.{username_exists}
use pqc_grade_a.External.Decimal.{decimal}

-- `email.split("@", 1)[0]`
unfoldable pub local_part : Text → Text
local_part [] = []
local_part (c ∷ s) = if c == b'@' then [] else c ∷ local_part s

-- `[a-z0-9_]`
unfoldable pub is_handle_char : ℕ → Bool
is_handle_char c = between b'a' b'z' c || (between b'0' b'9' c || c == b'_')

abbrev pub clean : ℕ → ℕ
clean c = if is_handle_char c then c else b'_'

-- `... or "user"`
abbrev pub or_user : Text → Text
or_user [] = b'u' ∷ b's' ∷ b'e' ∷ b'r' ∷ []
or_user (c ∷ s) = c ∷ s

-- `str.ljust(n, "_")`
unfoldable pub ljust : ℕ → Text → Text
ljust zero s = s
ljust (suc n) [] = b'_' ∷ ljust n []
ljust (suc n) (c ∷ s) = c ∷ ljust n s

unfoldable pub base_of : Platform → Text → Text
unfolding local_part is_handle_char ljust
base_of k email = ljust 3 (or_user (take 28 (map clean (k.lower (local_part email)))))

unfoldable pub candidate : Text → ℕ → Text
unfolding decimal
candidate base suffix = take 32 (base ++ decimal suffix)

-- `while await self._user_repo.username_exists(candidate)`
unfoldable pub first_free : Platform → ℕ → Text → ℕ → Text → Action Text
first_free k zero base suffix name = raise unfinished
first_free k (suc fuel) base suffix name =
    let next = first_free k fuel base (suffix + 1) (candidate base (suffix + 1)) in
    do taken ← username_exists k name; if taken then next else pure name

unfoldable pub unique_username_from_email : Platform → Text → Action Text
unique_username_from_email k email = do
  users ← gets (λ db. length db.users)
  first_free k (suc users) (base_of k email) 0 (base_of k email)
