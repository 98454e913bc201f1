-- ===== src/Messaging/Cursor.antt =====
-- `encode_cursor` and `decode_cursor` of backend/src/repositories/message_repository.py. The texts
-- of a timestamp and of a UUID, and UTF-8, are a parameter.
use pqc_grade_a.Base.{
  ℕ, ◌<◌, ◌≡◌, ◌≢◌, Option, none, some, [], ◌∷◌, ◌++◌, Text, Bytes, All, ◌==◌, if◌then◌else◌,
}
use pqc_grade_a.Base64.{b64encode, urlsafe_b64decode, url_safe}
use pqc_grade_a.Errors.{value_error}
use pqc_grade_a.Exec.{Result, ok, err}

pub record Codec : Type 0 where
  pub isoformat : ℕ → Text
  pub fromisoformat : Text → Option ℕ
  pub uuid_text : ℕ → Text
  pub uuid : Text → Option ℕ
  pub decode_utf8 : Bytes → Option Text

-- What the program relies on: the texts read back, are ASCII, and a timestamp has no bar.
pub record RoundTrips (c : Codec) : Type 0 where
  pub iso : (t : ℕ) → c.fromisoformat (c.isoformat t) ≡ some t
  pub uuid : (i : ℕ) → c.uuid (c.uuid_text i) ≡ some i
  pub iso_ascii : (t : ℕ) → All (λ b. b < 128) (c.isoformat t)
  pub uuid_ascii : (i : ℕ) → All (λ b. b < 128) (c.uuid_text i)
  pub iso_no_bar : (t : ℕ) → All (λ b. b ≢ b'|') (c.isoformat t)
  pub utf8 : (s : Text) → All (λ b. b < 128) s → c.decode_utf8 s ≡ some s

unfoldable pub encode_cursor : Codec → ℕ → ℕ → Text
encode_cursor c sent_at message_id =
    b64encode url_safe (c.isoformat sent_at ++ (b'|' ∷ c.uuid_text message_id))

-- `str.partition`, without the separator.
unfoldable pub partition : ℕ → Text → Text × Text
partition sep [] = ([], [])
partition sep (x ∷ xs) = let r = partition sep xs in if x == sep then ([], xs) else (x ∷ r.0, r.1)

abbrev pub parts : Codec → Text × Text → Result (ℕ × ℕ)
parts c (sent_at, message_id) = elim (c.fromisoformat sent_at) [
  | none ↦ err value_error
  | some t ↦ elim (c.uuid message_id) [ none ↦ err value_error | some i ↦ ok (t, i) ]
]

unfoldable pub decode_cursor : Codec → Text → Result (ℕ × ℕ)
decode_cursor c cursor = elim (urlsafe_b64decode cursor) [
  | none ↦ err value_error
  | some raw ↦ elim (c.decode_utf8 raw) [
    | none ↦ err value_error
    | some s ↦ parts c (partition b'|' s)
  ]
]
