-- ===== src/Messaging/Envelope.antt =====
-- `MessageEnvelope` of backend/src/schemas/messaging.py: the structural fields of an envelope. How
-- pydantic reads a JSON value as a string, stripped, or as an integer is a parameter; an integer
-- below 0 is read as `none`, since the bounds refuse it in any case.
use pqc_grade_a.Base.{
  ℕ, Bool, false, ◌&&◌, Option, none, some, [], ◌∷◌, Text, codes, text_eq, leb, length,
  if◌then◌else◌,
}
use pqc_grade_a.Db.{Json, Envelope}

pub record Coercion : Type 0 where
  pub as_str : Json → Option Text
  pub as_int : Json → Option ℕ
  -- A string field of a request body, stripped.
  pub strip : Text → Text
  -- The fields of the validated model, as they are written to a response.
  pub model_dump : Envelope → Envelope

unfoldable pub get : Text → Envelope → Option Json
get key [] = none
get key ((k, v) ∷ rest) = if text_eq k key then some v else get key rest

abbrev pub between : ℕ → ℕ → ℕ → Bool
between lo hi n = leb lo n && leb n hi

unfoldable pub valid_str : Coercion → ℕ → Option Json → Bool
valid_str c hi none = false
valid_str c hi (some j) = elim (c.as_str j) [ none ↦ false | some s ↦ between 1 hi (length s) ]

unfoldable pub valid_int : Coercion → Option Json → Bool
valid_int c none = false
valid_int c (some j) = elim (c.as_int j) [ none ↦ false | some n ↦ between 1 100 n ]

-- `MessageEnvelope.model_validate` does not raise; all other keys are allowed.
unfoldable pub validates : Coercion → Envelope → Bool
validates c e =
    valid_str c 64 (get (codes "alg") e)
    && (valid_str c 256 (get (codes "nonce") e) && valid_int c (get (codes "version") e))
