-- ===== src/Api/Schema.antt =====
-- `CreateConversationRequest` of backend/src/schemas/messaging.py.
use pqc_grade_a.Base.{
  ℕ, Bool, false, ◌||◌, ◌&&◌, not, Option, none, some, List, [], ◌∷◌, Text, ◌==◌, leb, length,
  if◌then◌else◌, exists, is_none,
}
use pqc_grade_a.Db.{ConversationType}
use pqc_grade_a.Conversation.Repository.{is_direct}
use pqc_grade_a.Messaging.Envelope.{Coercion, between}
use mathlib.Core.Option

-- The characters that `str.strip` removes.
unfoldable pub is_space : ℕ → Bool
is_space c =
    between 9 13 c
    || (between 28 32 c
        || (between 8192 8202 c
            || exists (λ s. s == c) (133 ∷ 160 ∷ 5760 ∷ 8232 ∷ 8233 ∷ 8239 ∷ 8287 ∷ 12288 ∷ [])))

unfoldable pub is_blank : Text → Bool
is_blank s = not (exists (λ c. not (is_space c)) s)

pub record CreateConversationRequest : Type 0 where
  pub type : ConversationType
  pub participant_user_ids : List ℕ
  pub name : Option Text

-- The body as pydantic hands it over.
abbrev pub stripped : Coercion → CreateConversationRequest → CreateConversationRequest
stripped k r = record r { name = Option.map k.strip r.name }

-- The bounds of `SendMessageRequest.ciphertext`.
abbrev pub valid_ciphertext : Text → Bool
valid_ciphertext s = between 1 1048576 (length s)

-- `not self.name or not self.name.strip()` is false, and `max_length=200`
unfoldable pub has_name : Option Text → Bool
has_name none = false
has_name (some s) = not (is_blank s) && leb (length s) 200

-- `_validate_shape`, with the bounds of the fields.
unfoldable pub well_shaped : CreateConversationRequest → Bool
well_shaped r =
    between 1 64 (length r.participant_user_ids)
    && (if is_direct r.type
        then (length r.participant_user_ids == 1) && is_none r.name
        else has_name r.name)
