-- ===== src/Tests/World.antt =====
-- A small world: three users, an identity key, a text codec and a JSON coercion.
use Prim.Native.Nat.{zero, suc}
use pqc_grade_a.Base.{
  ℕ, ◌≡◌, ◌<◌, ◌≢◌, refl, ap, Option, none, some, [], ◌∷◌, Text, length, All, arith, codes, count,
  true,
}
use pqc_grade_a.Db.{Db, empty_db, User, active, IdentityKeyRecord, Json, text, int, other, Envelope}
use pqc_grade_a.Conversation.Invariant.{IsValid}
use pqc_grade_a.Messaging.Envelope.{Coercion}
use pqc_grade_a.Messaging.Cursor.{Codec, RoundTrips}

abbrev pub user : ℕ → User
user i = record {
  id = i;
  email = i ∷ [];
  username = i ∷ [];
  password_hash = [];
  display_name = i ∷ [];
  avatar_url = none;
  email_verified = true;
  status = active;
  last_seen_at = none;
  created_at = 0;
  updated_at = 0;
}

abbrev pub key : IdentityKeyRecord
key = record {
  id = 9;
  user_id = 1;
  device_label = [];
  public_signing_key = 7 ∷ [];
  public_kem_key = [];
  key_version = 1;
  rotation_attestation = none;
  wrapped_signing_private_key = none;
  wrapped_kem_private_key = none;
  wrap_nonce = none;
  wrap_kdf_salt = none;
  wrap_kdf_params = none;
  wrap_alg = none;
  created_at = 0;
  superseded_at = none;
}

abbrev pub world : Db
world = record empty_db {
  users = user 1 ∷ user 2 ∷ user 3 ∷ [];
  identity_keys = key ∷ [];
  next_id = 10;
}

pub world-IsValid : IsValid world
unfolding count
world-IsValid = record {
  member_unique = λ c u. omega arith;
  row_unique = λ i. omega arith;
  conversation_unique = λ i. omega arith;
  row_bound = λ i h. refl;
  conversation_bound = λ i h. refl;
  participant_known = λ c h. refl;
  direct_unique = λ a b ne. omega arith;
}

abbrev pub as_text : Json → Option Text
as_text (text t) = some t
as_text (int n) = none
as_text (other n) = none

abbrev pub as_number : Json → Option ℕ
as_number (text t) = none
as_number (int n) = some n
as_number (other n) = none

abbrev pub coercion : Coercion
coercion = record { as_str = as_text; as_int = as_number; strip = λ s. s; model_dump = λ e. e }

abbrev pub envelope : Envelope
envelope =
    (codes "alg", text (codes "A"))
    ∷ (codes "nonce", text (codes "N"))
    ∷ (codes "version", int 1)
    ∷ []

-- Times and ids in unary.
abbrev pub unary : ℕ → Text
unary zero = []
unary (suc n) = 97 ∷ unary n

abbrev pub codec : Codec
codec = record {
  isoformat = unary;
  fromisoformat = λ s. some (length s);
  uuid_text = unary;
  uuid = λ s. some (length s);
  decode_utf8 = λ s. some s;
}

length-unary : (n : ℕ) → length (unary n) ≡ n
length-unary zero = refl
length-unary (suc n) = ap suc (length-unary n)

All-unary : (P : ℕ → Type 0) (n : ℕ) → P 97 → All P (unary n)
All-unary P zero h = tt
All-unary P (suc n) h = (h, All-unary P n h)

pub codec-RoundTrips : RoundTrips codec
codec-RoundTrips = record {
  iso = λ t. ap some (length-unary t);
  uuid = λ i. ap some (length-unary i);
  iso_ascii = λ t. All-unary (λ b. b < 128) t (omega arith);
  uuid_ascii = λ i. All-unary (λ b. b < 128) i (omega arith);
  iso_no_bar = λ t. All-unary (λ b. b ≢ b'|') t (omega arith);
  utf8 = λ s h. refl;
}
