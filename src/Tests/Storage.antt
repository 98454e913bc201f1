-- ===== src/Tests/Storage.antt =====
-- Tests of key backups and of files.
use pqc_grade_a.Base.{
  ℕ, ◌≡◌, ◌≢◌, ◌↔◌, ◌⊎◌, refl, none, some, [], ◌∷◌, Bytes, arith, codes, count, select, first_where,
  exists, false,
}
use pqc_grade_a.Db.{
  Db, direct, Conversation, ConversationParticipant, Message, FileAttachment, complete,
  ConversationKeyBackup,
}
use pqc_grade_a.Exec.{Result, ok, fresh_id, scalar_one_or_none}
use pqc_grade_a.Conversation.Repository as Rows
use pqc_grade_a.Conversation.Repository.{get_participant}
use pqc_grade_a.Conversation.Invariant.{IsValid}
use pqc_grade_a.Backup.Service.{
  WrappedKey, new_backup, put, upsert, add, authorize, get, get_for_user,
}
use pqc_grade_a.Backup.Laws.{UniqueBackups, backup_of}
use pqc_grade_a.Backup.RoundTrip.{contents, get-put}
use pqc_grade_a.File.Service.{download}
use pqc_grade_a.File.Access.{MayDownload, download_iff}
use pqc_grade_a.Tests.World.{world, envelope}

abbrev talk : Conversation
talk = record {
  id = 10;
  type = direct;
  name = none;
  created_by = 1;
  created_at = 5;
  last_message_at = none;
}

abbrev pub row : ConversationParticipant
row = record {
  id = 11;
  conversation_id = 10;
  user_id = 1;
  role = none;
  joined_at = 5;
  left_at = none;
}

abbrev note : Message
note = record {
  id = 12;
  conversation_id = 10;
  sender_id = 1;
  sender_identity_key_id = 9;
  ciphertext = [];
  envelope = envelope;
  integrity_tag_valid_on_receipt = false;
  sent_at = 6;
  delivered_at = none;
}

abbrev attachment : FileAttachment
attachment = record {
  id = 13;
  message_id = 12;
  storage_key = (10, 13);
  envelope = envelope;
  content_type = codes "image/png";
  size_bytes = 1;
  upload_status = complete;
  created_at = 6;
}

abbrev pub room : Db
room = record world {
  conversations = talk ∷ [];
  participants = row ∷ [];
  messages = note ∷ [];
  files = attachment ∷ [];
  next_id = 14;
}

pub room-IsValid : IsValid room
unfolding count exists
room-IsValid = record {
  member_unique = λ c u. ground arith;
  row_unique = λ i. ground arith;
  conversation_unique = λ i. ground arith;
  row_bound = λ i h. ground arith;
  conversation_bound = λ i h. ground arith;
  participant_known = λ c h. ground arith;
  direct_unique = λ a b ne. ground arith;
}

room-UniqueBackups : UniqueBackups room
unfolding count
room-UniqueBackups = record { pair_unique = λ c u. omega arith; id_unique = λ i. omega arith }

abbrev wrapped : WrappedKey
wrapped = record {
  wrapped_key = 1 ∷ 2 ∷ [];
  wrap_nonce = 3 ∷ [];
  wrap_kdf_salt = 4 ∷ [];
  wrap_kdf_params = codes "argon2id";
  wrap_alg = codes "AES-256-GCM";
}

abbrev kept : ConversationKeyBackup
kept = new_backup 7 10 1 wrapped 14

abbrev backed : Db
backed = record room { backups = kept ∷ []; next_id = 15 }

puts : put 7 10 1 wrapped room ≡ (ok kept, backed)
unfolding put upsert add authorize get_for_user get_participant Rows.get_by_id first_where select
    exists scalar_one_or_none fresh_id
puts = refl

get-put_example :
    (get 10 1 backed ≡ (ok (some kept), backed))
    × (contents kept ≡ wrapped)
    × ((c' u' : ℕ) → (c' ≢ 10) ⊎ (u' ≢ 1) → backup_of backed c' u' ≡ backup_of room c' u')
get-put_example = get-put 7 10 1 wrapped room backed kept room-IsValid room-UniqueBackups puts

abbrev objects : ℕ × ℕ → Result Bytes
objects = λ key. ok (88 ∷ [])

download_iff_example :
    (download objects 10 13 1 room ≡ (ok (attachment, 88 ∷ []), room))
    ↔ MayDownload objects room 10 13 1 attachment (88 ∷ [])
download_iff_example = download_iff objects 10 13 1 room room-IsValid attachment (88 ∷ [])
