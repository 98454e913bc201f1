-- ===== src/File/UploadEnds.antt =====
-- What an upload comes to on valid tables: refused, taken back, stuck in the store, or done.
use pqc_grade_a.Base.{
  ℕ, ◌≡◌, refl, ap, ◌∙◌, true, false, some, [], Text, arith, length, inl, inr, Bool-cases,
  Option-cases,
}
use pqc_grade_a.Errors.{
  Error, file, file_upload_failed, file_size_mismatch, storage_error, data_error,
}
use pqc_grade_a.Db.{Db, Conversation, ConversationParticipant}
use pqc_grade_a.Exec.{ok, err}
use pqc_grade_a.Conversation.Invariant.{IsValid}
use pqc_grade_a.Conversation.Outcomes.{active_membership, group_of}
use pqc_grade_a.Messaging.Envelope.{Coercion, validates}
use pqc_grade_a.Messaging.Outcomes.{signs}
use pqc_grade_a.Messaging.Sending.{stored, to_whom, revived, stamped}
use pqc_grade_a.Messaging.SendRights.{conversation_of_member}
use pqc_grade_a.File.Upload.{
  Store, Objects, StorageKey, put_object, delete_object, Upload, type_fits, bad_size, bad_length,
  check_upload, completed, record_upload, store_upload, Outcome, upload,
}
use pqc_grade_a.File.Uploading.{
  drawn, check_outsider, check_large, check_unsigned, check_misshapen, check_done, companion,
  attached, filed, record_upload_lem, record_upload_overlong,
}

-- The uploader is an active participant, the declared size is positive and within the limit, the
-- signing key is the uploader's own and not rotated out, the envelope has its structural fields,
-- the store takes the object, its length is what was declared, and the content type fits its column.
pub record MayUpload (k : Coercion) (s : Store) (max_mb : ℕ) (u : Upload) (db : Db) : Type 0 where
  pub row : ConversationParticipant
  pub member : active_membership db u.conversation_id u.sender_id ≡ some row
  pub size : bad_size max_mb u ≡ false
  pub key : signs db u.sender_id u.sender_identity_key_id ≡ true
  pub shape : validates k u.file_envelope ≡ true
  pub taken : s.puts ≡ true
  pub exact : bad_length max_mb u ≡ false
  pub fits : type_fits u.content_type ≡ true

module _ (k : Coercion) (s : Store) (uuid_text : ℕ → Text) (max_mb now : ℕ) (u : Upload) (db : Db)
    (objects : Objects) where
  upload_checked :
      (attachment : ℕ) (db' : Db)
      → check_upload k max_mb u db ≡ (ok attachment, db')
      → upload k s uuid_text max_mb now u db objects
        ≡ store_upload s uuid_text max_mb now u attachment db' objects
  unfolding upload
  upload_checked attachment db' e = ground arith

  upload_refused :
      (x : Error) (db' : Db)
      → check_upload k max_mb u db ≡ (err x, db')
      → upload k s uuid_text max_mb now u db objects ≡ ((err x, db'), objects)
  unfolding upload
  upload_refused x db' e = ground arith

  store_refused :
      (attachment : ℕ)
      → s.puts ≡ false
      → store_upload s uuid_text max_mb now u attachment db objects
        ≡ ((err (file file_upload_failed), db), objects)
  unfolding store_upload
  store_refused attachment e = rw e refl

  store_mismatched :
      (attachment : ℕ)
      → s.puts ≡ true
      → bad_length max_mb u ≡ true
      → s.deletes ≡ true
      → store_upload s uuid_text max_mb now u attachment db objects ≡ (
        (err (file file_size_mismatch), db),
        delete_object
            (u.conversation_id, attachment)
            (put_object (u.conversation_id, attachment) u.contents objects),
      )
  unfolding store_upload
  store_mismatched attachment e l d = rw (e, l, d) refl

  store_stuck :
      (attachment : ℕ)
      → s.puts ≡ true
      → bad_length max_mb u ≡ true
      → s.deletes ≡ false
      → store_upload s uuid_text max_mb now u attachment db objects
        ≡ ((err storage_error, db), put_object (u.conversation_id, attachment) u.contents objects)
  unfolding store_upload
  store_stuck attachment e l d = rw (e, l, d) refl

  store_done :
      (attachment : ℕ)
      → s.puts ≡ true
      → bad_length max_mb u ≡ false
      → store_upload s uuid_text max_mb now u attachment db objects ≡ (
        record_upload uuid_text now u attachment db,
        put_object (u.conversation_id, attachment) u.contents objects,
      )
  unfolding store_upload
  store_done attachment e l = rw (e, l) refl

module _ (k : Coercion) (s : Store) (uuid_text : ℕ → Text) (max_mb now : ℕ) (u : Upload) (db : Db)
    (objects : Objects) (v : IsValid db) where
  abbrev pub key : StorageKey
  key = (u.conversation_id, db.next_id)

  abbrev pub with_object : Objects
  with_object = put_object key u.contents objects

  -- The result, the tables and the store after an upload that is done.
  abbrev pub ended : Conversation → Outcome
  ended cv = (
    (
      ok (
        companion uuid_text now u db.next_id (drawn db),
        completed (length u.contents) (attached uuid_text now u db.next_id (drawn db)),
        to_whom (drawn db) u.conversation_id cv,
      ),
      stamped u.conversation_id now
          (revived u.conversation_id cv (filed uuid_text now u db.next_id (drawn db))),
    ),
    with_object,
  )

  -- What an upload comes to.
  pub data Ends (r : Outcome) : Type 0 where
    refused : (x : Error) (db' : Db) → r ≡ ((err x, db'), objects) → Ends r
    mismatched :
        (x : Error) (db' : Db)
        → s.deletes ≡ true
        → r ≡ ((err x, db'), delete_object key with_object)
        → Ends r
    stuck : (x : Error) (db' : Db) → s.deletes ≡ false → r ≡ ((err x, db'), with_object) → Ends r
    -- the insert fails, and the object stays
    overlong :
        (db' : Db)
        → MayUpload k s max_mb (record u { content_type = [] }) db
        → type_fits u.content_type ≡ false
        → r ≡ ((err data_error, db'), with_object)
        → Ends r
    done :
        (may : MayUpload k s max_mb u db) (cv : Conversation)
        → group_of db u.conversation_id ≡ some cv
        → r ≡ ended cv
        → Ends r

  pub upload_done :
      (may : MayUpload k s max_mb u db)
      → (cv : Conversation) × (group_of db u.conversation_id ≡ some cv)
        × (upload k s uuid_text max_mb now u db objects ≡ ended cv)
  upload_done may =
      let (cv, g) = conversation_of_member db u.conversation_id u.sender_id may.row v may.member in
      (
        cv,
        g,
        upload_checked k s uuid_text max_mb now u db objects db.next_id (drawn db)
              (check_done k max_mb u db v may.row may.member may.size may.key may.shape)
            ∙ store_done k s uuid_text max_mb now u (drawn db) objects db.next_id may.taken
                may.exact
            ∙ ap {B = Outcome} (λ r. (r, with_object))
                (record_upload_lem uuid_text now u db.next_id (drawn db) cv g may.fits),
      )

  -- All that `MayUpload` asks for but the length of the content type.
  overlong_run :
      (p : ConversationParticipant)
      → active_membership db u.conversation_id u.sender_id ≡ some p
      → bad_size max_mb u ≡ false
      → signs db u.sender_id u.sender_identity_key_id ≡ true
      → validates k u.file_envelope ≡ true
      → s.puts ≡ true
      → bad_length max_mb u ≡ false
      → type_fits u.content_type ≡ false
      → upload k s uuid_text max_mb now u db objects ≡ (
        (err data_error, stored (companion uuid_text now u db.next_id (drawn db)) (drawn db)),
        with_object,
      )
  overlong_run p member e f w t l long =
      let (cv, g) = conversation_of_member db u.conversation_id u.sender_id p v member in
      upload_checked k s uuid_text max_mb now u db objects db.next_id (drawn db)
        (check_done k max_mb u db v p member e f w)
      ∙ store_done k s uuid_text max_mb now u (drawn db) objects db.next_id t l
      ∙ ap {B = Outcome} (λ r. (r, with_object))
          (record_upload_overlong uuid_text now u db.next_id (drawn db) cv g long)

  stored-Ends :
      (p : ConversationParticipant)
      → active_membership db u.conversation_id u.sender_id ≡ some p
      → bad_size max_mb u ≡ false
      → signs db u.sender_id u.sender_identity_key_id ≡ true
      → validates k u.file_envelope ≡ true
      → Ends (upload k s uuid_text max_mb now u db objects)
  stored-Ends p member e f w =
      let start =
        upload_checked k s uuid_text max_mb now u db objects db.next_id (drawn db)
          (check_done k max_mb u db v p member e f w) in
      elim (Bool-cases s.puts) [
        | inr t ↦
            refused _ _
              (start ∙ store_refused k s uuid_text max_mb now u (drawn db) objects db.next_id t)
        | inl t ↦ elim (Bool-cases (bad_length max_mb u)) [
          | inr l ↦ elim (Bool-cases (type_fits u.content_type)) [
            | inr long ↦
                let shortened : MayUpload k s max_mb (record u { content_type = [] }) db = record {
                  row = p;
                  member = member;
                  size = e;
                  key = f;
                  shape = w;
                  taken = t;
                  exact = l;
                  fits = refl;
                } in
                overlong _ shortened long (overlong_run p member e f w t l long)
            | inl fits ↦
                let may : MayUpload k s max_mb u db = record {
                  row = p;
                  member = member;
                  size = e;
                  key = f;
                  shape = w;
                  taken = t;
                  exact = l;
                  fits = fits;
                } in
                let (cv, g, ran) = upload_done may in done may cv g ran
          ]
          | inl l ↦ elim (Bool-cases s.deletes) [
            | inl d ↦ mismatched _ _ d (
                start
                ∙ store_mismatched k s uuid_text max_mb now u (drawn db) objects db.next_id t l d)
            | inr d ↦
                stuck _ _ d (
                  start
                  ∙ store_stuck k s uuid_text max_mb now u (drawn db) objects db.next_id t l d)
          ]
        ]
      ]

  pub upload-Ends : Ends (upload k s uuid_text max_mb now u db objects)
  upload-Ends = elim (Option-cases (active_membership db u.conversation_id u.sender_id)) [
    | inl e ↦ refused _ _ (
        upload_refused k s uuid_text max_mb now u db objects _ _ (check_outsider k max_mb u db v e))
    | inr (p, member) ↦ elim (Bool-cases (bad_size max_mb u)) [
      | inl e ↦ refused _ _ (
          upload_refused k s uuid_text max_mb now u db objects _ _
            (check_large k max_mb u db v p member e))
      | inr e ↦ elim (Bool-cases (signs db u.sender_id u.sender_identity_key_id)) [
        | inr f ↦ refused _ _ (
            upload_refused k s uuid_text max_mb now u db objects _ _
              (check_unsigned k max_mb u db v p member e f))
        | inl f ↦ elim (Bool-cases (validates k u.file_envelope)) [
          | inr w ↦ refused _ _ (
              upload_refused k s uuid_text max_mb now u db objects _ _
                (check_misshapen k max_mb u db v p member e f w))
          | inl w ↦ stored-Ends p member e f w
        ]
      ]
    ]
  ]
