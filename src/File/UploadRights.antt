-- ===== src/File/UploadRights.antt =====
-- Who may upload a file, and what is left in the object store of an upload that fails.
use pqc_grade_a.Base.{
  ℕ, ◌≡◌, ◌⊎◌, ◌↔◌, refl, sym, ap, ◌∙◌, true, false, none, List, [], Text, Bytes, arith, inl, inr,
  Bool-cases,
}
use pqc_grade_a.Errors.{Error, data_error}
use pqc_grade_a.Db.{Db, Message, FileAttachment}
use pqc_grade_a.Exec.{ok, err}
use pqc_grade_a.Conversation.Invariant.{IsValid}
use pqc_grade_a.Messaging.Envelope.{Coercion}
use pqc_grade_a.File.Upload.{
  Store, Objects, StorageKey, same_key, put_object, delete_object, Upload, type_fits, Outcome,
  upload,
}
use pqc_grade_a.File.UploadEnds.{
  MayUpload, Ends, refused, mismatched, stuck, overlong, done, upload-Ends, upload_done,
}

pub no_error :
    (r : Outcome) (x : Error) (a : Message × FileAttachment × List ℕ) (d d' : Db) (o o' : Objects)
    → r ≡ ((err x, d), o)
    → r ≡ ((ok a, d'), o')
    → ⊥
no_error r x a d d' o o' e h = cc (ap (λ t. t.0.0) (sym e ∙ h))

pub same_upload :
    (r : Outcome) (a b : Message × FileAttachment × List ℕ) (d d' : Db) (o o' : Objects)
    → r ≡ ((ok a, d), o)
    → r ≡ ((ok b, d'), o')
    → (a ≡ b) × (d ≡ d') × (o ≡ o')
same_upload r a b d d' o o' e h =
    let both = sym e ∙ h in (cc (ap (λ t. t.0.0) both), ap (λ t. t.0.1) both, ap (λ t. t.1) both)

same_key→eq : (a b : StorageKey) → same_key a b ≡ true → a ≡ b
same_key→eq a b h = ground arith

pub same_key_refl : (a : StorageKey) → same_key a a ≡ true
same_key_refl a = ground arith

-- An object that is stored and deleted again is gone, and no other has changed.
taken_back :
    (a other : StorageKey) (bytes : Bytes) (objects : Objects)
    → objects a ≡ none
    → delete_object a (put_object a bytes objects) other ≡ objects other
unfolding delete_object put_object
taken_back a other bytes objects free = elim (Bool-cases (same_key other a)) [
  | inl e ↦ rw e (sym free ∙ ap objects (sym (same_key→eq other a e)))
  | inr e ↦ rw e refl
]

module _ (k : Coercion) (s : Store) (uuid_text : ℕ → Text) (max_mb now : ℕ) (u : Upload) (db : Db)
    (objects : Objects) (v : IsValid db) where
  abbrev run : Outcome
  run = upload k s uuid_text max_mb now u db objects

  done_only :
      (r : Message × FileAttachment × List ℕ) (db' : Db) (objects' : Objects)
      → run ≡ ((ok r, db'), objects')
      → Ends k s uuid_text max_mb now u db objects v run
      → MayUpload k s max_mb u db
  done_only r db' objects' h (refused x d e) = absurd (no_error run x r d db' objects objects' e h)
  done_only r db' objects' h (mismatched x d del e) = absurd (no_error run x r d db' _ objects' e h)
  done_only r db' objects' h (stuck x d del e) = absurd (no_error run x r d db' _ objects' e h)
  done_only r db' objects' h (overlong d wide long e) =
      absurd (no_error run data_error r d db' _ objects' e h)
  done_only r db' objects' h (done may cv g e) = may

  -- On valid tables an upload succeeds exactly if the uploader is an active participant, the
  -- declared size is positive and within the limit, the signing key is the uploader's own and not
  -- rotated out, the envelope has its structural fields, the store takes the object, as many bytes
  -- come as were declared, and the content type has 255 characters at most.
  pub upload_iff :
      ((r : Message × FileAttachment × List ℕ) × (db' : Db) × (objects' : Objects) × (upload k s
            uuid_text max_mb now u db objects
          ≡ ((ok r, db'), objects')))
      ↔ MayUpload k s max_mb u db
  upload_iff = (
    (λ (r, db', objects', h).
        done_only r db' objects' h (upload-Ends k s uuid_text max_mb now u db objects v)),
    (λ may.
        let (cv, g, ran) = upload_done k s uuid_text max_mb now u db objects v may in
        (_, _, _, ran)),
  )

  -- What a failed upload leaves in the store: the objects as they were, or its own object too.
  abbrev Left : Error → Objects → Type 0
  Left x objects' =
      ((other : StorageKey) → objects' other ≡ objects other)
      ⊎ ((x ≡ data_error)
          × (type_fits u.content_type ≡ false)
          × MayUpload k s max_mb (record u { content_type = [] }) db
          × (objects' ≡ put_object (u.conversation_id, db.next_id) u.contents objects))

  Left-Ends :
      (x : Error) (db' : Db) (objects' : Objects)
      → s.deletes ≡ true
      → objects (u.conversation_id, db.next_id) ≡ none
      → run ≡ ((err x, db'), objects')
      → Ends k s uuid_text max_mb now u db objects v run
      → Left x objects'
  Left-Ends x db' objects' del free h (refused y d e) =
      inl (λ other. ap (λ t. t.1 other) (sym h ∙ e))
  Left-Ends x db' objects' del free h (mismatched y d del' e) = inl (λ other.
      ap (λ t. t.1 other) (sym h ∙ e)
      ∙ taken_back (u.conversation_id, db.next_id) other u.contents objects free)
  Left-Ends x db' objects' del free h (stuck y d stays e) = absurd (cc (sym del ∙ stays))
  Left-Ends x db' objects' del free h (overlong d wide long e) =
      let both = sym h ∙ e in inr (cc (ap (λ t. t.0.0) both), long, wide, ap (λ t. t.1) both)
  Left-Ends x db' objects' del free h (done may cv g e) =
      absurd (no_error run x _ db' _ objects' _ h e)

  -- An upload that fails leaves every object of the store as it was, or it met all conditions but
  -- that its content type is longer than 255 characters: then the insert of its row has failed,
  -- and its object is added to the store. The tables are valid, the store lets objects be deleted
  -- and the key is free.
  pub upload_fails :
      (x : Error) (db' : Db) (objects' : Objects)
      → s.deletes ≡ true
      → objects (u.conversation_id, db.next_id) ≡ none
      → upload k s uuid_text max_mb now u db objects ≡ ((err x, db'), objects')
      → ((other : StorageKey) → objects' other ≡ objects other)
        ⊎ ((x ≡ data_error)
            × (type_fits u.content_type ≡ false)
            × MayUpload k s max_mb (record u { content_type = [] }) db
            × (objects' ≡ put_object (u.conversation_id, db.next_id) u.contents objects))
  upload_fails x db' objects' del free h =
      Left-Ends x db' objects' del free h (upload-Ends k s uuid_text max_mb now u db objects v)
