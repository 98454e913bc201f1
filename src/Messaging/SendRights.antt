-- ===== src/Messaging/SendRights.antt =====
-- Who may send into a conversation: the checks of `MessagingService.send`.
use pqc_grade_a.Base.{
  ℕ, ◌≡◌, ◌↔◌, refl, true, some, List, [], ◌∷◌, Text, Bytes, arith, inl, inr, Option-cases,
  Bool-cases, count_of_found, count_mono, count_of_none, first_where_holds,
}
use pqc_grade_a.Base64.{b64decode}
use pqc_grade_a.Db.{Db, Conversation, ConversationParticipant, Envelope, Message}
use pqc_grade_a.Exec.{ok}
use pqc_grade_a.Exec.Keeps.{returns_once, Keeps}
use pqc_grade_a.Conversation.Repository.{is_direct, belongs_to, is_member, has_id}
use pqc_grade_a.Conversation.Invariant.{IsValid, IsValid-irrelevant, update_last_message_at-IsValid}
use pqc_grade_a.Conversation.Preserve.{after_reactivated-IsValid}
use pqc_grade_a.Conversation.Outcomes.{membership, active_membership, group_of, after_reactivated}
use pqc_grade_a.Messaging.Envelope.{Coercion, validates}
use pqc_grade_a.Messaging.Service.{new_message, send}
use pqc_grade_a.Messaging.Outcomes.{signs, revive, everyone}
use pqc_grade_a.Messaging.Sending.{
  stored, to_whom, revived, stamped, send_outsider, send_unsigned, send_misshapen, send_undecodable,
  send_done,
}

-- The sender is an active participant, the key is the sender's own and not rotated out, the envelope
-- has its structural fields and the ciphertext is base64.
pub record MaySend (k : Coercion) (db : Db) (sender c : ℕ) (text : Text) (envelope : Envelope)
    (key_id : ℕ) : Type 0 where
  pub row : ConversationParticipant
  pub member : active_membership db c sender ≡ some row
  pub key : signs db sender key_id ≡ true
  pub shape : validates k envelope ≡ true
  pub bytes : Bytes
  pub decoded : b64decode text ≡ some bytes

active_is_member :
    (db : Db) (c u : ℕ) (p : ConversationParticipant)
    → active_membership db c u ≡ some p
    → membership db c u ≡ some p
active_is_member db c u p e = elim (Option-cases (membership db c u)) [
  | inl n ↦ ground arith
  | inr (q, n) ↦ ground arith
]

-- A conversation with a member is there.
pub conversation_of_member :
    (db : Db) (c u : ℕ) (p : ConversationParticipant)
    → IsValid db
    → active_membership db c u ≡ some p
    → (cv : Conversation) × (group_of db c ≡ some cv)
conversation_of_member db c u p v e = elim (Option-cases (group_of db c)) [
  | inr found ↦ found
  | inl n ↦ absurd (
      omega (
        arith,
        v.participant_known c (count_of_none (has_id c) db.conversations n),
        count_of_found (is_member c u) (is_member c u) db.participants p
            (active_is_member db c u p e)
            (first_where_holds (is_member c u) db.participants p (active_is_member db c u p e)),
        count_mono (is_member c u) (belongs_to c) db.participants (λ x h. ground arith),
      ))
]

module _ (k : Coercion) (now sender c : ℕ) (text : Text) (envelope : Envelope) (key_id : ℕ)
    (db : Db) (v : IsValid db) where
  abbrev Sent : Message × List ℕ → Db → Type 0
  Sent r db' =
      (m : MaySend k db sender c text envelope key_id) × (cv : Conversation) × (group_of db c
        ≡ some cv)
      × (r ≡ (new_message now c sender key_id m.bytes envelope db.next_id, to_whom db c cv))
      × (db'
          ≡ stamped c now (
              revived c cv
                (stored (new_message now c sender key_id m.bytes envelope db.next_id) db)))

  pub Sent-only_if :
      (r : Message × List ℕ) (db' : Db)
      → send k now sender c text envelope key_id db ≡ (ok r, db')
      → Sent r db'
  Sent-only_if r db' h = elim (Option-cases (active_membership db c sender)) [
    | inl e ↦ cc (send_outsider k now sender c text envelope key_id db v e)
    | inr (p, e) ↦ elim (Bool-cases (signs db sender key_id)) [
      | inr s ↦ cc (send_unsigned k now sender c text envelope key_id db v p e s)
      | inl s ↦ elim (Bool-cases (validates k envelope)) [
        | inr w ↦ cc (send_misshapen k now sender c text envelope key_id db v p e s w)
        | inl w ↦ elim (Option-cases (b64decode text)) [
          | inl d ↦ cc (send_undecodable k now sender c text envelope key_id db v p e s w d)
          | inr (bytes, d) ↦
              let (cv, g) = conversation_of_member db c sender p v e in
              let (er, ed) =
                returns_once (send k now sender c text envelope key_id db) _ r _ db'
                  (send_done k now sender c text envelope key_id db v p cv bytes e s w d g) h in
              (
                record { row = p; member = e; key = s; shape = w; bytes = bytes; decoded = d },
                cv,
                g,
                er,
                ed,
              )
        ]
      ]
    ]
  ]

  -- On valid tables a message is accepted exactly if the sender is an active participant, the
  -- signing key is the sender's own and not rotated out, the envelope has its structural fields
  -- and the ciphertext is base64.
  pub send_iff :
      ((r : Message × List ℕ) × (db' : Db) × (send k now sender c text envelope key_id db
          ≡ (ok r, db')))
      ↔ MaySend k db sender c text envelope key_id
  send_iff = (
    (λ (r, db', h). (Sent-only_if r db' h).0),
    (λ m.
        let (cv, g) = conversation_of_member db c sender m.row v m.member in
        (
          _,
          _,
          send_done k now sender c text envelope key_id db v m.row cv m.bytes m.member m.key m.shape
              m.decoded g,
        )),
  )

revive-IsValid : (ps : List ConversationParticipant) (db : Db) → IsValid db → IsValid (revive ps db)
revive-IsValid [] db v = v
revive-IsValid (p ∷ ps) db v =
    revive-IsValid ps (after_reactivated p db) (after_reactivated-IsValid p db v)

-- What follows the insert of a message keeps the constraints.
pub announced-IsValid :
    (c now : ℕ) (cv : Conversation) (db : Db)
    → IsValid db
    → IsValid (stamped c now (revived c cv db))
announced-IsValid c now cv db v =
    update_last_message_at-IsValid c now (revived c cv db) (elim (Bool-cases (is_direct cv.type)) [
      | inl d ↦ rw d (revive-IsValid (everyone db c) db v)
      | inr d ↦ rw d v
    ])

sent-IsValid :
    (c now : ℕ) (cv : Conversation) (m : Message) (db : Db)
    → IsValid db
    → IsValid (stamped c now (revived c cv (stored m db)))
sent-IsValid c now cv m db v =
    announced-IsValid c now cv (stored m db)
      (IsValid-irrelevant db (stored m db) refl refl (omega arith) v)

pub send-Keeps :
    (k : Coercion) (now sender c : ℕ) (text : Text) (envelope : Envelope) (key_id : ℕ)
    → Keeps IsValid (send k now sender c text envelope key_id)
send-Keeps k now sender c text envelope key_id = record {
  after = λ db v. elim (Option-cases (active_membership db c sender)) [
    | inl e ↦ rw (send_outsider k now sender c text envelope key_id db v e) v
    | inr (p, e) ↦ elim (Bool-cases (signs db sender key_id)) [
      | inr s ↦ rw (send_unsigned k now sender c text envelope key_id db v p e s) v
      | inl s ↦ elim (Bool-cases (validates k envelope)) [
        | inr w ↦ rw (send_misshapen k now sender c text envelope key_id db v p e s w) v
        | inl w ↦ elim (Option-cases (b64decode text)) [
          | inl d ↦ rw (send_undecodable k now sender c text envelope key_id db v p e s w d) v
          | inr (bytes, d) ↦
              let (cv, g) = conversation_of_member db c sender p v e in
              rw (send_done k now sender c text envelope key_id db v p cv bytes e s w d g) (
                sent-IsValid c now cv (new_message now c sender key_id bytes envelope db.next_id) db
                  v)
        ]
      ]
    ]
  ];
}
