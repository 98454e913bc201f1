-- ===== src/Socket/Connection.antt =====
-- What a connection leaves behind.
use pqc_grade_a.Base.{
  ℕ, ◌≡◌, refl, ap, ◌∙◌, false, ◌&&◌, ◌||◌, not, Option, none, some, List, [], ◌∷◌, Text, ◌==◌,
  arith, inl, inr, Bool-cases, Option-cases,
}
use pqc_grade_a.Errors.{messaging}
use pqc_grade_a.Db.{Db, Message}
use pqc_grade_a.Exec.{Result, ok, err, Action, ◌>>=◌, request}
use pqc_grade_a.Exec.Keeps.{Result-cases}
use pqc_grade_a.Conversation.Invariant.{IsValid}
use pqc_grade_a.Messaging.Envelope.{Coercion}
use pqc_grade_a.Messaging.Service.{send}
use pqc_grade_a.Messaging.SendRights.{send-Keeps}
use pqc_grade_a.Account.AccessTokens.{TokenSigner, ClaimsJson, AccessTokenClaims, decode}
use pqc_grade_a.Account.Users
use pqc_grade_a.Account.Sessions
use pqc_grade_a.Account.Guard.{given, active_user, authenticate}
use pqc_grade_a.Socket.Manager.{Manager, connect, disconnect}
use pqc_grade_a.Socket.Delivery.{is_open, disconnect_mine, disconnect_other}
use pqc_grade_a.Socket.Refinement.{connect_mine, connect_other}
use pqc_grade_a.Socket.Realtime.{
  Parsers, FrameData, Frame, no_json, no_object, object, parse_send, Handled, scope,
  handle_message_send, is_send, on_frame, receive_loop, after_authentication, realtime, Connection,
  on_error, on_sent,
}

module _ (u s : ℕ) (m : Manager) where
  module _ (new : (w : ℕ) → is_open w s m ≡ false) where
    taken_out : (t : ℕ) → ((is_open u t m || t == s) && not (t == s)) ≡ is_open u t m
    taken_out t = elim (Bool-cases (t == s)) [
      | inl e ↦
          let eq : t ≡ s = ground arith in
          let absent : is_open u t m ≡ false = rw eq (new u) in rw (e, absent) refl
      | inr e ↦ rw e (ground arith)
    ]

    -- A socket that was new leaves no trace.
    in_and_out : (w t : ℕ) → is_open w t (disconnect u s (connect u s m)) ≡ is_open w t m
    in_and_out w t = elim (Bool-cases (w == u)) [
      | inr e ↦ disconnect_other u s (connect u s m) w t (ground arith) ∙ connect_other u s m w t e
      | inl e ↦
          let same : w ≡ u = ground arith in
          rw same (
            disconnect_mine u s (connect u s m) t
            ∙ ap (λ b. b && not (t == s)) (connect_mine u s m t)
            ∙ taken_out t)
    ]

module _ (k : Coercion) (p : Parsers) where
  send_kept :
      (now sender : ℕ) (r : Result (Message × List ℕ) × Db) (db : Db)
      → IsValid db
      → IsValid r.1
      → IsValid
          (elim r.0 as (λ _. Handled × Db) [
            | ok saved ↦ (on_sent sender saved, r.1)
            | err e ↦ (on_error e, scope e db r.1)
          ]).1
  send_kept now sender (ok saved, db') db v w = w
  send_kept now sender (err (messaging e), db') db v w = w
  send_kept now sender (err e, db') db v w = v

  handle_message_send-Valid :
      (now sender : ℕ) (d : FrameData) (db : Db)
      → IsValid db
      → IsValid (handle_message_send k p now sender d db).1
  unfolding handle_message_send
  handle_message_send-Valid now sender d db v = elim (Option-cases (parse_send k p d)) [
    | inl e ↦ rw (e, handle_message_send) v
    | inr (r, e) ↦
        rw (e, handle_message_send)
          (send_kept now sender
            (send k now sender r.conversation_id r.ciphertext (k.model_dump r.envelope)
              r.sender_identity_key_id db)
            db v
            ((send-Keeps k now sender r.conversation_id r.ciphertext (k.model_dump r.envelope)
                r.sender_identity_key_id).after
              db v))
  ]

  on_frame-Valid :
      (now user : ℕ) (f : Frame) (db : Db) → IsValid db → IsValid (on_frame k p now user f db).1
  unfolding on_frame
  on_frame-Valid now user no_json db v = v
  on_frame-Valid now user no_object db v = v
  on_frame-Valid now user (object none d) db v = v
  on_frame-Valid now user (object (some t) d) db v = elim (Bool-cases (is_send t)) [
    | inl e ↦ rw e (handle_message_send-Valid now user d db v)
    | inr e ↦ rw e v
  ]

  receive_loop-Valid :
      (user : ℕ) (fs : List (ℕ × Frame)) (db : Db)
      → IsValid db
      → IsValid (receive_loop k p user fs db).1
  unfolding receive_loop
  receive_loop-Valid user [] db v = v
  receive_loop-Valid user ((now, f) ∷ fs) db v =
      elim (Bool-cases (on_frame k p now user f db).0.crashed) [
        | inl e ↦ rw e (on_frame-Valid now user f db v)
        | inr e ↦ rw e (
            receive_loop-Valid user fs (on_frame k p now user f db).1
              (on_frame-Valid now user f db v))
      ]

active_user_reads :
    (now : ℕ) (claims : Option AccessTokenClaims) (db : Db) → (active_user now claims db).1 ≡ db
unfolding active_user Sessions.get_by_id Users.get_by_id
active_user_reads now none db = refl
active_user_reads now (some claims) db = refl

authenticate_reads :
    (signer : TokenSigner) (json : ClaimsJson) (now : ℕ) (token : Option Text) (db : Db)
    → (authenticate signer json now token db).1 ≡ db
unfolding authenticate
authenticate_reads signer json now token db = elim (Option-cases (given token)) [
  | inl e ↦ rw (e, authenticate) refl
  | inr (t, e) ↦ elim (Result-cases (decode signer json now t)) [
    | inl (x, d) ↦ rw (e, authenticate) (rw (d, ◌>>=◌) refl)
    | inr (claims, d) ↦ rw (e, authenticate) (rw (d, ◌>>=◌) (active_user_reads now claims db))
  ]
]

request_reads : {A : Type 0} (m : Action A) (db : Db) → (m db).1 ≡ db → (request m db).1 ≡ db
unfolding request
request_reads m db h = ground arith

module _ (k : Coercion) (p : Parsers) (socket : ℕ) (frames : List (ℕ × Frame)) (m : Manager)
    (new : (w : ℕ) → is_open w socket m ≡ false) where
  -- What holds when a connection has ended.
  abbrev Closed : Connection → Type 0
  Closed c = IsValid c.tables × ((w t : ℕ) → is_open w t c.manager ≡ is_open w t m)

  after_authentication-Closed :
      (who : Result (Option ℕ)) (db : Db)
      → IsValid db
      → Closed (after_authentication k p socket frames m who db)
  after_authentication-Closed (err e) db v = (v, (λ w t. refl))
  after_authentication-Closed (ok none) db v = (v, (λ w t. refl))
  after_authentication-Closed (ok (some user)) db v =
      (receive_loop-Valid k p user frames db v, in_and_out user socket m new)

  -- However a websocket connection ends, by a refused token, by the client or by an exception of a
  -- frame, the tables of conversations and participants still meet their constraints, and the
  -- registry has exactly the open sockets that it had before. The tables meet them at the start,
  -- and the socket is new.
  pub realtime_closes :
      (signer : TokenSigner) (json : ClaimsJson) (now : ℕ) (token : Option Text) (db : Db)
      → IsValid db
      → IsValid (realtime k p signer json now token socket frames db m).tables
        × ((w t : ℕ)
            → is_open w t (realtime k p signer json now token socket frames db m).manager
              ≡ is_open w t m)
  unfolding realtime
  realtime_closes signer json now token db v =
      after_authentication-Closed (request (authenticate signer json now token) db).0
        (request (authenticate signer json now token) db).1
        (rw
          (request_reads (authenticate signer json now token) db
            (authenticate_reads signer json now token db))
          v)
