-- ===== src/Account/GuardLaws.antt =====
-- Which requests are authenticated.
use pqc_grade_a.Base.{
  ℕ, ◌≡◌, ◌↔◌, ◌⊎◌, sym, ap, sym, ◌∙◌, true, Option, none, some, Text, arith, first_where, inl, inr,
  Bool-cases, Option-cases,
}
use pqc_grade_a.Errors.{Error, auth, unauthenticated}
use pqc_grade_a.Db.{Db, User, Session, session_is_active}
use pqc_grade_a.Exec.{ok, err}
use pqc_grade_a.Exec.Keeps.{returns_once, Result-cases}
use pqc_grade_a.Conversation.Repository.{is_user}
use pqc_grade_a.Account.Users
use pqc_grade_a.Account.Sessions
use pqc_grade_a.Account.Sessions.{is_session, live}
use pqc_grade_a.Account.AccessTokens.{AccessTokenClaims, TokenSigner, ClaimsJson, decode}
use pqc_grade_a.Account.Guard.{AuthContext, bearer_token, get_current_session}

-- The header carries a token that decodes, its session is stored, not revoked and not expired, and
-- its user exists.
pub record IsAuthenticated (signer : TokenSigner) (json : ClaimsJson) (strip : Text → Text)
    (now : ℕ) (header : Option Text) (db : Db) (ctx : AuthContext) : Type 0 where
  pub token : Text
  pub presented : bearer_token strip header ≡ some token
  pub claims : AccessTokenClaims
  pub valid : decode signer json now token ≡ ok (some claims)
  pub stored : first_where (is_session claims.session_id) db.sessions ≡ some ctx.session
  pub active : session_is_active now ctx.session ≡ true
  pub known : first_where (is_user claims.user_id) db.users ≡ some ctx.user

live-eq-some :
    (now : ℕ) (found : Option Session) (s : Session)
    → live now found ≡ some s
    → (found ≡ some s) × (session_is_active now s ≡ true)
live-eq-some now none s h = cc
live-eq-some now (some t) s h = elim (Bool-cases (session_is_active now t)) [
  | inl e ↦
      let same : t ≡ s = ground arith in (ap some same, ap (session_is_active now) (sym same) ∙ e)
  | inr e ↦ absurd (ground arith)
]

module _ (signer : TokenSigner) (json : ClaimsJson) (strip : Text → Text) (now : ℕ)
    (header : Option Text) (db : Db) where
  pub guard_passes :
      (ctx : AuthContext)
      → IsAuthenticated signer json strip now header db ctx
      → get_current_session signer json strip now header db ≡ (ok ctx, db)
  unfolding get_current_session Sessions.get_by_id Users.get_by_id
  guard_passes ctx a = ground (arith, a.presented, a.valid, a.stored, a.active, a.known)

  -- An error, or the user and the session of the request; nothing is written.
  abbrev Outcome : Type 0
  Outcome =
      ((x : Error) × (get_current_session signer json strip now header db ≡ (err x, db)))
      ⊎ ((ctx : AuthContext) × (get_current_session signer json strip now header db ≡ (ok ctx, db))
          × IsAuthenticated signer json strip now header db ctx)

  -- The checks one after another: each that fails refuses the request.
  guard_untold :
      bearer_token strip header ≡ none
      → get_current_session signer json strip now header db ≡ (err (auth unauthenticated), db)
  unfolding get_current_session
  guard_untold e = ground arith

  module _ (token : Text) (presented : bearer_token strip header ≡ some token) where
    guard_raised :
        (x : Error)
        → decode signer json now token ≡ err x
        → get_current_session signer json strip now header db ≡ (err x, db)
    unfolding get_current_session
    guard_raised x e = ground arith

    guard_invalid :
        decode signer json now token ≡ ok none
        → get_current_session signer json strip now header db ≡ (err (auth unauthenticated), db)
    unfolding get_current_session
    guard_invalid e = ground arith

    module _ (claims : AccessTokenClaims)
        (valid : decode signer json now token ≡ ok (some claims)) where
      guard_dead :
          live now (first_where (is_session claims.session_id) db.sessions) ≡ none
          → get_current_session signer json strip now header db ≡ (err (auth unauthenticated), db)
      unfolding get_current_session Sessions.get_by_id
      guard_dead e = ground arith

      guard_orphan :
          (s : Session)
          → live now (first_where (is_session claims.session_id) db.sessions) ≡ some s
          → first_where (is_user claims.user_id) db.users ≡ none
          → get_current_session signer json strip now header db ≡ (err (auth unauthenticated), db)
      unfolding get_current_session Sessions.get_by_id Users.get_by_id
      guard_orphan s e n = ground arith

      guard_done :
          (s : Session) (u : User)
          → live now (first_where (is_session claims.session_id) db.sessions) ≡ some s
          → first_where (is_user claims.user_id) db.users ≡ some u
          → get_current_session signer json strip now header db
            ≡ (ok (record { user = u; session = s }), db)
      unfolding get_current_session Sessions.get_by_id Users.get_by_id
      guard_done s u e n = ground arith

      claimed-Outcome : Outcome
      claimed-Outcome =
          let rows = first_where (is_session claims.session_id) db.sessions in
          elim (Option-cases (live now rows)) [
            | inl dead ↦ inl (_, guard_dead dead)
            | inr (s, alive) ↦ elim (Option-cases (first_where (is_user claims.user_id) db.users)) [
              | inl gone ↦ inl (_, guard_orphan s alive gone)
              | inr (u, there) ↦
                  let (stored, active) = live-eq-some now rows s alive in
                  inr (
                    record { user = u; session = s },
                    guard_done s u alive there,
                    record {
                      token = token;
                      presented = presented;
                      claims = claims;
                      valid = valid;
                      stored = stored;
                      active = active;
                      known = there;
                    },
                  )
            ]
          ]

  get_current_session-Outcome : Outcome
  get_current_session-Outcome = elim (Option-cases (bearer_token strip header)) [
    | inl untold ↦ inl (_, guard_untold untold)
    | inr (token, presented) ↦ elim (Result-cases (decode signer json now token)) [
      | inl (x, e) ↦ inl (x, guard_raised token presented x e)
      | inr (decoded, e) ↦ elim (Option-cases decoded) [
        | inl n ↦ inl (_, guard_invalid token presented (e ∙ ap ok n))
        | inr (claims, c) ↦ claimed-Outcome token presented claims (e ∙ ap ok c)
      ]
    ]
  ]

  -- A request is authenticated as a user and a session exactly if its header carries a bearer
  -- token that decodes, the session of the token is stored, not revoked and not expired, and the
  -- user of the token exists; the database stays as it was.
  pub get_current_session_iff :
      (ctx : AuthContext) (db' : Db)
      → (get_current_session signer json strip now header db ≡ (ok ctx, db'))
        ↔ (IsAuthenticated signer json strip now header db ctx × (db' ≡ db))
  get_current_session_iff ctx db' = (
    (λ h. elim get_current_session-Outcome [
      | inl (x, e) ↦ absurd (cc (ap (λ r. r.0) (sym e ∙ h)))
      | inr (c, e, a) ↦
          let (ec, ed) =
            returns_once (get_current_session signer json strip now header db) c ctx db db' e h in
          (rw ec a, ed)
    ]),
    (λ (a, e). rw e (guard_passes ctx a)),
  )
