-- ===== src/Api/SignOut.antt =====
-- A logout ends the access tokens of its session.
use pqc_grade_a.Base.{
  ℕ, ◌≡◌, refl, ap, Bytes, true, Option, none, some, List, Text, ==_refl, arith, inl, inr,
  Bool-cases, Option-cases, if◌then◌else◌, first_where, update_where, first_where-update_where,
  is_none, exists, leb,
}
use pqc_grade_a.Errors.{value_error, auth, unauthenticated}
use pqc_grade_a.Db.{Db, Session, session_is_active}
use pqc_grade_a.Exec.{ok, err}
use pqc_grade_a.Account.AccessTokens.{
  AccessTokenClaims, TokenSigner, ClaimsJson, decode, current, claims_of, checked, b64url_decode,
  split, three_parts, signing_input,
}
use pqc_grade_a.Account.Sessions
use pqc_grade_a.Account.Sessions.{is_session, live, set_revoked, write_revoked, revoke}
use pqc_grade_a.Account.Auth as Auth
use pqc_grade_a.Account.Guard.{AuthContext, bearer_token, get_current_session}
use pqc_grade_a.Account.GuardLaws.{get_current_session_iff}
use pqc_grade_a.Api.Accounts.{signed_off, logout}

current-eq-some :
    (now : ℕ) (c claims : AccessTokenClaims) → current now c ≡ some claims → c ≡ claims
current-eq-some now c claims h = elim (Bool-cases (leb c.expires_at now)) [
  | inl e ↦ absurd (cc (rw e at h))
  | inr e ↦ cc (rw e at h)
]

loaded_later :
    (now later : ℕ) (loaded : Option AccessTokenClaims) (claims : AccessTokenClaims)
    → elim loaded as (λ _. Option AccessTokenClaims) [ none ↦ none | some c ↦ current now c ]
      ≡ some claims
    → elim loaded as (λ _. Option AccessTokenClaims) [ none ↦ none | some c ↦ current later c ]
      ≡ current later claims
loaded_later now later none claims h = cc
loaded_later now later (some c) claims h = ap (current later) (current-eq-some now c claims h)

claims_of_later :
    (json : ClaimsJson) (now later : ℕ) (payload : Option Bytes) (claims : AccessTokenClaims)
    → claims_of json now payload ≡ some claims
    → claims_of json later payload ≡ current later claims
claims_of_later json now later none claims h = cc
claims_of_later json now later (some payload) claims h =
    loaded_later now later (json.loads payload) claims h

module _ (signer : TokenSigner) (json : ClaimsJson) (now later : ℕ)
    (claims : AccessTokenClaims) where
  checked_later :
      (input payload_b64 : Text) (signature : Option Bytes)
      → checked signer json now input payload_b64 signature ≡ some claims
      → checked signer json later input payload_b64 signature ≡ current later claims
  checked_later input payload_b64 none h = cc
  checked_later input payload_b64 (some sig) h = elim (Bool-cases (signer.verify input sig)) [
    | inl e ↦ rw e (claims_of_later json now later (b64url_decode payload_b64) claims (rw e at h))
    | inr e ↦ absurd (cc (rw e at h))
  ]

  -- A token that was good once is good until it expires.
  pub decode_later :
      (token : Text)
      → decode signer json now token ≡ ok (some claims)
      → decode signer json later token ≡ ok (current later claims)
  unfolding decode
  decode_later token h = elim (Option-cases (three_parts (split b'.' token))) [
    | inl e ↦ absurd (cc (rw (e, decode) at h))
    | inr ((a, b, c), e) ↦
        let r : (if exists (λ d. leb 128 d) (signing_input a b)
              then err value_error
              else ok (checked signer json now (signing_input a b) b (b64url_decode c)))
            ≡ ok (some claims) =
          rw (e, decode) at h in
        rw (e, decode)
          (elim (Bool-cases (exists (λ d. leb 128 d) (signing_input a b))) [
            | inl x ↦ absurd (cc (rw x at r))
            | inr x ↦
                rw x
                  (ap ok (checked_later (signing_input a b) b (b64url_decode c) (cc (rw x at r))))
          ])
  ]

-- The guard refuses a token whose session is not live.
refused :
    (signer : TokenSigner) (json : ClaimsJson) (strip : Text → Text) (later : ℕ)
    (header : Option Text) (db : Db) (token : Text) (claims : AccessTokenClaims)
    → bearer_token strip header ≡ some token
    → decode signer json later token ≡ ok (current later claims)
    → live later (first_where (is_session claims.session_id) db.sessions) ≡ none
    → get_current_session signer json strip later header db ≡ (err (auth unauthenticated), db)
unfolding get_current_session Sessions.get_by_id
refused signer json strip later header db token claims presented valid dead =
    elim (Bool-cases (leb claims.expires_at later)) [ inl e ↦ ground arith | inr e ↦ ground arith ]

revoked_dead :
    (now later i : ℕ) (s : Session) (sessions : List Session)
    → first_where (is_session i) sessions ≡ some s
    → live later
        (first_where (is_session i) (update_where (is_session s.id) (set_revoked now) sessions))
      ≡ none
unfolding session_is_active
revoked_dead now later i s sessions e =
    rw
      (
        first_where-update_where (is_session i) (is_session s.id) (set_revoked now) sessions
            (λ x. refl),
        e,
        ==_refl s.id,
      )
      refl

module _ (signer : TokenSigner) (json : ClaimsJson) (strip : Text → Text) (now : ℕ)
    (header : Option Text) (db : Db) (ctx : AuthContext) where
  logout_lem :
      (at : ℕ)
      → is_none ctx.session.revoked_at ≡ true
      → logout at ctx db ≡ (ok signed_off, write_revoked at ctx.session.id db)
  unfolding logout Auth.logout revoke
  logout_lem at e = ground arith

  -- After a logout, which succeeds for every request that was authenticated, the same header is
  -- refused at any time, though its access token may not have expired.
  pub logout_ends :
      (at later : ℕ)
      → get_current_session signer json strip now header db ≡ (ok ctx, db)
      → (logout at ctx db ≡ (ok signed_off, write_revoked at ctx.session.id db))
        × (get_current_session signer json strip later header (write_revoked at ctx.session.id db)
            ≡ (err (auth unauthenticated), write_revoked at ctx.session.id db))
  unfolding session_is_active
  logout_ends at later h =
      let (a, _) = (get_current_session_iff signer json strip now header db ctx db).0 h in
      (
        logout_lem at (ground arith),
        refused signer json strip later header (write_revoked at ctx.session.id db) a.token a.claims
            a.presented (decode_later signer json now later a.claims a.token a.valid)
            (revoked_dead at later a.claims.session_id ctx.session db.sessions a.stored),
      )
