-- ===== src/Account/LoginToken.antt =====
-- A login, and then a request with the access token that it gave.
use pqc_grade_a.Base.{
  ℕ, ◌+◌, ◌≤◌, ◌<◌, ◌≡◌, refl, sym, ap, ◌∙◌, Option, none, some, [], ◌∷◌, ◌++◌, Text, codes, All,
  arith, inl, inr, ==_refl, first_where, count, first_where_of_key,
}
use pqc_grade_a.Base.AppendLaws.{first_where_last}
use pqc_grade_a.Db.{Db, User, Session, session_is_active}
use pqc_grade_a.Exec.{ok}
use pqc_grade_a.Exec.Keeps.{returns_once}
use pqc_grade_a.Conversation.Repository.{is_user}
use pqc_grade_a.Account.Platform.{Platform}
use pqc_grade_a.Account.Users.{has_email}
use pqc_grade_a.Account.Sessions.{is_session, new_session}
use pqc_grade_a.Account.MfaLaws.{OneFactor}
use pqc_grade_a.Account.Auth.{login}
use pqc_grade_a.Account.LoginLaws.{account, signed_in}
use pqc_grade_a.Account.Login.{login-Outcome, authenticated_found}
use pqc_grade_a.Account.AccessTokens.{TokenSigner, ClaimsJson, b64url, signing_input, mint}
use pqc_grade_a.Account.TokenRoundTrip.{TokenLaws, IsPlain, b64url-All, decode-mint}
use pqc_grade_a.Account.Guard.{or_missing, begins, bearer_token, AuthContext, get_current_session}
use pqc_grade_a.Account.GuardLaws.{guard_passes}

-- A character that is visible and ASCII.
abbrev pub IsVisible : ℕ → Type 0
IsVisible c = (32 < c) × (c < 128)

plain-IsVisible : (s : Text) → All IsPlain s → All IsVisible s
plain-IsVisible [] h = tt
plain-IsVisible (c ∷ s) h = ((h.0.visible, h.0.ascii), plain-IsVisible s h.1)

IsVisible-append : (s t : Text) → All IsVisible s → All IsVisible t → All IsVisible (s ++ b'.' ∷ t)
IsVisible-append [] t hs ht = ((omega arith, omega arith), ht)
IsVisible-append (c ∷ s) t hs ht = (hs.0, IsVisible-append s t hs.1 ht)

or_missing-append : (s t : Text) (c : ℕ) → or_missing (s ++ c ∷ t) ≡ some (s ++ c ∷ t)
or_missing-append [] t c = refl
or_missing-append (d ∷ s) t c = refl

abbrev pub bearer : Text → Option Text
bearer token = some (codes "Bearer " ++ token)

bearer_token_lem :
    (strip : Text → Text) (token : Text)
    → bearer_token strip (bearer token) ≡ or_missing (strip token)
unfolding bearer_token begins
bearer_token_lem strip token = refl

module _ (signer : TokenSigner) (json : ClaimsJson) (laws : TokenLaws signer json)
    (strip : Text → Text) (stripped : (s : Text) → All IsVisible s → strip s ≡ s) where
  minted_presented :
      (now user session ttl : ℕ)
      → bearer_token strip (bearer (mint signer json now user session ttl))
        ≡ some (mint signer json now user session ttl)
  unfolding mint
  minted_presented now user session ttl =
      let header = b64url json.header in
      let claims = json.dumps user session now (now + ttl) in
      let payload = b64url claims in
      let input = signing_input header payload in
      let signature = b64url (signer.sign input) in
      let visible : All IsVisible (input ++ b'.' ∷ signature) =
        IsVisible-append input signature
          (IsVisible-append header payload
            (plain-IsVisible header (b64url-All json.header laws.header_bytes))
            (plain-IsVisible payload
              (b64url-All claims (laws.payload_bytes user session now (now + ttl)))))
          (plain-IsVisible signature
            (b64url-All (signer.sign input) (laws.signature_bytes input))) in
      bearer_token_lem strip (input ++ b'.' ∷ signature)
      ∙ ap or_missing (stripped (input ++ b'.' ∷ signature) visible)
      ∙ or_missing-append input signature b'.'

  module _ (k : Platform)
      (mints : (user session at : ℕ)
        → k.mint user session at ≡ mint signer json at user session k.access_ttl)
      (now later : ℕ) (email password : Text) (device totp_code : Option Text) (raw : Text)
      (db : Db) (emails : (e : Text) → count (has_email e) db.users ≤ 1) (v : OneFactor db)
      (users : (i : ℕ) → count (is_user i) db.users ≤ 1)
      (fresh : first_where (is_session db.next_id) db.sessions ≡ none)
      (soon : later < now + k.access_ttl) (lasts : later < now + k.refresh_ttl) where
    abbrev opened : User → Session
    opened u = new_session k now u.id device raw db.next_id

    -- The guard on the token of the session that was opened.
    opened_authenticates :
        (u : User)
        → account k email db ≡ some u
        → get_current_session signer json strip later
            (bearer (k.mint u.id db.next_id now))
            (signed_in k now u device raw db)
          ≡ (ok (record { user = u; session = opened u }), signed_in k now u device raw db)
    unfolding session_is_active
    opened_authenticates u e =
        guard_passes signer json strip later (bearer (k.mint u.id db.next_id now))
          (signed_in k now u device raw db) (record { user = u; session = opened u })
          (record {
            token = mint signer json now u.id db.next_id k.access_ttl;
            presented =
                ap (λ t. bearer_token strip (bearer t)) (mints u.id db.next_id now)
                ∙ minted_presented now u.id db.next_id k.access_ttl;
            claims = record {
              user_id = u.id;
              session_id = db.next_id;
              expires_at = now + k.access_ttl;
            };
            valid =
                decode-mint signer json laws now later u.id db.next_id k.access_ttl ∙ ground arith;
            stored =
                first_where_last (is_session db.next_id) db.sessions (opened u) fresh
                  (==_refl db.next_id);
            active = ground arith;
            known =
                first_where_of_key (has_email (k.lower (k.lower email))) (is_user u.id) db.users u e
                  (users u.id) (==_refl u.id);
          })

    -- After a login that succeeds, the access token that it returned authenticates requests as the
    -- user with that email, in a session of that user, until the token or the session expires.
    -- Emails, user ids and open second factors are unique, the next session id is free, tokens are
    -- minted by the signer, the signer accepts its own signatures, the JSON of claims reads back,
    -- and `str.strip` keeps visible ASCII.
    pub login_authenticates :
        (t : Text × Text) (db' : Db)
        → login k now email password device totp_code raw db ≡ (ok t, db')
        → (ctx : AuthContext) × (get_current_session signer json strip later (bearer t.0) db'
            ≡ (ok ctx, db'))
          × (account k email db ≡ some ctx.user)
          × (ctx.session.user_id ≡ ctx.user.id)
    login_authenticates t db' h =
        elim (login-Outcome k now email password device totp_code raw db emails v) [
          | inl (x, e) ↦ absurd (cc (ap (λ r. r.0) (sym e ∙ h)))
          | inr (m, e) ↦
              let found = authenticated_found k password (account k email db) m.user m.knows in
              let (et, ed) =
                returns_once (login k now email password device totp_code raw db) _ t _ db' e h in
              (
                record { user = m.user; session = opened m.user },
                rw (et, ed) (opened_authenticates m.user found),
                found,
                refl,
              )
        ]
