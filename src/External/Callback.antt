-- ===== src/External/Callback.antt =====
-- When the browser comes back from an identity provider signed in.
use pqc_grade_a.Base.{
  ℕ, ◌≡◌, ◌↔◌, refl, sym, ap, ◌∙◌, Bool, true, false, not, Option, some, List, [], ◌∷◌, Text,
  first_where, codes, arith, inl, inr, Bool-cases, if◌then◌else◌,
}
use pqc_grade_a.Errors.{Error, AuthError, auth, oauth_provider_not_supported, oauth_exchange_failed}
use pqc_grade_a.Db.{Db, Session, oidc}
use pqc_grade_a.Exec.{Action, Result, ok, err, pure, ◌>>=◌, or_raise}
use pqc_grade_a.Exec.Keeps.{>>=-eq-ok, or_raise-eq-ok}
use pqc_grade_a.Account.Platform.{Platform}
use pqc_grade_a.Account.Sessions.{has_refresh_hash}
use pqc_grade_a.External.Linker.{find_or_create_user}
use pqc_grade_a.External.Service.{
  OidcClient, TokenResponse, client_of, get_client, device_of, sign_in, handle_callback,
}
use pqc_grade_a.External.Routes.{
  RedirectResponse, app, delete_cookie, set_cookie, refresh_token, oauth_state, to_login, caught,
  or_redirect, oidc_errors, or_blank, incomplete, compare_digest, signed_in_response, oidc_callback,
}
use pqc_grade_a.External.CallbackSteps.{
  SignsIn, callback_done, create_session_stored, sign_in-eq-ok,
}

-- A redirect to the app is no caught error.
not_caught :
    (handled : AuthError → Bool) (c : Text) (x : Error) (resp : RedirectResponse)
    → caught handled (to_login oauth_state c) x ≡ ok resp
    → resp.target ≡ app
    → ⊥
not_caught handled c (auth x) resp h e = ground arith
not_caught handled c x resp h e = cc

redirect_to_app :
    (handled : AuthError → Bool) (c : Text) (r : Result RedirectResponse × Db)
    (resp : RedirectResponse) (db' : Db)
    → resp.target ≡ app
    → elim r.0 as (λ _. Result RedirectResponse × Db) [
      | ok a ↦ (ok a, r.1)
      | err e ↦ (caught handled (to_login oauth_state c) e, r.1)
    ]
      ≡ (ok resp, db')
    → r ≡ (ok resp, db')
redirect_to_app handled c (ok a, db) resp db' e h = h
redirect_to_app handled c (err x, db) resp db' e h =
    absurd (not_caught handled c x resp (ap (λ r. r.0) h) e)

compare_digest_keeps :
    (s t : Text) (same : Bool) (db db1 : Db)
    → compare_digest s t db ≡ (ok same, db1)
    → compare_digest s t db ≡ (ok same, db)
unfolding compare_digest
compare_digest_keeps s t same db db1 h = ground arith

module _ (k : Platform) (now : ℕ) (secret raw : Text) (clients : List (Text × OidcClient))
    (name : Text) (error code state cookie_state : Option Text) (db db' : Db) where
  abbrev exchange : Action RedirectResponse
  exchange = handle_callback k now secret raw clients name (or_blank code) >>= λ r.
      pure (signed_in_response oauth_state r.1)

  abbrev after_compare : Bool → Action RedirectResponse
  after_compare same =
      if not same
      then pure (to_login oauth_state (codes "oauth_failed"))
      else or_redirect oidc_errors (to_login oauth_state (codes "oauth_failed")) exchange

  past_compare :
      (same : Bool) (resp : RedirectResponse)
      → resp.target ≡ app
      → after_compare same db ≡ (ok resp, db')
      → (same ≡ true) × (exchange db ≡ (ok resp, db'))
  unfolding or_redirect
  past_compare true resp e h =
      (refl, redirect_to_app oidc_errors (codes "oauth_failed") (exchange db) resp db' e h)
  past_compare false resp e h = absurd (ground arith)

  callback_past_checks :
      (resp : RedirectResponse)
      → resp.target ≡ app
      → oidc_callback k now secret raw clients name error code state cookie_state db
        ≡ (ok resp, db')
      → (incomplete error code state cookie_state ≡ false)
        × (compare_digest (or_blank state) (or_blank cookie_state) db ≡ (ok true, db))
        × (exchange db ≡ (ok resp, db'))
  unfolding oidc_callback
  callback_past_checks resp e h = elim (Bool-cases (incomplete error code state cookie_state)) [
    | inl early ↦ absurd (ground arith)
    | inr complete ↦
        let checked : (compare_digest (or_blank state) (or_blank cookie_state) >>= after_compare) db
            ≡ (ok resp, db') =
          rw complete at h in
        let (same, db1, hc, hr) =
          >>=-eq-ok (compare_digest (or_blank state) (or_blank cookie_state)) after_compare db
            checked in
        let keeps = compare_digest_keeps (or_blank state) (or_blank cookie_state) same db db1 hc in
        let e1 : db1 ≡ db = ap (λ r. r.1) (sym hc ∙ keeps) in
        let (is_true, ran) = past_compare same resp e (rw e1 at hr) in
        (complete, keeps ∙ rw is_true refl, ran)
  ]

  exchange_signs_in :
      (resp : RedirectResponse)
      → (incomplete error code state cookie_state ≡ false)
      → (compare_digest (or_blank state) (or_blank cookie_state) db ≡ (ok true, db))
      → exchange db ≡ (ok resp, db')
      → SignsIn k now secret raw clients name error code state cookie_state db db'
        × (resp ≡ signed_in_response oauth_state raw)
  unfolding handle_callback get_client
  exchange_signs_in resp complete bound ran =
      let answer : OidcClient → Action (TokenResponse × Text) = λ client.
        or_raise (client.exchange_code (or_blank code)) (auth oauth_exchange_failed)
        >>= sign_in k now secret raw oidc (device_of (codes "OAuth") name) in
      let (tokens, db1, run, last) =
        >>=-eq-ok (handle_callback k now secret raw clients name (or_blank code))
          (λ r. pure (signed_in_response oauth_state r.1)) db ran in
      let (client, db2, got, rest) =
        >>=-eq-ok (get_client oauth_provider_not_supported clients name) answer db run in
      let (configured, e2) =
        or_raise-eq-ok (client_of clients name) (auth oauth_provider_not_supported) db got in
      let (profile, db3, told, signing) =
        >>=-eq-ok (or_raise (client.exchange_code (or_blank code)) (auth oauth_exchange_failed))
          (sign_in k now secret raw oidc (device_of (codes "OAuth") name)) db2 rest in
      let (answered, e3) =
        or_raise-eq-ok (client.exchange_code (or_blank code)) (auth oauth_exchange_failed) db2
          told in
      let (u, linked_db, session, account, enabled, opened, same_raw) =
        sign_in-eq-ok k now secret raw (device_of (codes "OAuth") name) profile tokens db3 db1
          signing in
      let e1 : db1 ≡ db' = ap (λ x. x.1) last in
      let answer_of : signed_in_response oauth_state tokens.1 ≡ resp = cc last in
      (
        record {
          complete = complete;
          bound = bound;
          client = client;
          configured = configured;
          profile = profile;
          answered = answered;
          user = u;
          linked_db = linked_db;
          account = ap (find_or_create_user k now secret oidc profile) (e2 ∙ e3) ∙ account;
          enabled = enabled;
          session = session;
          opened =
              opened
              ∙ ap {B = Result (Session × Text) × Db} (λ (d : Db). (ok (session, raw), d)) e1;
        },
        sym answer_of ∙ ap (signed_in_response oauth_state) same_raw,
      )

  stored :
      (s : SignsIn k now secret raw clients name error code state cookie_state db db')
      → (first_where (has_refresh_hash (k.digest raw)) db'.sessions ≡ some s.session)
        × (s.session.user_id ≡ s.user.id)
  stored s =
      create_session_stored k now s.user.id (some (device_of (codes "OAuth") name)) raw s.linked_db
        s.session db' s.opened

  -- The callback of the OIDC flow sends the browser to the app exactly if the provider reported no
  -- error, a code and a state came, the state is that of the browser's cookie, the provider is
  -- configured and answers for the code, the account that is found or made is enabled, and its
  -- session is opened; and then the response sets the cookie of the refresh token and deletes that
  -- of the flow, and the token finds the session, which is of that account.
  pub oidc_callback_iff :
      (resp : RedirectResponse)
      → ((resp.target ≡ app)
          × (oidc_callback k now secret raw clients name error code state cookie_state db
              ≡ (ok resp, db')))
        ↔ ((s : SignsIn k now secret raw clients name error code state cookie_state db db') × (resp
              ≡ record {
                target = app;
                cookies = delete_cookie oauth_state ∷ set_cookie refresh_token raw ∷ [];
              })
            × (first_where (has_refresh_hash (k.digest raw)) db'.sessions ≡ some s.session)
            × (s.session.user_id ≡ s.user.id))
  oidc_callback_iff resp = (
    (λ (e, h).
        let (complete, bound, ran) = callback_past_checks resp e h in
        let (s, same) = exchange_signs_in resp complete bound ran in
        let (found, own) = stored s in (s, same, found, own)),
    (λ (s, same, _, _). (
      ap (λ r. r.target) same,
      callback_done k now secret raw clients name error code state cookie_state db db' s
          ∙ ap {B = Result RedirectResponse × Db} (λ (r : RedirectResponse). (ok r, db'))
              (sym same),
    )),
  )
