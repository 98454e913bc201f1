-- ===== src/Tests/Tokens.antt =====
-- Tests of access tokens: a login, a request with its token, and a logout.
use Prim.Native.Nat.{zero, suc}
use pqc_grade_a.Base.{
  ℕ, ◌≤◌, ◌≡◌, refl, ap, true, none, some, [], ◌∷◌, ◌++◌, Bytes, All, codes, arith, ◌==◌,
  if◌then◌else◌, count, first_where, select, exists,
}
use pqc_grade_a.Base.Tests.{text_eq}
use pqc_grade_a.Exec.{ok, fresh_id, scalar_one_or_none}
use pqc_grade_a.Conversation.Repository.{is_user}
use pqc_grade_a.Base64.RoundTrip.{IsByte}
use pqc_grade_a.Account.Platform.{Platform}
use pqc_grade_a.Account.Users as Users
use pqc_grade_a.Account.Sessions as Sessions
use pqc_grade_a.Account.Mfa.{verify_login_code, get_active_for_user}
use pqc_grade_a.Account.Auth.{login}
use pqc_grade_a.Account.LoginLaws.{account, signed_in}
use pqc_grade_a.Account.AccessTokens.{AccessTokenClaims, TokenSigner, ClaimsJson, mint}
use pqc_grade_a.Account.TokenRoundTrip.{TokenLaws}
use pqc_grade_a.Account.LoginToken.{bearer, login_authenticates}
use pqc_grade_a.Account.Guard.{AuthContext, get_current_session}
use pqc_grade_a.Tests.World.{user, unary}
use pqc_grade_a.Tests.Accounts.{platform, bank, bank-OneFactor, one_email}

-- Claims as three numbers in unary.
abbrev pub field : ℕ → Bytes → Bytes
field n rest = unary n ++ b'b' ∷ rest

abbrev pub read_number : Bytes → ℕ × Bytes
read_number [] = (0, [])
read_number (c ∷ s) = let (n, rest) = read_number s in if c == b'a' then (suc n, rest) else (0, s)

read_number-unary : (n : ℕ) (s : Bytes) → read_number (unary n ++ b'b' ∷ s) ≡ (n, s)
read_number-unary zero s = refl
read_number-unary (suc n) s = ap (λ r. (suc r.0, r.1)) (read_number-unary n s)

abbrev pub claims_of : ℕ × Bytes → ℕ × Bytes → AccessTokenClaims
claims_of u s = record { user_id = u.0; session_id = s.0; expires_at = (read_number s.1).0 }

abbrev pub json : ClaimsJson
json = record {
  header = codes "h";
  dumps = λ u s issued expires. field u (field s (field expires []));
  loads = λ payload. some (claims_of (read_number payload) (read_number (read_number payload).1));
}

abbrev pub signer : TokenSigner
signer = record { sign = λ m. codes "s"; verify = λ m s. true }

unary-All : (n : ℕ) (s : Bytes) → All IsByte s → All IsByte (unary n ++ b'b' ∷ s)
unary-All zero s h = (omega arith, h)
unary-All (suc n) s h = (omega arith, unary-All n s h)

signer-TokenLaws : TokenLaws signer json
signer-TokenLaws = record {
  verifies = λ m. refl;
  signature_bytes = λ m. (omega arith, tt);
  header_bytes = (omega arith, tt);
  payload_bytes =
      λ u s i e. unary-All u (field s (field e [])) (unary-All s (field e []) (unary-All e [] tt));
  loads_back = λ u s i e.
      rw
        (
          read_number-unary u (field s (field e [])),
          read_number-unary s (field e []),
          read_number-unary e [],
        )
        refl;
}

abbrev issuing : Platform
issuing = record platform { mint = λ u s at. mint signer json at u s 10 }

one_user : (i : ℕ) → count (is_user i) bank.users ≤ 1
unfolding count
one_user i = ground arith

no_session : first_where (Sessions.is_session 50) bank.sessions ≡ none
unfolding first_where
no_session = refl

logs_in : login issuing 5 (2 ∷ []) [] none none (codes "N") bank ≡ (
  ok (mint signer json 5 2 50 10, codes "N"),
  signed_in issuing 5 (user 2) none (codes "N") bank,
)
unfolding login Users.get_by_email scalar_one_or_none select text_eq verify_login_code
    get_active_for_user Sessions.create_session Sessions.add exists fresh_id
logs_in = refl

login_authenticates_example :
    (ctx : AuthContext) × (get_current_session signer json
        (λ s. s)
        7
        (bearer (mint signer json 5 2 50 10))
        (signed_in issuing 5 (user 2) none (codes "N") bank)
      ≡ (ok ctx, signed_in issuing 5 (user 2) none (codes "N") bank))
    × (account issuing (2 ∷ []) bank ≡ some ctx.user)
    × (ctx.session.user_id ≡ ctx.user.id)
login_authenticates_example =
    login_authenticates signer json signer-TokenLaws (λ s. s) (λ s h. refl) issuing (λ u s at. refl)
      5 7 (2 ∷ []) [] none none (codes "N") bank one_email bank-OneFactor one_user no_session
      (omega arith) (omega arith) (mint signer json 5 2 50 10, codes "N")
      (signed_in issuing 5 (user 2) none (codes "N") bank) logs_in
