-- ===== src/Account.antt =====
-- Accounts: backend/src/services/auth_service.py, session_service.py, mfa_service.py and
-- password_policy.py with their repositories, and access_tokens.py with the guard of requests in
-- backend/src/core/dependencies.py.
pub mod Platform
pub mod PasswordPolicy
pub mod Users
pub mod Sessions
pub mod Mfa
pub mod Auth
pub mod MfaLaws
pub mod MfaRuns
pub mod SessionLaws
pub mod Revocation
pub mod LoginLaws
pub mod Login
pub mod TokenLaws
pub mod AccessTokens
pub mod Guard
pub mod GuardLaws
pub mod TokenRoundTrip
pub mod LoginToken
pub mod RefreshOutcome
