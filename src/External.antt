-- ===== src/External.antt =====
-- Sign-in through external identity providers: backend/src/services/external_identity_linker.py,
-- oidc_client.py, saml_client.py, oidc_service.py and saml_service.py, and the routes of
-- backend/src/api/v1/oidc.py and saml.py.
pub mod Decimal
pub mod Usernames
pub mod Handles
pub mod TriedNames
pub mod FreeName
pub mod Clients
pub mod Linker
pub mod Linking
pub mod SignIn
pub mod Accounts
pub mod Service
pub mod Routes
pub mod CallbackSteps
pub mod Callback
