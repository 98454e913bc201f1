-- ===== src/Api.antt =====
-- The request handlers of backend/src/api/v1, except those of external identities, and what they
-- answer to an error.
pub mod Schema
pub mod Handlers
pub mod Accounts
pub mod Files
pub mod Keys
pub mod SignOut
pub mod Backups
pub mod Responses
pub mod Validity
