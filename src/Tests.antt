-- ===== src/Tests.antt =====
-- Concrete states and requests on which the theorems are applied.
pub mod World
pub mod Chat
pub mod Accounts
pub mod Keys
pub mod Storage
pub mod Files
pub mod Tokens
pub mod Sockets
pub mod External
pub mod Directory
