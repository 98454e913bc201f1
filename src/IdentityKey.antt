-- ===== src/IdentityKey.antt =====
-- backend/src/repositories/identity_key_repository.py and
-- backend/src/services/identity_key_service.py.
pub mod Repository
pub mod Service
pub mod Outcomes
pub mod Versions
pub mod Rotation
