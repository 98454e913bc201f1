-- ===== src/Directory.antt =====
-- The user directory: backend/src/services/user_service.py, the search of
-- backend/src/repositories/user_repository.py and the routes of backend/src/api/v1/users.py for it.
pub mod Like
pub mod Service
pub mod Search
