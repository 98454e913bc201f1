-- ===== src/Backup.antt =====
-- Key backups of conversations: backend/src/repositories/conversation_key_backup_repository.py and
-- backend/src/services/conversation_key_backup_service.py.
pub mod Service
pub mod Laws
pub mod RoundTrip
