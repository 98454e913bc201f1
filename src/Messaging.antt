-- ===== src/Messaging.antt =====
-- backend/src/repositories/message_repository.py, backend/src/services/messaging_service.py and
-- the envelope of backend/src/schemas/messaging.py.
pub mod Envelope
pub mod Cursor
pub mod Repository
pub mod Service
pub mod CursorLaws
pub mod Older
pub mod Pagination
pub mod Outcomes
pub mod Sending
pub mod SendRights
pub mod Revival
pub mod SendEffect
