-- ===== src/File.antt =====
-- Encrypted files: backend/src/services/file_service.py with its repository and object store.
pub mod Service
pub mod Access
pub mod Upload
pub mod Uploading
pub mod UploadEnds
pub mod UploadRights
pub mod Sharing
