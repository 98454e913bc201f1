-- ===== src/Socket.antt =====
-- Websockets: backend/src/api/ws/connection_manager.py and realtime.py.
pub mod Manager
pub mod Tracking
pub mod Delivery
pub mod Refinement
pub mod Realtime
pub mod Connection
