-- ===== src/Camera.antt =====
-- The camera of host/camera: where its media are kept, the service that owns it, and its stream.
pub mod Storage
pub mod Service
pub mod Buffer
pub mod Backend
pub mod Stored
