-- ===== src/Vision.antt =====
-- The vision side of the host: detections, target selection and tracking (host/vision).
pub mod Detection
pub mod Detector
pub mod Selector
pub mod Tracking
pub mod Service
