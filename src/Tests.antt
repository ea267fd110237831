-- ===== src/Tests.antt =====
-- Tests of the models and the theorems at concrete inputs.
pub mod Fixed
pub mod Vision
pub mod Mcu
pub mod Camera
pub mod Tools
pub mod Labels
pub mod CleanUp
pub mod Backend
pub mod AutoLabel
pub mod Split
pub mod Review
pub mod Server
