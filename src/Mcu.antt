-- ===== src/Mcu.antt =====
-- The motor controller's client (host/sentry_mcu.py).
pub mod Pattern
pub mod Messages
pub mod Readings
pub mod Client
pub mod Motor
pub mod Runs
pub mod Cli
pub mod StateLine
pub mod Calm
pub mod Waiting
pub mod Sending
pub mod Disabling
