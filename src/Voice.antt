-- ===== src/Voice.antt =====
-- main/voice: the main process' half of the voice path.
pub mod Messages
pub mod State
pub mod Renewal
pub mod Updates
pub mod Session
mod Tests
