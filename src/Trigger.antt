-- ===== src/Trigger.antt =====
-- The push-to-talk key (apps/desktop/src/main/trigger).
pub mod Recognizer
pub mod Gestures
mod Tests
