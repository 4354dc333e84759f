-- ===== src/Realtime.antt =====
-- The voice session over the wire (packages/realtime/src).
pub mod Turn
pub mod Window
