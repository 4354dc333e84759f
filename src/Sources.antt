-- ===== src/Sources.antt =====
-- The observation sources of the desktop process (apps/desktop/src/main/state).
pub mod Supervisor
pub mod Degradation
pub mod Bus
pub mod Tailer
pub mod MatchSession
