-- ===== src/World.antt =====
-- The world model (packages/world-model/src).
pub mod History
pub mod Fact
pub mod Path
pub mod Precedence
pub mod State
pub mod Fusion
pub mod Staleness
pub mod Record
pub mod Store
pub mod Timeline
pub mod Recorder
