-- ===== src/Context.antt =====
-- What a turn tells the model (packages/context/src).
pub mod Compose
pub mod Ladder
pub mod Renderer
