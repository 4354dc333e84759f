-- ===== src/Session.antt =====
-- The interaction machine of the overlay (apps/desktop/src/main/session).
pub mod Types
pub mod Draft
pub mod Machine
pub mod Projection
pub mod Runtime
pub mod Surface
pub mod Invariant
pub mod Behaviour
mod Tests
