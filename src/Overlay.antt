-- ===== src/Overlay.antt =====
-- main/overlay: the chip's window and the frames of its level bars.
pub mod Window
pub mod LevelPump
pub mod Presenter
mod Tests
