-- ===== src/Media.antt =====
-- internal/domain/media: an uploaded image or video.
pub mod Types
pub mod Files
pub mod Entity
pub mod Transitions
pub mod Lifecycle
pub mod Outcomes
mod Tests
