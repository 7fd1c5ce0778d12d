-- ===== src/Content.antt =====
-- internal/domain/content: one analyzable unit, a full image or a video frame.
pub mod Types
pub mod Entity
pub mod Lifecycle
pub mod Verdicts
mod Tests
