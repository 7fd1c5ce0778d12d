-- ===== src/Activity.antt =====
-- internal/domain/activity and internal/application/event/activity: the activity feed of a client.
pub mod Types
pub mod Projector
pub mod Outcomes
pub mod Arrivals
pub mod Feed
pub mod Told
pub mod Settled
mod Tests
