-- ===== src/Campaign.antt =====
-- internal/domain/campaign: what a client uploads media for, and
-- internal/application/command/campaign.
pub mod Types
pub mod Atomicity
pub mod Background
pub mod Commands
pub mod Entity
pub mod Stream
pub mod Uploads
mod Tests
