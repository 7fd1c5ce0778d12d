-- ===== src/Quota.antt =====
-- The limits of a plan: what a workspace has used of them, and the tests before each action.
pub mod Types
pub mod Usage
pub mod Assert
pub mod Limits
mod Tests
