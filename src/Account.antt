-- ===== src/Account.antt =====
-- internal/domain/client, internal/domain/user and their commands: who may see what.
pub mod Types
pub mod Client
pub mod User
pub mod Ports
pub mod Members
pub mod Users
pub mod Access
mod Tests
