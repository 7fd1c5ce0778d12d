-- ===== src/Processing.antt =====
-- internal/application/command/media: the commands that move an upload through its processing.
pub mod Ports
pub mod Receive
pub mod Recover
pub mod Upload
pub mod Extract
pub mod Presign
mod Tests
