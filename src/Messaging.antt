-- ===== src/Messaging.antt =====
-- The path of a domain event from the outbox table to its handlers: relay, broker consumer, handler
-- registry and the deduplication of handlers.
pub mod Failure
pub mod Realtime
pub mod Registry
pub mod Dedup
pub mod Consumer
pub mod Relay
mod Tests
