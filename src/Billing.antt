-- ===== src/Billing.antt =====
-- Subscriptions and invoices: internal/domain/subscription, internal/domain/invoice,
-- internal/domain/workspace and internal/application/command/subscription.
pub mod Types
pub mod Subscription
pub mod Invoice
pub mod Workspace
pub mod Ledger
pub mod Webhooks
pub mod Upsert
pub mod Checkout
mod Tests
