-- ===== src/Subscriptions.antt =====
-- mitra_models/src/subscriptions and mitra_adapters/src/payments/subscriptions.rs: paid subscriptions.
pub mod Types
pub mod Queries
pub mod Payments
pub mod Accuracy
pub mod Effect
pub mod Paid
pub mod Price
mod Tests
