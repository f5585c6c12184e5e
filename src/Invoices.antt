-- ===== src/Invoices.antt =====
-- mitra_models/src/invoices: invoices for subscription payments.
pub mod Types
pub mod Queries
pub mod Helpers
pub mod Spec
pub mod Refinement
pub mod Soundness
pub mod Invariant
pub mod Reachable
pub mod Transitions
pub mod Payments
pub mod Summary
pub mod Expiry
pub mod Hits
pub mod Overdue
mod Tests
