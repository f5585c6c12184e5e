-- ===== src/Filters.antt =====
-- mitra_models/src/filter_rules and mitra_activitypub/src/filter.rs: rules on remote hosts, and the
-- filter that is made of them.
pub mod Types
pub mod Queries
pub mod Federation
pub mod Order
pub mod Decision
pub mod Exact
mod Tests
