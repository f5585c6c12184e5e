-- ===== src/Relationships.antt =====
-- mitra_models/src/relationships: follows, follow requests, subscriptions, mutes and rejections.
pub mod Types
pub mod Table
pub mod Requests
pub mod Queries
pub mod Helpers
pub mod Counts
pub mod Effects
pub mod Tallies
pub mod Balance
pub mod Figures
pub mod Moves
pub mod Changes
pub mod Accuracy
pub mod Codes
pub mod Muting
pub mod Success
pub mod Lists
pub mod Listed
mod Tests
