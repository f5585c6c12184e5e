-- ===== src/Posts.antt =====
-- mitra_models/src/posts and mitra_models/src/conversations.
pub mod Types
pub mod Detailed
pub mod Related
pub mod Queries
pub mod Create
pub mod Visibility
pub mod Mentions
pub mod Allowed
pub mod Loaded
pub mod Views
pub mod Delete
pub mod Frame
pub mod Counts
pub mod Inserted
pub mod Raised
pub mod Tallied
pub mod Removed
pub mod Told
pub mod Notified
pub mod Reached
pub mod Descent
pub mod Erased
pub mod Deleted
pub mod Authored
mod Tests
