-- ===== src/Polls.antt =====
-- mitra_models/src/polls and mitra_validators/src/polls.rs: polls and votes.
pub mod Types
pub mod Votes
pub mod Queries
pub mod Counting
pub mod Ballots
pub mod Invariant
pub mod Local
pub mod Remote
pub mod Voting
pub mod Validation
pub mod Valid
pub mod Created
pub mod Updates
mod Tests
