-- ===== src/Profiles.antt =====
-- mitra_models/src/profiles: the counters of a profile.
pub mod Types
pub mod Queries
