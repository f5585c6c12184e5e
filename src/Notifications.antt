-- ===== src/Notifications.antt =====
-- mitra_models/src/notifications: the rows that tell a user of an event.
pub mod Types
pub mod Queries
