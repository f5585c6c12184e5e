-- ===== src/Inbox.antt =====
-- mitra_activitypub/src/queues.rs: the queue of incoming activities.
pub mod Queue
pub mod Rows
pub mod Batches
pub mod Steps
pub mod Success
pub mod Termination
mod Tests
