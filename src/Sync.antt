-- ===== src/Sync.antt =====
-- app/sync: the progress of a sync that the overlay shows, and the scans for duplicates.
pub mod Progress
pub mod Writer
pub mod Scans
mod Tests
