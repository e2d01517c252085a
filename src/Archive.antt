-- ===== src/Archive.antt =====
-- adpulse/archive.py and the line reader of adpulse/archive_index.py, in a module for each part.
pub mod Objects
pub mod S3
pub mod Reconcile
pub mod Chunks
pub mod Index
pub mod Refresh
pub mod Readers
pub mod Verified
