-- ===== src/Storage.antt =====
-- adpulse/storage.py, in a module for each of its parts.
pub mod Payload
pub mod Answers
pub mod Local
pub mod Sink
pub mod Page
pub mod Lookup
