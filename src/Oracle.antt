-- ===== src/Oracle.antt =====
-- adpulse/oracle.py: the batch reference calculation, in a module for each of its parts.
pub mod Event
pub mod Normalize
pub mod Metrics
pub mod Calculate
pub mod Compare
