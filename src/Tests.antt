-- ===== src/Tests.antt =====
-- Runs of the model at concrete inputs.
mod Oracle
mod Disk
mod Inspection
mod Api
mod Reconciliation
mod Releases
mod Storage
mod Answers
mod Verified
mod Generator
mod Metrics
mod Archive
mod Refresh
mod Cli
mod S3
mod Collector
mod Pagination
mod Worker
mod Dimensions
