-- ===== src/Collector.antt =====
-- adpulse/collector.py: `KafkaReceiptWriter.accept` and the handler of `POST /v1/events`.
pub mod Writer
pub mod Handler
pub mod Commit
