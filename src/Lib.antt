-- ===== src/Lib.antt =====
-- AdPulse: collecting advertising events, archiving them, attributing conversions to clicks,
-- publishing the results as releases, serving and inspecting them.
--
-- The program. The collector (adpulse/collector.py) accepts batches of events over HTTP and
-- commits them to Kafka with a receipt manifest. A worker archives the topics
-- (adpulse/archive.py) and another one writes results to ClickHouse (adpulse/storage.py). The
-- batch oracle (adpulse/oracle.py) computes from the archived packets the clean events, the
-- association of each conversion and the metric rows of each window. A release
-- (adpulse/releases.py) is the result of one run: it is registered, published, compared with
-- what the sink shows, validated and activated, and an activation can be rolled back. The
-- archive index (adpulse/archive_index.py) holds what the archive's manifests commit; the
-- reconciliation (adpulse/reconciliation.py) runs the oracle on it, with containers on disk
-- (adpulse/disk.py), and compares the results with ClickHouse. The inspections
-- (adpulse/inspection.py) publish snapshots of the coverage and the metrics, which the API
-- (adpulse/api.py) reads.
--
-- The files. Prelude and its children have the shared names: Dict is Python's dict with the
-- order of its entries, Errors has exceptions as values, Sort is `sorted`. Json has the values,
-- `canonical` and `digest` of adpulse/common.py; Names has the tests on identifiers.
-- Oracle/Event and Oracle/Normalize are `normalize` of adpulse/oracle.py (`normalize_step` is
-- the body of its loop, `judge` and `admit` the branches of that); Oracle/Metrics is
-- `dimension_at`, `key_for` and the closure `add`; Oracle/Calculate is `calculate` (`click_step`
-- and `conversion_step` are the bodies of its loops, `link_reason` and `match_reason` their `if`
-- chains); Oracle/Compare is `compare`. Releases is adpulse/releases.py over its tables,
-- Releases/Publish has `publish_snapshot` and `wait_for_snapshot`, and Releases/Reach the
-- histories of the tables. Storage/Local is `LocalSnapshotStore`, Storage/Lookup is
-- `lookup_parameters` and Storage/Sink is `ClickHouse.write_batch` of adpulse/storage.py,
-- Storage/Page the rows that its `page` selects, and Storage/Answers the transport of `page` and
-- of the other queries. Archive/Objects is `LocalObjects` and `archive_batch`, Archive/S3 is
-- `S3Objects.put`, Archive/Verified is `verified_records` and Archive/Reconcile is `reconcile`
-- of adpulse/archive.py, and Archive/Chunks and Archive/Index are `chunks`, `_acknowledgements`
-- and `coverage` of adpulse/archive_index.py, Archive/Refresh is its `refresh` and
-- Archive/Readers what is read of the index. Disk is adpulse/disk.py. Reconciliation is
-- `compare_streams` of adpulse/reconciliation.py and Reconciliation/Run its `run`. Inspection is
-- the snapshots and their runs of adpulse/inspection.py, and Inspection/Metrics is
-- `operational_metrics` and `inspect_archive`. Generator is adpulse/generator.py, of which
-- Generator/Send is `send`. Collector/Writer is `KafkaReceiptWriter.accept` and
-- Collector/Handler the handler of `POST /v1/events` of adpulse/collector.py. Worker is the
-- loops of adpulse/worker.py over an interface, which Worker/Archiver fills with `archive_batch`
-- and Worker/Sink with `write_batch`. Dimensions is `archived_dimensions` of adpulse/cli.py,
-- whose rows `dimension_at` reads, and Cli its command `replay`, which composes the archive, the
-- oracle and the releases. Pagination is `CursorCodec` of adpulse/pagination.py, and Api is
-- `result_page` of adpulse/api.py, over the tables of Releases and the rows of Storage/Page;
-- Api/Inspected has the endpoints that answer from a snapshot and Api/Rows the ratios of a row.
-- Tests runs the definitions at concrete inputs.
--
-- Bounds and fuel. Numbers are naturals, as the counts, offsets and epoch milliseconds of the
-- program are. Three loops run on fuel: the decimal digits of a number, with more fuel than the
-- number, which each round divides by ten; the inner loop of `chunks`, with as much fuel as the
-- buffer has bytes, of which each round takes at least one; and the loop of `send`, with as much
-- as there are events, of which each request takes at least one. A client of the pages (`walk`)
-- has one round more than there are rows to list. All other loops are on a list.
--
-- Not under the repository and so parameters: SHA-256, the JSON Schema validator, the Kafka
-- producer with its broker, the S3 client, `json.loads` on texts and bytes, Python's `str`, the seal of a
-- cursor, the draws of the random number generator, and the answers of ClickHouse, Flink and the
-- HTTP client. A database transaction is a function from the tables to a result with the new
-- tables, and a file system a dictionary of texts.
--
-- Not modelled: the Flink job (Java), the metrics of the worker and of the API, the text of the
-- Prometheus metrics, the files and the output of the command line and its demonstration run,
-- and the operational scripts; the clients of S3, ClickHouse and PostgreSQL are services.
-- A publication is one step, so that nothing stands between its transactions, and neither is an
-- abort that raises; `put` of an archived object writes its file whole or not at all; and `ordered`
-- of the disk containers compares its keys as texts, as the code uses it.
pub mod Prelude
pub mod Json
pub mod Oracle
pub mod Names
pub mod Disk
pub mod Inspection
pub mod Cli
pub mod Generator
pub mod Reconciliation
pub mod Releases
pub mod Storage
pub mod Archive
pub mod Collector
pub mod Worker
pub mod Dimensions
pub mod Pagination
pub mod Api
pub mod Tests
