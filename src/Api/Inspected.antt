-- ===== src/Api/Inspected.antt =====
-- adpulse/api.py, the endpoints that answer from the snapshots of the inspections and from the
-- archive index: `quality`, `completeness`, `trace` and `prometheus`. `opened` is the index with its
-- table of quality rows, or the error of opening it.
pub mod Fresh
use Prim.Native.String.{◌++◌ as str_append}
use ad_pulse.Prelude.{
  ℕ, String, Bool, true, false, List, [], ◌∷◌, ◌++◌, if◌then◌else◌, Result, ok, raise, ◌>>=◌, ◌>>◌,
  raise_if, Exception, value_error, key_error, type_error, os_error, database_error,
  snapshot_unavailable, http_error, ◌==◌, string_eq,
}
use ad_pulse.Prelude.Dict.{Dict}
use ad_pulse.Json.{
  Value, str, num, obj, arr, Items, nil, cons, Fields, end, field, get_field, set_field, array,
}
use ad_pulse.Storage.Payload.{value_at, value_or, text_at, number_at}
use ad_pulse.Archive.Reconcile.{object}
use ad_pulse.Archive.Refresh.{Index}
use ad_pulse.Archive.Readers
use ad_pulse.Inspection.{Files, read_snapshot}

-- `SnapshotUnavailable` becomes the status 503.
unfoldable pub or_503 : Result Fields → Result Fields
or_503 (ok snapshot) = ok snapshot
or_503 (raise (snapshot_unavailable _)) = raise (http_error 503 "INSPECTION_UNAVAILABLE")
or_503 (raise e) = raise e

-- `OSError`, `sqlite3.Error` and `ValueError` become the status 503.
unfoldable pub trace_error : {A : Type 0} → Result A → Result A
trace_error (ok a) = ok a
trace_error (raise (os_error _)) =
    raise (http_error 503 "Trace index unavailable or result exceeds budget")
trace_error (raise (database_error _)) =
    raise (http_error 503 "Trace index unavailable or result exceeds budget")
trace_error (raise (value_error _)) =
    raise (http_error 503 "Trace index unavailable or result exceeds budget")
trace_error (raise e) = raise e

abbrev pub Opened : Type 0
Opened = Index × Dict (String × String) String

-- The answer of `trace`, or the status 404.
unfoldable pub trace_answer : String → List Value → List Value → Value → Result Value
trace_answer receipt [] quality checked_at =
    raise (http_error 404 "Receipt absent from the checked archive index")
trace_answer receipt (row ∷ rows) quality checked_at = ok (
    obj (
      field "receipt_id" (str receipt) (
        field "raw" (arr (array (row ∷ rows))) (
          field "quality" (arr (array quality)) (
            field "checked_at_epoch" checked_at
              (field "consistency" (str "incremental_verified_archive_index") end))))))

-- A gauge with its label.
pub record Gauge : Type 0 where
  pub name : String
  pub kind : String
  pub value : ℕ

module _ (loads : String → Result Value) (clock : ℕ) (files : Files) where
  -- `inspection_snapshot`
  unfoldable pub inspection_snapshot : String → Result Fields
  unfolding read_snapshot or_503
  inspection_snapshot kind =
      or_503 (read_snapshot loads kind (if kind == "coverage" then 600 else 90) clock files)

  -- `quality`
  unfoldable pub quality : Result Value
  unfolding inspection_snapshot value_at value_or object
  quality = do
    snapshot ← inspection_snapshot "coverage"
    given ← value_at "payload" snapshot
    payload ← object given
    checked_at ← value_at "generated_at" snapshot
    ok (
        obj (
          field "summary" (value_or "quality_summary" (arr nil) payload) (
            field "samples" (value_or "quality_samples" (arr nil) payload) (
              field "checked_at_epoch" checked_at
                (field "consistency" (str "inspection_snapshot") end)))))

  -- `completeness`
  unfoldable pub completeness : Result Value
  unfolding inspection_snapshot value_at object set_field
  completeness = do
    snapshot ← inspection_snapshot "coverage"
    given ← value_at "payload" snapshot
    payload ← object given
    checked_at ← value_at "generated_at" snapshot
    started_at ← value_at "started_at" snapshot
    ok (
        obj (
          set_field "consistency" (str "inspection_snapshot") (
            set_field "check_started_at_epoch" started_at
              (set_field "checked_at_epoch" checked_at payload))))

  -- The reads of `trace` in the index, with the limits that are their defaults.
  unfoldable pub trace_rows : String → Result Opened → Result (List Value × List Value)
  unfolding Readers.trace Readers.quality
  trace_rows receipt opened = do
    index ← opened
    raw ← Readers.trace loads receipt 10 index.0
    quality ← Readers.quality loads receipt 100 index.1
    ok (raw, quality)

  -- `trace`
  unfoldable pub trace : String → Result Opened → Result Value
  unfolding inspection_snapshot trace_rows trace_error value_at trace_answer
  trace receipt opened = do
    snapshot ← inspection_snapshot "coverage"
    rows ← trace_error (trace_rows receipt opened)
    checked_at ← value_at "generated_at" snapshot
    trace_answer receipt rows.0 rows.1 checked_at

  -- The gauges and the text of a kind in the loop of `prometheus`.
  unfoldable pub kind_gauges : String → Result Fields → Result (List Gauge × String)
  unfolding value_at number_at text_at object
  kind_gauges kind (raise (snapshot_unavailable _)) =
      ok (record { name = "adpulse_inspection_snapshot_ready"; kind = kind; value = 0 } ∷ [], "")
  kind_gauges kind (raise e) = raise e
  kind_gauges kind (ok snapshot) = do
    generated_at ← number_at "generated_at" snapshot
    let gauges : List Gauge =
        record { name = "adpulse_inspection_snapshot_ready"; kind = kind; value = 1 }
        ∷ record {
          name = "adpulse_inspection_snapshot_timestamp_seconds";
          kind = kind;
          value = generated_at;
        }
        ∷ []
    if kind == "metrics"
        then (value_at "payload" snapshot >>= λ given.
            object given >>= λ payload. text_at "prometheus" payload >>= λ text. ok (gauges, text))
        else ok (gauges, "")

  -- `prometheus`; `generate_latest` is the argument, and `queries` is its text for the registry of
  -- the queries.
  unfoldable pub prometheus : (List Gauge → String) → String → Result String
  unfolding kind_gauges read_snapshot
  prometheus generate_latest queries = do
    metrics ← kind_gauges "metrics" (read_snapshot loads "metrics" 90 clock files)
    coverage ← kind_gauges "coverage" (read_snapshot loads "coverage" 600 clock files)
    ok (str_append metrics.1 (str_append (generate_latest (metrics.0 ++ coverage.0)) queries))
