-- ===== src/Reconciliation/Run.antt =====
-- adpulse/reconciliation.py, `coverage`, `actual_results` and `run`. The database is what its
-- queries answer; a generator's rows are read before the code that uses them. `loads` is
-- `json.loads` on a text, `loads_bytes` on bytes. Times and fixed texts of the report are left out.
pub mod Passed
use ad_pulse.Prelude.{
  ℕ, String, Bool, true, false, ◌&&◌, ◌||◌, not, List, [], ◌∷◌, map, Option, none, some,
  if◌then◌else◌, ◌==◌, string_eq, Result, ok, raise, ◌>>=◌, or_raise, key_error, value_error,
  type_error,
}
use ad_pulse.Prelude.Dict.{Dict, lookup, values, keys}
use ad_pulse.Json.{Value, null, num, str, arr, array, obj, Fields, get_field, value_eq}
use ad_pulse.Storage.Payload.{text_at, number_at, value_at}
use ad_pulse.Archive.Chunks.{Bytes}
use ad_pulse.Archive.Reconcile.{object, objects, add_all}
use ad_pulse.Archive.Index.{IndexRow, index_coverage}
use ad_pulse.Archive.Index as Coverage
use ad_pulse.Archive.Refresh.{Index, Entry, refresh}
use ad_pulse.Archive.Readers.{packets, dimensions}
use ad_pulse.Dimensions.{truthy}
use ad_pulse.Oracle.Event.{Rules}
use ad_pulse.Oracle.Metrics.{Dimension}
use ad_pulse.Oracle.Calculate.{Output, calculate}
use ad_pulse.Oracle.Compare.{Snapshot}
use ad_pulse.Reconciliation.{Rows, rows_of, Report, compare_streams}

-- What ClickHouse answers: the receipt ids, the quality rows, and the latest fields of each key of
-- a release and a kind, as texts.
pub record Database : Type 0 where
  pub receipt_rows : List Fields
  pub quality_rows : List Fields
  pub latest : String → String → List (List String)

-- `row["receipt_id"]` of each row
unfoldable pub receipt_ids : List Fields → Result (List String)
unfolding text_at
receipt_ids [] = ok []
receipt_ids (row ∷ l) = do id ← text_at "receipt_id" row; rest ← receipt_ids l; ok (id ∷ rest)

-- An entry of a dimension's history as the oracle reads it.
unfoldable pub channel_in : Option Value → Result (Option String)
unfolding object get_field
channel_in none = ok none
channel_in (some v) = do
  fs ← object v
  ok (elim (get_field "channel" fs) [ some (str s) ↦ some s | _ ↦ none ])

unfoldable pub until : Option Value → Result (Option ℕ)
until none = ok none
until (some null) = ok none
until (some (num n)) = ok (some n)
until (some v) = raise (type_error "effective_to")

abbrev pub is_set : Option Value → Bool
is_set none = false
is_set (some v) = truthy v

unfoldable pub dimension_of : Fields → Result Dimension
unfolding text_at number_at get_field until channel_in truthy
dimension_of row = do
  campaign_id ← text_at "campaign_id" row
  effective_from ← number_at "effective_from" row
  effective_to ← until (get_field "effective_to" row)
  source_version ← number_at "source_version" row
  channel ← channel_in (get_field "attributes" row)
  ok (record {
    campaign_id = campaign_id;
    effective_from = effective_from;
    effective_to = effective_to;
    source_version = source_version;
    deleted = is_set (get_field "deleted" row);
    channel = channel;
  })

unfoldable pub dimensions_of : List Fields → Result (List Dimension)
unfolding dimension_of
dimensions_of [] = ok []
dimensions_of (row ∷ l) = do d ← dimension_of row; rest ← dimensions_of l; ok (d ∷ rest)

unfoldable pub packet_fields : List Value → Result (List Fields)
unfolding object
packet_fields [] = ok []
packet_fields (v ∷ l) = do fs ← object v; rest ← packet_fields l; ok (fs ∷ rest)

unfoldable pub text_of : Value → Result String
text_of (str s) = ok s
text_of v = raise (type_error "text")

-- The table `expected` as `coverage` leaves it.
unfoldable pub expected_table : Index → Database → List String → Result (List String)
unfolding receipt_ids add_all
expected_table index db expected_receipts = do
  ids ← receipt_ids db.receipt_rows
  ok (add_all (keys index.ack_refs) (add_all ids (add_all expected_receipts [])))

module _ (loads : String → Result Value) where
  -- `dict(zip(fields, ...))`: a text that is missing is a key that is.
  unfoldable pub metric_of : List String → Result (String × Fields)
  unfolding text_of object
  metric_of (key_text ∷ values_text ∷ _) = do
    key_value ← loads key_text
    key ← text_of key_value
    parsed ← loads values_text
    fs ← object parsed
    ok (key, fs)
  metric_of texts = raise (key_error "values")

  -- The four values are compared as they are, whatever they are.
  unfoldable pub association_of : List String → Result (String × Value)
  unfolding text_of
  association_of (key_text ∷ status_text ∷ reason_text ∷ experiment_text ∷ variant_text ∷ _) = do
    key_value ← loads key_text
    key ← text_of key_value
    status ← loads status_text
    reason ← loads reason_text
    experiment_id ← loads experiment_text
    variant ← loads variant_text
    ok (key, arr (array (status ∷ reason ∷ experiment_id ∷ variant ∷ [])))
  association_of texts = raise (key_error "variant")

  unfoldable pub actual_metrics_from : List (List String) → Result (List (String × Fields))
  unfolding metric_of
  actual_metrics_from [] = ok []
  actual_metrics_from (texts ∷ l) = do
    m ← metric_of texts
    rest ← actual_metrics_from l
    ok (m ∷ rest)

  unfoldable pub actual_associations_from : List (List String) → Result (List (String × Value))
  unfolding association_of
  actual_associations_from [] = ok []
  actual_associations_from (texts ∷ l) = do
    a ← association_of texts
    rest ← actual_associations_from l
    ok (a ∷ rest)

  -- `actual_results` for both kinds
  unfoldable pub actual_results : Database → String → Result Rows
  unfolding actual_metrics_from actual_associations_from
  actual_results db release = do
    metrics ← actual_metrics_from (db.latest release "metric")
    associations ← actual_associations_from (db.latest release "association")
    ok (record { metrics = metrics; associations = associations })

  -- `coverage`
  unfoldable pub coverage :
      (String → String) → Index → Database → List String → Result Coverage.Report
  unfolding receipt_ids index_coverage
  coverage sha256 index db expected_receipts = do
    ids ← receipt_ids db.receipt_rows
    index_coverage sha256 loads (map (λ (e : Entry). e.row) (values index.records)) index.ack_refs
        (add_all ids (add_all expected_receipts [])) db.quality_rows 100

pub record Outcome : Type 0 where
  pub passed : Bool
  pub completeness : Coverage.Report
  pub comparison : Option Report

module _ (sha256 : String → String) (sha256_bytes : Bytes → String) (loads : String → Result Value)
    (loads_bytes : Bytes → Result Value) (errors : Value → List String) (rules : Rules) where
  -- `calculate` on what the index holds.
  unfoldable pub expected_results : List String → Index → String → Result Rows
  unfolding packets packet_fields dimensions dimensions_of calculate rows_of
  expected_results expected index release = do
    history ← dimensions loads index
    entries ← dimensions_of history
    received ← packets loads expected index
    records ← packet_fields received
    output ← calculate rules release entries sha256 errors records
    ok (rows_of (record { metrics = output.metrics; associations = output.associations }))

  -- The part of `run` after the coverage.
  unfoldable pub compare_results : Index → Database → String → List String → Result Report
  unfolding expected_table expected_results actual_results compare_streams
  compare_results index db release expected_receipts = do
    expected ← expected_table index db expected_receipts
    left ← expected_results expected index release
    right ← actual_results loads db release
    compare_streams loads left right 100

  unfoldable pub check : Index → Database → String → List String → Result Outcome
  unfolding coverage compare_results
  check index db release expected_receipts =
      coverage loads sha256 index db expected_receipts >>= λ completeness.
      if not completeness.archive_complete || not completeness.lineage_complete
      then ok (record { passed = false; completeness = completeness; comparison = none })
      else (compare_results index db release expected_receipts >>= λ comparison. ok (record {
        passed = comparison.passed;
        completeness = completeness;
        comparison = some comparison;
      }))

  -- `run`: its outcome, and the index that is left.
  unfoldable pub run :
      Bool
      → Dict String (List Bytes)
      → Index
      → Database
      → String
      → List String
      → Result Outcome × Index
  unfolding refresh check
  run audit store index db release expected_receipts =
      let refreshed = refresh sha256 sha256_bytes loads_bytes audit store index in
      (refreshed.0 >>= λ _. check refreshed.1 db release expected_receipts, refreshed.1)
