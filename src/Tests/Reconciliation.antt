-- ===== src/Tests/Reconciliation.antt =====
-- adpulse/reconciliation.py on an archive with one packet, and on results with one conversion.
use ad_pulse.Prelude.{
  String, ◌≡◌, refl, true, false, List, [], ◌∷◌, none, some, if◌then◌else◌, ◌==◌, string_eq, nat_eq,
  Result, ok, raise, value_error, String_discrete, option_dec, pair_dec, ℕ_discrete,
}
use ad_pulse.Json.{Value, str, num, arr, obj, cons, nil, Fields, end, field, canonical}
use ad_pulse.Archive.Chunks.{Bytes}
use ad_pulse.Archive.Index as Coverage
use ad_pulse.Archive.Refresh.{Index}
use ad_pulse.Oracle.Event.{Rules}
use ad_pulse.Oracle.Metrics.{Counters}
use ad_pulse.Oracle.Calculate.{click_not_found}
use ad_pulse.Oracle.Compare.{Snapshot, compare}
use ad_pulse.Reconciliation.{
  counters_fields, rows_of, counters_value, facts_value, Report, compare_streams,
}
use ad_pulse.Reconciliation.Equivalent.{compare_streams-compare}
use ad_pulse.Reconciliation.Run.{Database, Outcome, run}

abbrev rules : Rules
rules = record {
  rule_version = "rules-v1";
  policy_version = "policy-v1";
  schema_versions = 1 ∷ [];
  effective_from = 0;
  attribution_window_ms = 604800000;
  window_ms = 60000;
  field_mappings = [];
  filter_regions = [];
  document = obj end;
}

abbrev event : Value
event = obj (field "event_type" (str "conversion") (field "event_id" (str "e3") end))

abbrev packet : Fields
packet = field "receipt_id" (str "r") (field "received_at" (num 1000) (field "event" event end))

abbrev hash : String → String
hash s = "h"

abbrev bytes_hash : Bytes → String
bytes_hash b = "h"

abbrev counts : Counters
counts = record {
  impressions = 0;
  clicks = 0;
  matched_conversions = 0;
  unmatched_conversions = 1;
  converted_clicks = 0;
  value_minor = 0;
}

-- `json.loads` on a text that one of these values is written as.
abbrev decode_among : List Value → String → Result Value
decode_among [] s = raise (value_error "JSONDecodeError")
decode_among (v ∷ l) s = if canonical v == s then ok v else decode_among l s

abbrev calculated : Snapshot
calculated = record {
  metrics =
      record {
        metric_key = "m1";
        release_id = "live";
        policy_version = "policy-v1";
        rule_version = "rules-v1";
        dims = record {
          advertiser_id = "a";
          app_id = "p";
          campaign_id = "c";
          region = "unknown";
          app_version = "1.0";
          experiment_id = "unknown";
          variant = "unknown";
          currency = "ALL";
          channel = "unknown";
          window_start = 0;
          cohort_basis = "occurrence";
        };
        values = counts;
      }
      ∷ [];
  associations =
      record {
        association_key = "a1";
        conversion_id = "v1";
        click_id = "k1";
        advertiser_id = "a";
        app_id = "p";
        is_match = false;
        reason = click_not_found;
        release_id = "live";
        rule_version = "rules-v1";
        policy_version = "policy-v1";
        event_time = 300;
        receipt_id = str "r";
        experiment_id = "unknown";
        variant = "unknown";
      }
      ∷ [];
}

abbrev emptied : Snapshot
emptied = record { metrics = calculated.metrics; associations = [] }

abbrev row : Value
row = obj (field "value" (obj packet) end)

abbrev facts : Value
facts = arr (
    cons (str "unmatched")
      (cons (str "CLICK_NOT_FOUND") (cons (str "unknown") (cons (str "unknown") nil))))

abbrev loads : String → Result Value
loads = decode_among (row ∷ counters_value counts ∷ facts ∷ [])

abbrev no_loads : Bytes → Result Value
no_loads b = raise (value_error "JSONDecodeError")

-- The archive has the packet.
abbrev index : Index
index = record {
  manifests = [];
  records =
      (
        ("a.raw", (0, 9)),
        record {
          row = record {
            ref = record { topic = "a.raw"; part = 0; off = 9; hash = "h" };
            receipt = some "r";
            is_raw = true;
          };
          row_json = canonical row;
          received_at = some 1000;
          batch = "";
          batch_index = 0;
          is_receipt = false;
          manifest = "manifests/m.json";
          ordinal = 0;
        },
      )
      ∷ [];
  ack_refs = [];
}

-- The packet is classified, and there are no results.
abbrev database : Database
database = record {
  receipt_rows = field "receipt_id" (str "r") end ∷ [];
  quality_rows = field "receipt_id" (str "r") (field "disposition" (str "quarantined") end) ∷ [];
  latest = λ release kind. [];
}

-- The contract refuses the packet's event.
abbrev all_errors : Value → List String
all_errors v = "additionalProperties" ∷ []

abbrev reconciled : Database → Result Outcome × Index
reconciled db = run hash bytes_hash loads no_loads all_errors rules false [] index db "live" []

abbrev completeness : Coverage.Report
completeness = record {
  acknowledged = 1;
  archived = 1;
  classified = 1;
  archive_missing_count = 0;
  processing_pending_count = 0;
  archive_missing = [];
  processing_pending = [];
  archive_complete = true;
  lineage_complete = true;
}

abbrev agreed : Report
agreed = record {
  passed = true;
  differences = [];
  difference_count = 0;
  sample_limit = 100;
  expected_metrics = 0;
  expected_associations = 0;
  actual_metrics = 0;
  actual_associations = 0;
}

abbrev passed : Outcome
passed = record { passed = true; completeness = completeness; comparison = some agreed }

abbrev streamed : Result Report
streamed = compare_streams loads (rows_of calculated) (rows_of emptied) 100

abbrev found : Report
found = record {
  passed = false;
  differences =
      record { kind = "associations"; key = "a1"; expected_value = some facts; actual_value = none }
      ∷ [];
  difference_count = 1;
  sample_limit = 100;
  expected_metrics = 1;
  expected_associations = 1;
  actual_metrics = 1;
  actual_associations = 0;
}

streamed_run : streamed ≡ ok found
unfolding compare_streams rows_of pair_dec String_discrete option_dec canonical ℕ_discrete
streamed_run = refl

counters_read : loads (canonical (counters_value counts)) ≡ ok (counters_value counts)
unfolding counters_fields canonical String_discrete ℕ_discrete
counters_read = refl

facts_read :
    loads (canonical (facts_value (false, (click_not_found, ("unknown", "unknown")))))
    ≡ ok (facts_value (false, (click_not_found, ("unknown", "unknown"))))
unfolding facts_value counters_fields canonical String_discrete ℕ_discrete
facts_read = refl

compare_streams-compare_example : false ≡ (compare calculated emptied).passed
compare_streams-compare_example =
    compare_streams-compare loads calculated emptied 100 found
      ((counters_read, tt), (facts_read, tt)) ((counters_read, tt), tt) streamed_run
