-- ===== src/Cli/Release.antt =====
-- adpulse/cli.py: the report of `replay`, and with `--publish` and `--activate` the release.
use ad_pulse.Prelude.{
  String, Bool, true, false, List, [], Option, none, some, if◌then◌else◌, string_eq, nat_eq, Result,
  ok, raise,
}
use ad_pulse.Json.{bool, num, str, arr, obj, nil, array, Fields, end, field, digest}
use ad_pulse.Archive.Reconcile.{Coverage}
use ad_pulse.Oracle.Event.{Rules}
use ad_pulse.Oracle.Metrics.{Metric}
use ad_pulse.Oracle.Calculate.{Output}
use ad_pulse.Oracle.Compare.{Snapshot}
use ad_pulse.Oracle.Compare as Compare
use ad_pulse.Releases.{Db, Validation, Activation, mark_validated, activate}
use ad_pulse.Releases.Publish.{Published, publish_snapshot, wait_for_snapshot}
use ad_pulse.Cli.State.{Arguments, Services, Source}
use ad_pulse.Cli.Read.{text_values}

-- `coverage["archive_complete"]`, which is false at first
abbrev pub is_archived : Option Coverage → Bool
is_archived none = false
is_archived (some c) = c.archive_complete

abbrev pub coverage_fields : Option Coverage → Fields
coverage_fields none = field "archive_complete" (bool false) end
coverage_fields (some c) = field "acknowledged" (num c.acknowledged) (
    field "archived" (num c.archived) (
      field "archive_missing" (arr (array (text_values c.archive_missing))) (
        field "classified" (num c.classified) (
          field "processing_pending" (arr (array (text_values c.processing_pending))) (
            field "archive_complete" (bool c.archive_complete)
              (field "lineage_complete" (bool c.lineage_complete) end))))))

-- `report`, and `report["activation"]`
pub record Report : Type 0 where
  pub release_id : String
  pub input_manifest_sha256 : String
  pub rules_sha256 : String
  pub coverage : Option Coverage
  pub sink : Option Compare.Report
  pub activation : Option Activation

-- What `mark_validated` is given: a report that `wait_for_snapshot` returns has no differences.
unfoldable pub validation_of : Report → Compare.Report → Validation
validation_of report sink = record {
  passed = sink.passed;
  archive_complete = is_archived report.coverage;
  sink_complete = true;
  document = obj (
      field "release_id" (str report.release_id) (
        field "input_manifest_sha256" (str report.input_manifest_sha256) (
          field "rules_sha256" (str report.rules_sha256) (
            field "passed" (bool sink.passed) (
              field "differences" (arr nil)
                (field "sink_complete" (bool true) (coverage_fields report.coverage)))))));
}

-- `db.snapshots(old)["metrics"] if old else []`
abbrev pub baseline_of : Services → Option String → Result (List Metric)
baseline_of services none = ok []
baseline_of services (some old) = services.baseline old

-- What follows the validation.
unfoldable pub finish : Arguments → Report → Db → Result Report × Db
unfolding activate
finish args report db =
    if args.activates
    then (elim (activate args.release "verified full archive replay" db) [
      | raise e ↦ (raise e, db)
      | ok (activation, db') ↦ (ok (record report { activation = some activation }), db')
    ])
    else (ok report, db)

unfoldable pub after_validation : Arguments → Report → Db → Result Db → Result Report × Db
unfolding finish
after_validation args report db (raise e) = (raise e, db)
after_validation args report db (ok db') = finish args report db'

unfoldable pub validate_with : Arguments → Report → Result Compare.Report → Db → Result Report × Db
unfolding mark_validated validation_of after_validation
validate_with args report (raise e) db = (raise e, db)
validate_with args report (ok sink) db =
    after_validation args (record report { sink = some sink }) db
      (mark_validated args.release (validation_of report sink) db)

unfoldable pub after_publication : Arguments → Services → Report → Published → Result Report × Db
unfolding wait_for_snapshot validate_with
after_publication args services report published = elim published.result [
  | raise e ↦ (raise e, published.db)
  | ok topic ↦
      validate_with args report (wait_for_snapshot published.snapshot services.views) published.db
]

module _ (sha256 : String → String) (prefix : String) where
  abbrev pub first_report : Arguments → Rules → Source → Report
  first_report args rules source = record {
    release_id = args.release;
    input_manifest_sha256 = source.manifest_hash;
    rules_sha256 = digest sha256 rules.document;
    coverage = source.coverage;
    sink = none;
    activation = none;
  }

  -- The publication, if the baseline could be read.
  unfoldable pub publish_output :
      Arguments
      → Rules
      → Services
      → Source
      → Output
      → Result (List Metric)
      → Db
      → Result Report × Db
  unfolding publish_snapshot after_publication
  publish_output args rules services source output (raise e) db = (raise e, db)
  publish_output args rules services source output (ok baseline) db =
      after_publication args services (first_report args rules source) (
        publish_snapshot sha256 prefix services.creates services.commits args.release rules
          (some source.manifest_hash) baseline
          (record { metrics = output.metrics; associations = output.associations }) db)

  -- The end of the command: the report and, with `--publish`, the release.
  unfoldable pub release_output :
      Arguments → Rules → Services → Source → Output → Db → Result Report × Db
  unfolding publish_output
  release_output args rules services source output db =
      if args.publish
      then publish_output args rules services source output (baseline_of services db.active_release)
          db
      else (ok (first_report args rules source), db)
