-- ===== src/Tests/Cli.antt =====
-- adpulse/cli.py: a replay that activates its release. The archive has one manifest, with a packet
-- and the receipt that acknowledges it.
use ad_pulse.Prelude.{
  String, ◌≡◌, refl, true, false, List, [], ◌∷◌, some, if◌then◌else◌, ◌==◌, string_eq, ◌⊎◌, Result,
  ok, raise, value_error, String_discrete, ℕ_discrete, pair_dec, option_dec,
}
use ad_pulse.Prelude.Dict.{lookup, insert, update, insert_all}
use ad_pulse.Prelude.Distinct.{member, add}
use ad_pulse.Json.{
  Value, str, num, obj, arr, nil, cons, Fields, end, field, canonical, digest, Value_discrete,
  get_field,
}
use ad_pulse.Oracle.Event.{Rules}
use ad_pulse.Oracle.Compare.{compare}
use ad_pulse.Oracle.Calculate.{
  matches_of, match_conversions, conversions_of, joins_of, join_clicks, clicks_of,
  count_impressions, impressions_of,
}
use ad_pulse.Releases.Publish.{with_retractions, retractions}
use ad_pulse.Names.{is_blank}
use ad_pulse.Archive.Verified.{verified_records}
use ad_pulse.Archive.Reconcile.{reconcile}
use ad_pulse.Oracle.Normalize.{normalize}
use ad_pulse.Releases.{empty_db}
use ad_pulse.Cli.State.{Arguments, Services, World}
use ad_pulse.Cli.Release.{Report}
use ad_pulse.Cli.Replay.{replay}
use ad_pulse.Cli.Gate.{IsVerified, replay_gate}

abbrev hash : String → String
hash s = "h"

-- A validator that refuses every event.
abbrev refused : Value → List String
refused v = "refused" ∷ []

abbrev packet : Fields
packet = field "receipt_id" (str "b:0") (
    field "received_at" (num 1000)
      (field "batch_id" (str "b") (field "index" (num 0) (field "event" (obj end) end))))

abbrev place : String → Fields → Fields
place topic rest =
    field "topic" (str topic) (field "partition" (num 0) (field "offset" (num 0) rest))

abbrev acknowledgement : Value
acknowledgement = obj (
    field "count" (num 1) (
      field "receipt_ids" (arr (cons (str "b:0") nil)) (
        field "records"
          (arr (
            cons
              (obj (
                field "receipt_id" (str "b:0")
                  (place "adpulse.raw" (field "sha256" (str "h") end))))
              nil))
          end)))

abbrev manifest : Fields
manifest = field "data_key" (str "data/h.jsonl") (
    field "sha256" (str "h") (
      field "record_count" (num 2) (
        field "records"
          (arr (
            cons (obj (place "adpulse.raw" (field "sha256" (str "h") end)))
              (cons (obj (place "adpulse.receipts" (field "sha256" (str "h") end))) nil)))
          end)))

abbrev loads : String → Result Value
loads s =
    if s == "manifest"
    then ok (obj manifest)
    else if s == "raw"
    then ok (obj (place "adpulse.raw" (field "value" (obj packet) end)))
    else if s == "ack"
    then ok (obj (place "adpulse.receipts" (field "value" acknowledgement end)))
    else raise (value_error "JSONDecodeError")

abbrev rules : Rules
rules = record {
  rule_version = "rules-v1";
  policy_version = "policy-v1";
  schema_versions = 1 ∷ [];
  effective_from = 0;
  attribution_window_ms = 604800000;
  window_ms = 60000;
  field_mappings = [];
  filter_regions = [];
  document = obj end;
}

abbrev arguments : Arguments
arguments = record {
  has_input = false;
  from_s3 = true;
  release = "r1";
  publish = true;
  activates = true;
}

abbrev services : Services
services = record {
  rules = ok rules;
  input_rows = ok [];
  acknowledged = ok (field "receipt_id" (str "b:0") end ∷ []);
  lineage = ok (field "receipt_id" (str "b:0") (field "disposition" (str "quarantined") end) ∷ []);
  creates = true;
  commits = λ l. true;
  baseline = λ r. ok [];
  views = record { metrics = []; associations = [] } ∷ [];
}

abbrev world : World
world = record {
  objects = ("manifests/h.json", "manifest") ∷ ("data/h.jsonl", "raw\nack\n") ∷ [];
  db = empty_db;
}

replay_run :
    (replay hash loads "adpulse" refused arguments services world).1.db.active_release ≡ some "r1"
unfolding replay verified_records reconcile digest canonical get_field lookup insert member add
    update Value_discrete String_discrete ℕ_discrete option_dec pair_dec normalize compare
    with_retractions matches_of match_conversions conversions_of joins_of join_clicks insert_all
    clicks_of count_impressions impressions_of retractions is_blank
replay_run = refl

replay_gate_example :
    (arguments.publish ≡ false
      → (replay hash loads "adpulse" refused arguments services world).1.db ≡ world.db)
    × ((((replay hash loads "adpulse" refused arguments services world).1.db.active_release
            ≡ world.db.active_release)
          ⊎ ((arguments.activates ≡ true)
              × (((replay hash loads "adpulse" refused arguments services world).1.db.active_release
                    ≡ some arguments.release)
                  × IsVerified hash loads "adpulse" refused arguments services world)))
        × ((report : Report)
            → (replay hash loads "adpulse" refused arguments services world).0 ≡ ok report
            → arguments.publish ≡ true
            → IsVerified hash loads "adpulse" refused arguments services world))
replay_gate_example = replay_gate hash loads "adpulse" refused arguments services world
