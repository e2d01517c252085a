-- ===== src/Releases/Publish.antt =====
-- adpulse/releases.py, `publish_snapshot` and `wait_for_snapshot`. Kafka is a parameter: `created`
-- says whether the topic was created, and `commits` whether the transaction with these messages
-- commits.
use Prim.Native.String.{◌++◌ as str_append}
use ad_pulse.Prelude.{
  String, Bool, ◌&&◌, not, List, [], ◌∷◌, ◌++◌, map, Option, if◌then◌else◌, ◌==◌, string_eq, nat_eq,
  length, Result, ok, raise, runtime_error, timeout_error,
}
use ad_pulse.Prelude.Distinct.{member}
use ad_pulse.Oracle.Event.{Rules}
use ad_pulse.Oracle.Metrics.{Metric, no_counts}
use ad_pulse.Oracle.Calculate.{Association}
use ad_pulse.Oracle.Compare.{Snapshot, Report, compare}
use ad_pulse.Releases.{Db, replay, register, mark_failed}

pub data Body : Type 0 where
  metric_row : Metric → Body
  association_row : Association → Body

-- What is produced: `output_key` is also the message's key.
pub record Message : Type 0 where
  pub topic : String
  pub output_key : String
  pub body : Body

abbrev pub metric_keys : List Metric → List String
metric_keys = map (λ (m : Metric). m.metric_key)

-- `dict(old, release_id=..., rule_version=..., status="final", values=dict.fromkeys(..., 0))`
abbrev pub zeroed : String → Rules → Metric → Metric
zeroed release rules old = record old {
  release_id = release;
  rule_version = rules.rule_version;
  values = no_counts;
}

-- The loop over the baseline: a row that the release no longer has is published as zeros.
unfoldable pub retractions : String → Rules → List String → List Metric → List Metric
retractions release rules current [] = []
retractions release rules current (old ∷ baseline) =
    let rest = retractions release rules current baseline in
    if member old.metric_key current then rest else zeroed release rules old ∷ rest

unfoldable pub with_retractions : String → Rules → List Metric → Snapshot → Snapshot
with_retractions release rules baseline snapshot = record snapshot {
  metrics = snapshot.metrics ++ retractions release rules (metric_keys snapshot.metrics) baseline;
}

unfoldable pub messages : String → Snapshot → List Message
messages topic snapshot =
    map
      (λ (m : Metric). record {
        topic = topic;
        output_key = str_append "m:" m.metric_key;
        body = metric_row m;
      })
      snapshot.metrics
    ++ map
        (λ (a : Association). record {
          topic = topic;
          output_key = str_append "a:" a.association_key;
          body = association_row a;
        })
        snapshot.associations

-- How a publication ended, the snapshot as it was left, and the tables.
pub record Published : Type 0 where
  pub result : Result String
  pub snapshot : Snapshot
  pub db : Db

module _ (sha256 : String → String) (prefix : String) (created : Bool)
    (commits : List Message → Bool) where
  -- The transaction with its handler: a failure marks the release `failed` and raises.
  unfoldable pub transact : String → String → Snapshot → Db → Published
  transact release topic snapshot db =
      if commits (messages topic snapshot)
      then record { result = ok topic; snapshot = snapshot; db = db }
      else record {
        result = raise (runtime_error "publish");
        snapshot = snapshot;
        db = mark_failed release db;
      }

  unfoldable pub publish_snapshot :
      String → Rules → Option String → List Metric → Snapshot → Db → Published
  unfolding register transact
  publish_snapshot release rules manifest_hash baseline snapshot db =
      elim (register sha256 prefix release rules.document replay manifest_hash 3 db) [
        | raise e ↦ record { result = raise e; snapshot = snapshot; db = db }
        | ok (topic, db') ↦
            if not created
            then record { result = raise (runtime_error "topic"); snapshot = snapshot; db = db' }
            else transact release topic (with_retractions release rules baseline snapshot) db'
      ]

-- `wait_for_snapshot`: `views` are the snapshots that the sink shows on each round before the
-- deadline.
unfoldable pub wait_for_snapshot : Snapshot → List Snapshot → Result Report
wait_for_snapshot expected [] = raise (timeout_error "Sink did not reconcile")
wait_for_snapshot expected (actual ∷ views) =
    let rest = wait_for_snapshot expected views in
    let report = compare expected actual in
    if report.passed && length actual.metrics == length expected.metrics then ok report else rest
