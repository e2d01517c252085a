-- ===== src/Cli/State.antt =====
-- adpulse/cli.py: the arguments of `replay`, what the services answer to it, and its guards.
use ad_pulse.Prelude.{
  String, Bool, ◌&&◌, ◌||◌, not, List, Option, string_eq, nat_eq, Result, ◌>>◌, raise_if,
  runtime_error,
}
use ad_pulse.Json.{Fields}
use ad_pulse.Archive.Reconcile.{Coverage}
use ad_pulse.Archive.Objects.{Objects}
use ad_pulse.Oracle.Event.{Rules}
use ad_pulse.Oracle.Metrics.{Metric}
use ad_pulse.Oracle.Compare.{Snapshot}
use ad_pulse.Releases.{Db}
use ad_pulse.Releases.Publish.{Message}

pub record Arguments : Type 0 where
  pub has_input : Bool
  pub from_s3 : Bool
  pub release : String
  pub publish : Bool
  pub activates : Bool

-- What the services answer or raise: the rules, the rows of the input file, the queries of ClickHouse,
-- whether Kafka creates a topic and commits the messages, the metrics that ClickHouse shows of a
-- release, and the snapshots that it shows until the deadline.
pub record Services : Type 0 where
  pub rules : Result Rules
  pub input_rows : Result (List Fields)
  pub acknowledged : Result (List Fields)
  pub lineage : Result (List Fields)
  pub creates : Bool
  pub commits : List Message → Bool
  pub baseline : String → Result (List Metric)
  pub views : List Snapshot

-- The archive and the tables of the releases.
pub record World : Type 0 where
  pub objects : Objects
  pub db : Db

-- What is computed from; the coverage is that of the archive, if it is the source.
pub record Source : Type 0 where
  pub packets : List Fields
  pub dimensions : List Fields
  pub manifest_hash : String
  pub coverage : Option Coverage

-- The three guards before anything is read.
unfoldable pub check_arguments : Arguments → Result (Unit {0})
check_arguments args = do
  raise_if ((args.has_input && args.from_s3) || not (args.has_input || args.from_s3))
      (runtime_error "Choose exactly one of --input and --from-s3")
  raise_if (args.activates && not args.publish) (runtime_error "--activate requires --publish")
  raise_if (args.publish && not args.from_s3)
      (runtime_error "Publishing requires a verified S3 archive and receipt reconciliation")
