-- ===== src/Releases.antt =====
-- adpulse/releases.py over the tables of deployment/postgres: releases, the active pointer and the
-- audit trail. A transaction that raises is rolled back, so an operation is a function from the
-- tables to a result with the new tables.
pub mod Consistent
pub mod Reach
pub mod Rollback
pub mod Publish
pub mod Retract
use Prim.Native.String.{◌++◌ as str_append}
use ad_pulse.Prelude.{
  ℕ, String, Bool, true, false, ◌&&◌, not, List, [], ◌∷◌, ◌++◌, Option, none, some, if◌then◌else◌,
  ◌==◌, string_eq, Result, ok, raise, ◌>>=◌, ◌>>◌, raise_if, or_raise, value_error, runtime_error,
  option_eq,
}
use ad_pulse.Prelude.Dict.{Dict, lookup, insert, update, contains}
use ad_pulse.Json.{Value, digest}
use ad_pulse.Names.{valid_release, is_blank}

pub data Status : Type 0 where
  building validated active retired failed : Status

pub data ReleaseKind : Type 0 where
  live replay : ReleaseKind

-- The parts of the report that `mark_validated` reads, and the whole of it.
pub record Validation : Type 0 where
  pub passed : Bool
  pub archive_complete : Bool
  pub sink_complete : Bool
  pub document : Value

pub record Release : Type 0 where
  pub kind : ReleaseKind
  pub status : Status
  pub topic : String
  pub partition_count : ℕ
  pub rules_sha256 : String
  pub rules : Value
  pub manifest_sha256 : Option String
  pub report : Option Validation

pub record Audit : Type 0 where
  pub previous : Option String
  pub next : String
  pub reason : String

-- `releases` by its primary key, `active_release`, and `release_audit` in the order of its ids.
pub record Db : Type 0 where
  pub releases : Dict String Release
  pub active_release : Option String
  pub audit : List Audit

abbrev pub empty_db : Db
empty_db = record { releases = []; active_release = none; audit = [] }

-- `topic TEXT UNIQUE`
unfoldable pub topic_taken : String → Dict String Release → Bool
topic_taken topic [] = false
topic_taken topic ((_, r) ∷ d) = if topic == r.topic then true else topic_taken topic d

-- `TOPIC_PREFIX` is the environment's.
unfoldable pub topic_of : String → String → String
topic_of prefix release = str_append prefix (str_append ".results." release)

module _ (sha256 : String → String) (prefix : String) where
  -- The values of the `INSERT`.
  abbrev pub new_row : String → Value → ReleaseKind → Option String → ℕ → Release
  new_row topic rules kind manifest_hash partitions = record {
    kind = kind;
    status = building;
    topic = topic;
    partition_count = partitions;
    rules_sha256 = digest sha256 rules;
    rules = rules;
    manifest_sha256 = manifest_hash;
    report = none;
  }

  -- `register`: the insertion fails on a release or a topic that is there.
  unfoldable pub register :
      String → Value → ReleaseKind → Option String → ℕ → Db → Result (String × Db)
  unfolding valid_release topic_of topic_taken
  register release rules kind manifest_hash partitions db = do
    raise_if (not (valid_release release)) (value_error "Invalid release identifier")
    let topic = topic_of prefix release
    raise_if (contains release db.releases) (runtime_error "UniqueViolation: release_id")
    raise_if (topic_taken topic db.releases) (runtime_error "UniqueViolation: topic")
    ok (
      topic,
      record db {
        releases = insert release (new_row topic rules kind manifest_hash partitions) db.releases;
      },
    )

unfoldable pub get_release : String → Db → Option Release
get_release release db = lookup release db.releases

abbrev pub is_building : Status → Bool
is_building building = true
is_building _ = false

-- `UPDATE releases SET status='validated',... WHERE release_id=... AND status='building'`
unfoldable pub validate_row : Validation → Release → Release
validate_row report r =
    if is_building r.status then record r { status = validated; report = some report } else r

abbrev pub building_at : Option Release → Bool
building_at none = false
building_at (some r) = is_building r.status

unfoldable pub mark_validated : String → Validation → Db → Result Db
unfolding validate_row
mark_validated release report db = do
  raise_if (not (report.passed && (report.archive_complete && report.sink_complete)))
      (value_error "Release requires passing reconciliation, complete archive and visible sink")
  raise_if (not (building_at (lookup release db.releases)))
      (value_error "Release is missing or no longer building")
  ok (record db { releases = update release (validate_row report) db.releases })

-- `target["status"] not in {"validated", "retired", "active"}`
abbrev pub can_activate : Option Release → Bool
can_activate none = false
can_activate (some r) = elim r.status [ building ↦ false | failed ↦ false | _ ↦ true ]

-- `UPDATE releases SET status=... WHERE release_id=...`
abbrev pub with_status : Status → Release → Release
with_status s r = record r { status = s }

unfoldable pub set_status : Status → String → Dict String Release → Dict String Release
set_status s release d = update release (with_status s) d

-- `if old: UPDATE ... 'retired'`
unfoldable pub retire : Option String → Dict String Release → Dict String Release
retire none d = d
retire (some old) d = set_status retired old d

pub record Activation : Type 0 where
  pub previous : Option String
  pub active_id : String
  pub changed : Bool

-- The four statements that swap the pointer.
unfoldable pub switch : String → String → Db → Db
switch release reason db = record {
  releases = set_status active release (retire db.active_release db.releases);
  active_release = some release;
  audit = db.audit ++ record { previous = db.active_release; next = release; reason = reason } ∷ [];
}

unfoldable pub activate : String → String → Db → Result (Activation × Db)
unfolding switch
activate release reason db = do
  raise_if (is_blank reason) (value_error "An audit reason is required")
  raise_if (not (can_activate (lookup release db.releases)))
      (value_error "Only validated releases can be activated or rolled back")
  let old = db.active_release
  if old == some release
      then ok (record { previous = old; active_id = release; changed = false }, db)
      else ok
          (record { previous = old; active_id = release; changed = true }, switch release reason db)

-- The handler of `publish_snapshot`: a release whose publication failed.
unfoldable pub mark_failed : String → Db → Db
mark_failed release db = record db { releases = set_status failed release db.releases }
