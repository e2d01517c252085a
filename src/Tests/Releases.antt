-- ===== src/Tests/Releases.antt =====
-- adpulse/releases.py with two releases: the first is activated, then the second, and then the
-- first again.
use ad_pulse.Prelude.{
  ℕ, String, ◌≡◌, ◌≢◌, refl, Bool, true, false, not, List, [], ◌∷◌, ◌++◌, none, some, Result, ok,
  raise, if◌then◌else◌, ◌==◌, string_eq, option_eq, ℕ_discrete, String_discrete, option_dec, arith,
}
use ad_pulse.Prelude.Dict.{lookup, insert, update}
use ad_pulse.Prelude.Distinct.{member}
use ad_pulse.Json.{obj, end}
use ad_pulse.Names.{is_blank, valid_release}
use ad_pulse.Oracle.Event.{Rules}
use ad_pulse.Oracle.Metrics.{Metric, no_counts}
use ad_pulse.Oracle.Compare.{Snapshot, metric_map}
use ad_pulse.Releases.{
  active, retired, replay, Validation, Db, empty_db, register, mark_validated, Activation, switch,
  activate, set_status, retire, validate_row, topic_of, topic_taken,
}
use ad_pulse.Releases.Publish.{metric_keys, with_retractions}
use ad_pulse.Releases.Consistent.{status_of, IsConsistent}
use ad_pulse.Releases.Reach.{
  Reach, here, next, registered, marked, activated, IsSound, Reach-IsSound,
}
use ad_pulse.Releases.Rollback.{activate_effects, with_retired, rollback_lem}
use ad_pulse.Releases.Retract.{retraction_lem}
use ad_pulse.Storage.Page.{Entry}
use ad_pulse.Api.{Response, result_page}
use ad_pulse.Api.Served.{result_page_lem, IsServed, IsPinned}

abbrev hash : String → String
hash s = s

abbrev report : Validation
report = record { passed = true; archive_complete = true; sink_complete = true; document = obj end }

abbrev db_of : Result Db → Db
db_of (ok db) = db
db_of (raise e) = empty_db

abbrev db_of_pair : {A : Type 0} → Result (A × Db) → Db
db_of_pair (ok p) = p.1
db_of_pair (raise e) = empty_db

abbrev pair_of : Result (Activation × Db) → Activation
pair_of (ok p) = p.0
pair_of (raise e) = record { previous = none; active_id = ""; changed = false }

unfoldable one : Db
unfolding register
one = db_of_pair (register hash "adpulse" "r1" (obj end) replay none 3 empty_db)

unfoldable two : Db
unfolding register one
two = db_of_pair (register hash "adpulse" "r2" (obj end) replay none 3 one)

unfoldable checked_one : Db
unfolding mark_validated two
checked_one = db_of (mark_validated "r1" report two)

unfoldable checked : Db
unfolding mark_validated checked_one
checked = db_of (mark_validated "r2" report checked_one)

unfoldable first : Db
unfolding activate checked
first = db_of_pair (activate "r1" "go" checked)

unfoldable second : Db
unfolding activate first
second = db_of_pair (activate "r2" "go on" first)

abbrev first_of : Activation
first_of = record { previous = none; active_id = "r1"; changed = true }

abbrev second_of : Activation
second_of = record { previous = some "r1"; active_id = "r2"; changed = true }

run_one :
    register hash "adpulse" "r1" (obj end) replay none 3 empty_db ≡ ok ("adpulse.results.r1", one)
unfolding one register valid_release topic_of topic_taken lookup insert String_discrete ℕ_discrete
run_one = refl

run_two : register hash "adpulse" "r2" (obj end) replay none 3 one ≡ ok ("adpulse.results.r2", two)
unfolding two one register valid_release topic_of topic_taken lookup insert String_discrete
    ℕ_discrete
run_two = refl

run_checked_one : mark_validated "r1" report two ≡ ok checked_one
unfolding checked_one two one mark_validated validate_row register valid_release topic_of
    topic_taken lookup insert update String_discrete ℕ_discrete
run_checked_one = refl

run_checked : mark_validated "r2" report checked_one ≡ ok checked
unfolding checked checked_one two one mark_validated validate_row register valid_release topic_of
    topic_taken lookup insert update String_discrete ℕ_discrete
run_checked = refl

run_first : activate "r1" "go" checked ≡ ok (first_of, first)
unfolding first checked checked_one two one mark_validated validate_row register valid_release
    topic_of topic_taken lookup insert update activate is_blank switch set_status retire
    String_discrete ℕ_discrete member option_dec
run_first = refl

run_second : activate "r2" "go on" first ≡ ok (second_of, second)
unfolding second first checked checked_one two one mark_validated validate_row register
    valid_release topic_of topic_taken lookup insert update activate is_blank switch set_status
    retire String_discrete ℕ_discrete member option_dec
run_second = refl

abbrev history : Reach hash "adpulse" second
history =
    next
      (next
        (next
          (next
            (next (next here (registered "r1" (obj end) replay none 3 run_one))
              (registered "r2" (obj end) replay none 3 run_two))
            (marked "r1" report run_checked_one))
          (marked "r2" report run_checked))
        (activated "r1" "go" run_first))
      (activated "r2" "go on" run_second)

Reach-IsSound_example : IsSound second
Reach-IsSound_example = Reach-IsSound hash "adpulse" history

abbrev before_second : IsConsistent first
before_second =
    (Reach-IsSound hash "adpulse" (
      next
        (next
          (next
            (next (next here (registered "r1" (obj end) replay none 3 run_one))
              (registered "r2" (obj end) replay none 3 run_two))
            (marked "r1" report run_checked_one))
          (marked "r2" report run_checked))
        (activated "r1" "go" run_first))).consistent

first_active : first.active_release ≡ some "r1"
unfolding first checked checked_one two one mark_validated validate_row register valid_release
    topic_of topic_taken lookup insert update activate is_blank switch set_status retire
    String_discrete ℕ_discrete member option_dec
first_active = refl

apart : (s t : String) → (s == t) ≡ false → s ≢ t
apart s t h p = ground arith

abbrev same_text : String → String → Bool
same_text s t = s == t

names_differ : same_text "r1" "r2" ≡ false
unfolding String_discrete
names_differ = refl

fine_reason : is_blank "undo" ≡ false
unfolding is_blank ℕ_discrete member
fine_reason = refl

activate_effects_run :
    (second.active_release ≡ some "r2")
    × (second_of.previous ≡ first.active_release)
    × (second_of.changed ≡ not (first.active_release == some "r2"))
    × ((k : String)
        → status_of (lookup k second.releases) ≡ (
            if k == "r2"
            then some active
            else if first.active_release == some k
            then some retired
            else status_of (lookup k first.releases)))
    × (second.audit ≡ (
        if second_of.changed
        then first.audit
          ++ record { previous = first.active_release; next = "r2"; reason = "go on" } ∷ []
        else first.audit))
activate_effects_run = activate_effects "r2" "go on" first before_second run_second

rollback_lem_example :
    (activate "r1" "undo" second
      ≡ ok (
        record { previous = some "r2"; active_id = "r1"; changed = true },
        switch "r1" "undo" second,
      ))
    × ((switch "r1" "undo" second).active_release ≡ first.active_release)
    × ((k : String)
        → lookup k (switch "r1" "undo" second).releases
          ≡ with_retired "r2" k (lookup k first.releases))
    × ((switch "r1" "undo" second).audit
        ≡ (first.audit ++ record { previous = some "r1"; next = "r2"; reason = "go on" } ∷ [])
          ++ record { previous = some "r2"; next = "r1"; reason = "undo" } ∷ [])
rollback_lem_example =
    rollback_lem "r2" "r1" "go on" "undo" first before_second first_active
      (apart "r1" "r2" names_differ) run_second fine_reason

abbrev rules : Rules
rules = record {
  rule_version = "rules-v1";
  policy_version = "policy-v1";
  schema_versions = 1 ∷ [];
  effective_from = 0;
  attribution_window_ms = 604800000;
  window_ms = 60000;
  field_mappings = [];
  filter_regions = [];
  document = obj end;
}

abbrev row : String → ℕ → Metric
row key clicks = record {
  metric_key = key;
  release_id = "r1";
  policy_version = "policy-v1";
  rule_version = "rules-v1";
  dims = record {
    advertiser_id = "a";
    app_id = "p";
    campaign_id = "c";
    region = "EU";
    app_version = "1.0";
    experiment_id = "x";
    variant = "b";
    currency = "ALL";
    channel = "unknown";
    window_start = 0;
    cohort_basis = "click";
  };
  values = record no_counts { clicks = clicks };
}

abbrev snapshot : Snapshot
snapshot = record { metrics = row "k2" 4 ∷ []; associations = [] }

abbrev baseline : List Metric
baseline = row "k1" 3 ∷ row "k2" 5 ∷ []

retraction_lem_example :
    let after = with_retractions "r2" rules baseline snapshot in
    ((k : String)
      → member k (metric_keys baseline) ≡ true
      → member k (metric_keys after.metrics) ≡ true)
    × (metric_map after.metrics [] ≡ metric_map snapshot.metrics [])
    × (after.associations ≡ snapshot.associations)
retraction_lem_example = retraction_lem "r2" rules baseline snapshot

-- The pages of the release that is active, without a cursor.
abbrev table : String → String → List Entry
table release kind = ("m:k", end) ∷ []

result_page_lem_example :
    let out =
      result_page hash
        (λ v. "token")
        (λ t. none)
        4000
        none
        table
        "metric"
        none
        none
        10
        []
        second
        8 in
    (out.0 ≡ 8)
    × ((resp : Response)
        → out.1 ≡ ok resp
        → IsServed second resp.release_id
          × IsPinned hash
              (λ v. "token")
              (λ t. none)
              4000
              none
              table
              "metric"
              []
              none
              none
              resp.release_id)
result_page_lem_example =
    result_page_lem hash (λ v. "token") (λ t. none) 4000 none table "adpulse" "metric" none none 10
      [] second 8 history
