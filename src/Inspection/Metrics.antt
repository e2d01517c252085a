-- ===== src/Inspection/Metrics.antt =====
-- adpulse/inspection.py, `operational_metrics` and `inspect_archive`. What the services answer is a
-- parameter. A sample of a gauge has the gauge's name, its labels and its value, and quotients are
-- kept as pairs; the text that `generate_latest` makes of the samples is not modelled.
pub mod Totals
use ad_pulse.Prelude.{
  ℕ, zero, suc, ◌+◌, ◌-◌, String, Bool, true, false, not, List, [], ◌∷◌, ◌++◌, map, Option, none,
  some, if◌then◌else◌, ◌==◌, string_eq, nat_eq, pair_eq, ltb, leb, length, Result, ok, raise, ◌>>=◌,
  ◌>>◌, raise_if, value_error, type_error, ◌&&◌,
}
use ad_pulse.Prelude.Dict.{Dict, lookup, insert, contains, values}
use ad_pulse.Json.{Value, num, str, Fields, end, field, value_eq}
use ad_pulse.Storage.Payload.{text_at, number_at, value_at}
use ad_pulse.Archive.Chunks.{Bytes}
use ad_pulse.Archive.Reconcile.{object}
use ad_pulse.Archive.Index.{index_coverage}
use ad_pulse.Archive.Index as Coverage
use ad_pulse.Archive.Refresh.{Index, Entry, refresh, strip_prefix}
use ad_pulse.Archive.Refresh as Refresh
use ad_pulse.Reconciliation.Run.{receipt_ids}

-- release, cohort, variant, currency, measure, campaign, region and version
abbrev pub Series : Type 0
Series = String × (String × (String × (String × (String × (String × (String × String))))))

abbrev pub max_series : ℕ
max_series = 10000

-- `totals.get(key, 0)`
abbrev pub or_zero : Option ℕ → ℕ
or_zero none = 0
or_zero (some n) = n

-- The body of the loop over the measures of a row.
unfoldable pub add_value : Series → ℕ → Dict Series ℕ → Result (Dict Series ℕ)
unfolding lookup insert
add_value key value totals = do
  raise_if (not (contains key totals) && leb max_series (length totals))
      (value_error "Business metric cardinality exceeds 10000 series")
  ok (insert key (or_zero (lookup key totals) + value) totals)

unfoldable pub series_of : String → Fields → String → Result Series
unfolding text_at
series_of release row measure = do
  cohort ← text_at "cohort_basis" row
  variant ← text_at "variant" row
  currency ← text_at "currency" row
  campaign ← text_at "campaign_id" row
  region ← text_at "region" row
  version ← text_at "app_version" row
  ok (release, (cohort, (variant, (currency, (measure, (campaign, (region, version)))))))

unfoldable pub number_of : Value → Result ℕ
number_of (num n) = ok n
number_of v = raise (type_error "value")

unfoldable pub add_measures : String → Fields → Fields → Dict Series ℕ → Result (Dict Series ℕ)
unfolding series_of number_of add_value
add_measures release row end totals = ok totals
add_measures release row (field measure v rest) totals = do
  key ← series_of release row measure
  value ← number_of v
  totals' ← add_value key value totals
  add_measures release row rest totals'

module _ (loads : String → Result Value) where
  -- The loop over the results.
  unfoldable pub totals_from : String → List Fields → Dict Series ℕ → Result (Dict Series ℕ)
  unfolding text_at value_at object add_measures
  totals_from release [] totals = ok totals
  totals_from release (result ∷ l) totals = do
    payload ← text_at "payload" result
    parsed ← loads payload
    row ← object parsed
    measured ← value_at "values" row
    measures ← object measured
    totals' ← add_measures release row measures totals
    totals_from release l totals'

pub data Amount : Type 0 where
  whole : ℕ → Amount
  raw : Value → Amount
  fraction : ℕ → ℕ → Amount

pub record GaugeSample : Type 0 where
  pub gauge : String
  pub labels : List String
  pub amount : Amount

-- What Flink, the registry of releases and ClickHouse answer; each row is the first of its query.
pub record Answers : Type 0 where
  pub jobs : Result (List Fields)
  pub active : Option String
  pub results : String → List Fields
  pub pending : String → Fields
  pub freshness : String → Fields
  pub quality : List Fields
  pub accepted : Fields
  pub outstanding : Fields

abbrev pub is_started : Option String → Bool
is_started none = false
is_started (some rest) = true

-- `sum(j["state"] == "RUNNING" and j["name"].startswith("AdPulse") for j in ...)`
unfoldable pub count_running : List Fields → Result ℕ
unfolding value_at text_at strip_prefix
count_running [] = ok 0
count_running (j ∷ l) = do
  state ← value_at "state" j
  running ←
      if state == str "RUNNING"
      then (text_at "name" j >>= λ name. ok (is_started (strip_prefix "AdPulse" name)))
      else ok false
  rest ← count_running l
  ok (if running then rest + 1 else rest)

unfoldable pub business_sample : Series × ℕ → GaugeSample
business_sample
      ((release, (cohort, (variant, (currency, (measure, (campaign, (region, version))))))), n) =
    record {
      gauge = "adpulse_business_value";
      labels = release ∷ cohort ∷ variant ∷ currency ∷ measure ∷ campaign ∷ region ∷ version ∷ [];
      amount = whole n;
    }

abbrev pub gauge_of : String → List String → Amount → GaugeSample
gauge_of name labels amount = record { gauge = name; labels = labels; amount = amount }

-- `enumerate(...)` over the quality rows, from `number`
unfoldable pub quality_samples : ℕ → List Fields → Result (List GaugeSample)
unfolding text_at number_at
quality_samples number [] = ok []
quality_samples number (row ∷ l) = do
  raise_if (leb 1000 number) (value_error "Quality metric cardinality exceeds 1000 series")
  disposition ← text_at "disposition" row
  error_code ← text_at "error_code" row
  n ← number_at "n" row
  rest ← quality_samples (number + 1) l
  ok (gauge_of "adpulse_quality_records" (disposition ∷ error_code ∷ []) (whole n) ∷ rest)

-- `max(0, (now_ms()-oldest)/1000) if n else 0`
unfoldable pub age_of : ℕ → Fields → ℕ → Result Amount
unfolding number_at
age_of now row zero = ok (whole 0)
age_of now row (suc n) = do oldest ← number_at "oldest" row; ok (fraction (now - oldest) 1000)

unfoldable pub freshness_samples : Fields → ℕ → Result (List GaugeSample)
unfolding value_at
freshness_samples row zero = ok []
freshness_samples row (suc n) = do
  p95 ← value_at "p95" row
  ok (gauge_of "adpulse_freshness_p95_seconds" [] (raw p95) ∷ [])

module _ (loads : String → Result Value) where
  -- `if selected:`
  unfoldable pub release_samples : Answers → Option String → Result (List GaugeSample)
  unfolding totals_from business_sample number_at freshness_samples
  release_samples db none = ok []
  release_samples db (some selected) = do
    totals ← totals_from loads selected (db.results selected) []
    pending ← number_at "n" (db.pending selected)
    records ← number_at "records" (db.freshness selected)
    fresh ← freshness_samples (db.freshness selected) records
    ok (
        map business_sample totals
        ++ gauge_of "adpulse_active_release_info" (selected ∷ []) (whole 1)
          ∷ gauge_of "adpulse_pending_conversions" [] (whole pending)
          ∷ fresh)

  -- `operational_metrics`
  unfoldable pub operational_metrics : ℕ → Answers → Result (List GaugeSample × Option String)
  unfolding count_running release_samples quality_samples number_at age_of
  operational_metrics now db = do
    jobs ← db.jobs
    running ← count_running jobs
    business ← release_samples db db.active
    quality ← quality_samples 0 db.quality
    accepted ← number_at "n" db.accepted
    outstanding ← number_at "n" db.outstanding
    age ← age_of now db.outstanding outstanding
    ok (
      gauge_of "adpulse_flink_running_jobs" [] (whole running) ∷ business
          ++ quality
          ++ gauge_of "adpulse_acknowledged_records" [] (whole accepted)
            ∷ gauge_of "adpulse_lineage_pending_records" [] (whole outstanding)
            ∷ gauge_of "adpulse_lineage_oldest_pending_seconds" [] age
            ∷ [],
      db.active,
    )

-- The queries of `inspect_archive`.
pub record ArchiveAnswers : Type 0 where
  pub receipt_rows : List Fields
  pub quality_rows : List Fields
  pub summary : List Value
  pub samples : List Fields

pub record Inspected : Type 0 where
  pub completeness : Coverage.Report
  pub index : Refresh.Report
  pub quality_summary : List Value
  pub quality_payloads : List Value

module _ (sha256 : String → String) (sha256_bytes : Bytes → String) (loads : String → Result Value)
    (loads_bytes : Bytes → Result Value) where
  unfoldable pub payload_values : List Fields → Result (List Value)
  unfolding text_at
  payload_values [] = ok []
  payload_values (row ∷ l) = do
    text ← text_at "payload" row
    v ← loads text
    rest ← payload_values l
    ok (v ∷ rest)

  unfoldable pub inspect_index : Index → ArchiveAnswers → Refresh.Report → Result Inspected
  unfolding receipt_ids index_coverage payload_values
  inspect_index index db refreshed = do
    ids ← receipt_ids db.receipt_rows
    completeness ←
        index_coverage sha256 loads (map (λ (e : Entry). e.row) (values index.records))
          index.ack_refs ids db.quality_rows 100
    raise_if (ltb 1000 (length db.summary)) (value_error "Quality summary exceeds category budget")
    payloads ← payload_values db.samples
    ok (record {
      completeness = completeness;
      index = refreshed;
      quality_summary = db.summary;
      quality_payloads = payloads;
    })

  -- `inspect_archive`, and the index that is left
  unfoldable pub inspect_archive :
      Dict String (List Bytes) → Index → ArchiveAnswers → Result Inspected × Index
  unfolding refresh inspect_index
  inspect_archive store index db =
      let refreshed = refresh sha256 sha256_bytes loads_bytes false store index in
      (refreshed.0 >>= λ report. inspect_index refreshed.1 db report, refreshed.1)
