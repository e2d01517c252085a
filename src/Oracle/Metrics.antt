-- ===== src/Oracle/Metrics.antt =====
-- adpulse/oracle.py: `dimension_at`, `key_for` and the closure `add` of `calculate`.
pub mod Totals
use ad_pulse.Prelude.{
  ℕ, ◌+◌, ◌*◌, ◌/◌, String, Bool, true, false, ◌&&◌, ◌||◌, List, [], ◌∷◌, Option, none, some, ltb,
  leb, if◌then◌else◌, ◌==◌, string_eq, nat_eq,
}
use ad_pulse.Prelude.Dict.{Dict, lookup, insert}
use ad_pulse.Json.{Value, str, num, arr, array, canonical}
use ad_pulse.Oracle.Event.{Base, Impression, Rules}

-- One version of a campaign, as `archived_dimensions` gives it.
pub record Dimension : Type 0 where
  pub campaign_id : String
  pub effective_from : ℕ
  pub effective_to : Option ℕ
  pub source_version : ℕ
  pub deleted : Bool
  pub channel : Option String

unfoldable pub is_candidate : String → ℕ → Dimension → Bool
is_candidate campaign_id timestamp d =
    d.campaign_id == campaign_id
    && (leb d.effective_from timestamp
        && elim d.effective_to [ none ↦ true | some t ↦ ltb timestamp t ])

unfoldable pub candidates : List Dimension → String → ℕ → List Dimension
unfolding is_candidate
candidates [] campaign_id timestamp = []
candidates (d ∷ l) campaign_id timestamp =
    let rest = candidates l campaign_id timestamp in
    if is_candidate campaign_id timestamp d then d ∷ rest else rest

-- Whether the key `(source_version, effective_from)` of `a` is below that of `b`.
abbrev pub version_lt : Dimension → Dimension → Bool
version_lt a b =
    ltb a.source_version b.source_version
    || (leb a.source_version b.source_version && ltb a.effective_from b.effective_from)

-- `max(candidates, key=...)`: the first of the largest; `d` is the largest so far.
unfoldable pub latest : Dimension → List Dimension → Dimension
latest d [] = d
latest d (e ∷ l) = latest (if version_lt d e then e else d) l

channel_of : Dimension → String
channel_of d = if d.deleted then "deleted" else elim d.channel [ some c ↦ c | none ↦ "unknown" ]

unfoldable pub dimension_at : List Dimension → String → ℕ → String
unfolding candidates latest channel_of
dimension_at dimensions campaign_id timestamp = elim (candidates dimensions campaign_id timestamp) [
  | [] ↦ "unknown"
  | d ∷ l ↦ channel_of (latest d l)
]

pub data Cohort : Type 0 where
  occurrence of_impression of_click conversion_value : Cohort

abbrev pub cohort_text : Cohort → String
cohort_text occurrence = "occurrence"
cohort_text of_impression = "impression"
cohort_text of_click = "click"
cohort_text conversion_value = "conversion_value"

-- `DIMENSIONS`, with the window and the cohort of the row.
pub record Dims : Type 0 where
  pub advertiser_id : String
  pub app_id : String
  pub campaign_id : String
  pub region : String
  pub app_version : String
  pub experiment_id : String
  pub variant : String
  pub currency : String
  pub channel : String
  pub window_start : ℕ
  pub cohort_basis : String

-- `COUNTERS`
pub record Counters : Type 0 where
  pub impressions : ℕ
  pub clicks : ℕ
  pub matched_conversions : ℕ
  pub unmatched_conversions : ℕ
  pub converted_clicks : ℕ
  pub value_minor : ℕ

abbrev pub no_counts : Counters
no_counts = record {
  impressions = 0;
  clicks = 0;
  matched_conversions = 0;
  unmatched_conversions = 0;
  converted_clicks = 0;
  value_minor = 0;
}

-- `row["values"][name] += value` for each name
abbrev pub plus : Counters → Counters → Counters
plus a b = record {
  impressions = a.impressions + b.impressions;
  clicks = a.clicks + b.clicks;
  matched_conversions = a.matched_conversions + b.matched_conversions;
  unmatched_conversions = a.unmatched_conversions + b.unmatched_conversions;
  converted_clicks = a.converted_clicks + b.converted_clicks;
  value_minor = a.value_minor + b.value_minor;
}

-- A metric row; its `status` is always "final".
pub record Metric : Type 0 where
  pub metric_key : String
  pub release_id : String
  pub policy_version : String
  pub rule_version : String
  pub dims : Dims
  pub values : Counters

abbrev pub Metrics : Type 0
Metrics = Dict String Metric

abbrev or_unknown : Option String → String
or_unknown (some s) = s
or_unknown none = "unknown"

experiment_of : Option Impression → String
experiment_of (some i) = i.experiment_id
experiment_of none = "unknown"

variant_of : Option Impression → String
variant_of (some i) = i.variant
variant_of none = "unknown"

-- `impression or event`
abbrev pub attribution_of : Base → Option Impression → Base
attribution_of event (some i) = i.base
attribution_of event none = event

module _ (rules : Rules) (dimensions : List Dimension) where
  unfoldable pub dims_for : Base → Option Impression → ℕ → Cohort → String → Dims
  unfolding dimension_at experiment_of variant_of
  dims_for event impression timestamp cohort currency =
      let attribution = attribution_of event impression in
      record {
        advertiser_id = event.advertiser_id;
        app_id = event.app_id;
        campaign_id = attribution.campaign_id;
        region = or_unknown attribution.region;
        app_version = attribution.app_version;
        experiment_id = experiment_of impression;
        variant = variant_of impression;
        currency = currency;
        channel = dimension_at dimensions attribution.campaign_id timestamp;
        window_start = timestamp / rules.window_ms * rules.window_ms;
        cohort_basis = cohort_text cohort;
      }

  unfoldable pub key_of : Dims → String
  unfolding canonical
  key_of d = canonical (
      arr (
        array (
          str d.advertiser_id
          ∷ str d.app_id
          ∷ str d.campaign_id
          ∷ str d.region
          ∷ str d.app_version
          ∷ str d.experiment_id
          ∷ str d.variant
          ∷ str d.currency
          ∷ str d.channel
          ∷ num d.window_start
          ∷ str d.cohort_basis
          ∷ str rules.policy_version
          ∷ [])))

  unfoldable pub key_for : Base → Option Impression → ℕ → Cohort → String → String × Dims
  unfolding dims_for key_of
  key_for event impression timestamp cohort currency =
      let d = dims_for event impression timestamp cohort currency in (key_of d, d)

  abbrev pub fresh_row : String → String → Dims → Metric
  fresh_row release_id key dims = record {
    metric_key = key;
    release_id = release_id;
    policy_version = rules.policy_version;
    rule_version = rules.rule_version;
    dims = dims;
    values = no_counts;
  }

  abbrev pub or_fresh : Option Metric → Metric → Metric
  or_fresh (some row) fresh = row
  or_fresh none fresh = fresh

  -- `metrics.setdefault(key, ...)`, then the additions to `row["values"]`, under a key
  unfoldable pub add_at : String → String → Dims → Counters → Metrics → Metrics
  add_at release_id key dims delta metrics =
      let row = or_fresh (lookup key metrics) (fresh_row release_id key dims) in
      insert key (record row { values = plus row.values delta }) metrics

  unfoldable pub add :
      String → Base → Option Impression → ℕ → Cohort → String → Counters → Metrics → Metrics
  unfolding key_for
  add release_id event impression timestamp cohort currency delta metrics =
      let (key, dims) = key_for event impression timestamp cohort currency in
      add_at release_id key dims delta metrics
