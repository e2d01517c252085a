-- ===== src/Oracle/Calculate.antt =====
-- adpulse/oracle.py, `calculate`: the joins of clicks to impressions and of conversions to clicks,
-- and the metric rows. The sets and dictionaries are those of the run without `storage`.
pub mod Kinds
pub mod Totals
pub mod Conservation
pub mod Cells
pub mod Keyed
pub mod Conversions
pub mod Attribution
use ad_pulse.Prelude.{
  ℕ, ◌+◌, ◌-◌, String, Bool, true, false, not, List, [], ◌∷◌, ◌++◌, Option, none, some, ltb,
  if◌then◌else◌, ◌==◌, string_eq, nat_eq, pair_eq, map, length, Result, ok, ◌>>=◌,
}
use ad_pulse.Prelude.Dict.{Dict, lookup, insert, insert_all, values}
use ad_pulse.Prelude.Distinct.{member}
use ad_pulse.Prelude.Distinct
use ad_pulse.Prelude.Sort.{sort_by}
use ad_pulse.Json.{Value, Fields, str, arr, array, canonical, digest}
use ad_pulse.Oracle.Event.{
  Event, impression, click, conversion, Base, Impression, Click, Conversion, Rules, Scope, scope,
}
use ad_pulse.Oracle.Normalize.{
  QualityRow, ErrorCode, all_ok, impression_not_found, impression_identity_mismatch,
  impression_campaign_mismatch, click_before_impression, impression_window_exceeded, signal, State,
  normalize,
}
use ad_pulse.Oracle.Metrics.{
  Dimension, Cohort, occurrence, of_impression, of_click, conversion_value, Counters, no_counts,
  Metric, Metrics, add,
}

-- advertiser, app and an identifier
abbrev pub Key : Type 0
Key = String × (String × String)

abbrev pub key_with : Base → String → Key
key_with b id = (b.advertiser_id, (b.app_id, id))

-- `e for e in events if e["event_type"] == ...`
unfoldable pub impressions_of : List Event → List Impression
impressions_of [] = []
impressions_of (impression i ∷ l) = i ∷ impressions_of l
impressions_of (e ∷ l) = impressions_of l

unfoldable pub clicks_of : List Event → List Click
clicks_of [] = []
clicks_of (click c ∷ l) = c ∷ clicks_of l
clicks_of (e ∷ l) = clicks_of l

unfoldable pub conversions_of : List Event → List Conversion
conversions_of [] = []
conversions_of (conversion v ∷ l) = v ∷ conversions_of l
conversions_of (e ∷ l) = conversions_of l

abbrev pub impression_key : Impression → Key
impression_key i = key_with i.base i.impression_id

abbrev pub click_key : Click → Key
click_key c = key_with c.base c.click_id

abbrev pub with_key : {A : Type 0} → (A → Key) → A → Key × A
with_key key a = (key a, a)

pub data Reason : Type 0 where
  matched click_not_found identity_mismatch campaign_mismatch : Reason
  click_after_conversion attribution_window_exceeded : Reason

module _ (rules : Rules) where
  -- The `if` chain of the loop over the clicks.
  unfoldable pub link_reason : Option Impression → Click → ErrorCode
  unfolding scope
  link_reason none c = impression_not_found
  link_reason (some i) c =
      if not (scope i.base == scope c.base)
      then impression_identity_mismatch
      else if not (i.campaign_id == c.campaign_id)
      then impression_campaign_mismatch
      else if ltb c.event_time i.event_time
      then click_before_impression
      else if ltb rules.attribution_window_ms (c.event_time - i.event_time)
      then impression_window_exceeded
      else all_ok

  -- The `if` chain of the loop over the conversions.
  unfoldable pub match_reason : Option Click → Conversion → Reason
  unfolding scope
  match_reason none v = click_not_found
  match_reason (some c) v =
      if not (scope c.base == scope v.base)
      then identity_mismatch
      else if not (c.campaign_id == v.campaign_id)
      then campaign_mismatch
      else if ltb v.event_time c.event_time
      then click_after_conversion
      else if ltb rules.attribution_window_ms (v.event_time - c.event_time)
      then attribution_window_exceeded
      else matched

abbrev pub is_ok : ErrorCode → Bool
is_ok all_ok = true
is_ok _ = false

abbrev pub is_matched : Reason → Bool
is_matched matched = true
is_matched _ = false

-- `if reason != "OK": impression = None`
abbrev pub linked : ErrorCode → Option Impression → Option Impression
linked code found = if is_ok code then found else none

abbrev pub signal_row : Rules → Click → ErrorCode → QualityRow
signal_row rules c code = record {
  receipt_id = c.receipt_id;
  event_id = str c.event_id;
  rule_version = rules.rule_version;
  rule_id = "exposure-link-v1";
  dataset = "clicks";
  disposition = signal;
  error_code = code;
  detail = none;
}

abbrev pub one_impression : Counters
one_impression = record no_counts { impressions = 1 }

abbrev pub one_click : Counters
one_click = record no_counts { clicks = 1 }

abbrev pub outcome_count : Bool → Counters
outcome_count true = record no_counts { matched_conversions = 1 }
outcome_count false = record no_counts { unmatched_conversions = 1 }

-- What the loop over the clicks has built.
pub record Joins : Type 0 where
  pub joined : Dict Key (Option Impression)
  pub metrics : Metrics
  pub signals : List QualityRow

-- An association row; `status` is "matched" if `is_matched` holds, and "unmatched" otherwise.
pub record Association : Type 0 where
  pub association_key : String
  pub conversion_id : String
  pub click_id : String
  pub advertiser_id : String
  pub app_id : String
  pub is_match : Bool
  pub reason : Reason
  pub release_id : String
  pub rule_version : String
  pub policy_version : String
  pub event_time : ℕ
  pub receipt_id : Value
  pub experiment_id : String
  pub variant : String

pub record Matches : Type 0 where
  pub associations : List Association
  pub converted : List Key
  pub metrics : Metrics

module _ (rules : Rules) (release_id : String) (dimensions : List Dimension) where
  abbrev add_row : Base → Option Impression → ℕ → Cohort → String → Counters → Metrics → Metrics
  add_row = add rules dimensions release_id

  -- The loop over the impressions.
  unfoldable pub count_impressions : List Impression → Metrics → Metrics
  count_impressions [] m = m
  count_impressions (i ∷ l) m = count_impressions l (
      add_row i.base (some i) i.event_time of_impression "ALL" one_impression
        (add_row i.base (some i) i.event_time occurrence "ALL" one_impression m))

  add_linked : Click → Option Impression → Metrics → Metrics
  add_linked c none m = m
  add_linked c (some i) m = add_row c.base (some i) i.event_time of_impression "ALL" one_click m

  -- The body of the loop over the clicks.
  unfoldable pub click_step : Dict Key Impression → Key × Click → Joins → Joins
  unfolding add_linked
  click_step impressions (key, c) st =
      let found = lookup (key_with c.base c.impression_id) impressions in
      let code = link_reason rules found c in
      let i = linked code found in
      record {
        joined = insert key i st.joined;
        metrics = add_linked c i (
            add_row c.base i c.event_time of_click "ALL" one_click
              (add_row c.base i c.event_time occurrence "ALL" one_click st.metrics));
        signals = if is_ok code then st.signals else st.signals ++ signal_row rules c code ∷ [];
      }

  unfoldable pub join_clicks : Dict Key Impression → Dict Key Click → Joins → Joins
  join_clicks impressions [] st = st
  join_clicks impressions (e ∷ l) st = join_clicks impressions l (click_step impressions e st)

  association_of : Conversion → Reason → Option Impression → Association
  association_of v reason i = record {
    association_key =
        canonical (arr (array (str v.advertiser_id ∷ str v.app_id ∷ str v.conversion_id ∷ [])));
    conversion_id = v.conversion_id;
    click_id = v.click_id;
    advertiser_id = v.advertiser_id;
    app_id = v.app_id;
    is_match = is_matched reason;
    reason = reason;
    release_id = release_id;
    rule_version = rules.rule_version;
    policy_version = rules.policy_version;
    event_time = v.event_time;
    receipt_id = v.receipt_id;
    experiment_id = elim i [ some x ↦ x.experiment_id | none ↦ "unknown" ];
    variant = elim i [ some x ↦ x.variant | none ↦ "unknown" ];
  }

  -- The part of the body under `if matched:`.
  unfoldable pub match_step : Conversion → Click → Option Impression → Key → Matches → Matches
  match_step v c i key st =
      let first : ℕ = if member key st.converted then 0 else 1 in
      record st {
        converted = Distinct.add key st.converted;
        metrics =
            add_row v.base i c.event_time conversion_value v.currency
              (record no_counts { matched_conversions = 1; value_minor = v.value_minor })
              (add_row v.base i c.event_time of_click "ALL"
                (record no_counts { matched_conversions = 1; converted_clicks = first })
                st.metrics);
      }

  settle : Bool → Option Click → Conversion → Option Impression → Key → Matches → Matches
  unfolding match_step
  settle true (some c) v i key st = match_step v c i key st
  settle _ _ v i key st = st

  abbrev joined_impression : Option (Option Impression) → Option Impression
  joined_impression (some i) = i
  joined_impression none = none

  -- The body of the loop over the conversions.
  unfoldable pub conversion_step :
      Dict Key Click → Dict Key (Option Impression) → Conversion → Matches → Matches
  unfolding association_of settle
  conversion_step clicks joined v st =
      let key = key_with v.base v.click_id in
      let found = lookup key clicks in
      let reason = match_reason rules found v in
      let hit = is_matched reason in
      let i = if hit then joined_impression (lookup key joined) else none in
      settle hit found v i key (record {
        associations = st.associations ++ association_of v reason i ∷ [];
        converted = st.converted;
        metrics = add_row v.base i v.event_time occurrence "ALL" (outcome_count hit) st.metrics;
      })

  unfoldable pub match_conversions :
      Dict Key Click → Dict Key (Option Impression) → List Conversion → Matches → Matches
  match_conversions clicks joined [] st = st
  match_conversions clicks joined (v ∷ l) st =
      match_conversions clicks joined l (conversion_step clicks joined v st)

abbrev pub impression_map : List Event → Dict Key Impression
impression_map events = insert_all (map (with_key impression_key) (impressions_of events)) []

abbrev pub click_map : List Event → Dict Key Click
click_map events = insert_all (map (with_key click_key) (clicks_of events)) []

abbrev pub start_joins : Metrics → Joins
start_joins m = record { joined = []; metrics = m; signals = [] }

abbrev pub start_matches : Metrics → Matches
start_matches m = record { associations = []; converted = []; metrics = m }

pub record Output : Type 0 where
  pub release_id : String
  pub rule_version : String
  pub rules_sha256 : String
  pub input_records : ℕ
  pub clean_events : ℕ
  pub quality : List QualityRow
  pub associations : List Association
  pub metrics : List Metric

module _ (rules : Rules) (release_id : String) (dimensions : List Dimension) where
  unfoldable pub joins_of : List Event → Joins
  joins_of events =
      join_clicks rules release_id dimensions (impression_map events) (click_map events) (
        start_joins
          (count_impressions rules release_id dimensions (values (impression_map events)) []))

  unfoldable pub matches_of : List Event → Matches
  matches_of events =
      let joins = joins_of events in
      match_conversions rules release_id dimensions (click_map events) joins.joined
        (conversions_of events) (start_matches joins.metrics)

  -- `calculate` after the call of `normalize`.
  unfoldable pub calculate_from : (String → String) → ℕ → State → Output
  calculate_from sha256 input_records st =
      let result = matches_of st.events in
      record {
        release_id = release_id;
        rule_version = rules.rule_version;
        rules_sha256 = digest sha256 rules.document;
        input_records = input_records;
        clean_events = length st.events;
        quality = st.quality ++ (joins_of st.events).signals;
        associations = sort_by (λ (a : Association). a.association_key) result.associations;
        metrics = sort_by (λ (m : Metric). m.metric_key) (values result.metrics);
      }

  unfoldable pub calculate : (String → String) → (Value → List String) → List Fields → Result Output
  unfolding calculate_from
  calculate sha256 errors records = do
    st ← normalize errors rules records
    ok (calculate_from sha256 (length records) st)
