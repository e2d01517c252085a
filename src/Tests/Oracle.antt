-- ===== src/Tests/Oracle.antt =====
-- adpulse/oracle.py at a click stream of one user: an impression, two deliveries of a click, and a
-- conversion.
use native.Mathlib.Decide.{ℕ_discrete}
use ad_pulse.Prelude.{
  All, IsAmong, ℕ, ◌+◌, ◌*◌, String, ◌≡◌, refl, true, List, [], ◌∷◌, some, Result, ok, raise, map,
  length, arith, inl, inr, Bool-cases, ◌==◌, string_eq, nat_eq, pair_eq, if◌then◌else◌,
  String_discrete, pair_dec, ◌↔◌,
}
use ad_pulse.Prelude.Distinct.{IsDistinct, member, add}
use ad_pulse.Prelude.Sort.{sort_by, sum_list}
use ad_pulse.Prelude.Dict.{lookup}
use ad_pulse.Json.{Value, str, num, obj, Fields, end, field, value_eq}
use ad_pulse.Oracle.Event.{Event, Rules, decode, Conversion, Click, event_key, business_key}
use ad_pulse.Oracle.Normalize.{State, QualityRow, start, normalize, accept, mark}
use ad_pulse.Json.{get_field}
use ad_pulse.Oracle.Calculate.{
  Key, key_with, Association, impressions_of, clicks_of, conversions_of, click_map, click_key,
  joins_of, calculate_from,
}
use ad_pulse.Oracle.Calculate.Conversions.{matched_as}
use ad_pulse.Oracle.Calculate.Conservation.{
  calculate_conservation, metric_sum, hit_value, IsCredited,
}
use ad_pulse.Oracle.Calculate.Keyed.{IsKeyed}
use ad_pulse.Oracle.Calculate.Attribution.{attribution_lem, outcome, IsAttributable}
use ad_pulse.Oracle.Metrics.{Counters}
use ad_pulse.Oracle.Compare.{Snapshot, compare, metric_map, association_map}
use ad_pulse.Oracle.Compare.Sound.{compare_iff}
use ad_pulse.Oracle.Normalize.Dedup.{normalize_dedup, event_keys, business_keys}
use ad_pulse.Oracle.Normalize.Lineage.{normalize_lineage, receipts_from, count_cleaned}
use ad_pulse.Oracle.Normalize.Total.{normalize_total, IsReadable}

abbrev rules : Rules
rules = record {
  rule_version = "rules-v1";
  policy_version = "policy-v1";
  schema_versions = 1 ∷ [];
  effective_from = 0;
  attribution_window_ms = 604800000;
  window_ms = 60000;
  field_mappings = [];
  filter_regions = "XX" ∷ [];
  document = obj end;
}

-- A stand-in for the hash function.
abbrev digest_text : String → String
digest_text s = s

abbrev event : String → String → ℕ → Fields → Value
event kind id time rest = obj (
    field "event_type" (str kind) (
      field "event_id" (str id) (
        field "event_time" (num time) (
          field "schema_version" (num 1) (
            field "advertiser_id" (str "a") (
              field "app_id" (str "p") (
                field "user_id" (str "u")
                  (field "campaign_id" (str "c") (field "app_version" (str "1.0") rest)))))))))

abbrev packet : String → ℕ → Value → Fields
packet receipt time e =
    field "receipt_id" (str receipt) (field "received_at" (num time) (field "event" e end))

abbrev seen_event : Value
seen_event = event "impression" "e1" 100 (
    field "impression_id" (str "i1")
      (field "experiment_id" (str "x") (field "variant" (str "b") end)))

abbrev click_event : Value
click_event =
    event "click" "e2" 200 (field "click_id" (str "k1") (field "impression_id" (str "i1") end))

abbrev conversion_event : Value
conversion_event = event "conversion" "e3" 300 (
    field "conversion_id" (str "v1") (
      field "click_id" (str "k1")
        (field "value_minor" (num 250) (field "currency" (str "USD") end))))

abbrev stream : List Fields
stream =
    packet "r0" 1000 seen_event
    ∷ packet "r1" 1001 click_event
    ∷ packet "r2" 1002 click_event
    ∷ packet "r3" 1003 conversion_event
    ∷ []

abbrev no_errors : Value → List String
no_errors v = []

abbrev state_of : Result State → State
state_of (ok st) = st
state_of (raise e) = start

unfoldable clean : State
unfolding normalize
clean = state_of (normalize no_errors rules stream)

clean_run : normalize no_errors rules stream ≡ ok clean
unfolding clean normalize ℕ_discrete String_discrete pair_dec
clean_run = refl

normalize_dedup_example :
    IsDistinct (event_keys clean.events) × IsDistinct (business_keys clean.events)
normalize_dedup_example = normalize_dedup no_errors rules stream clean_run

normalize_lineage_example :
    (map (λ (row : QualityRow). some row.receipt_id) clean.quality ≡ receipts_from 0 stream)
    × (length clean.events ≡ count_cleaned clean.quality)
normalize_lineage_example = normalize_lineage no_errors rules stream clean_run

clean_count : length clean.events ≡ 3
unfolding clean normalize accept mark member add event_key business_key ℕ_discrete String_discrete
    pair_dec
clean_count = refl

-- A validator that accepts one event, as `normalize` completes it.
abbrev accepted_click : Value
accepted_click = event "click" "e2" 200 (
    field "click_id" (str "k1")
      (field "impression_id" (str "i1") (field "received_at" (num 1001) end)))

abbrev only_click : Value → List String
only_click v = if v == accepted_click then [] else "refused" ∷ []

accepted_click_decodes : (receipt : Value) → (e : Event) × (decode receipt accepted_click ≡ some e)
unfolding decode String_discrete
accepted_click_decodes receipt = (_, refl)

only_click-IsReadable : IsReadable only_click
only_click-IsReadable receipt v h = elim (Bool-cases (v == accepted_click)) [
  | inl same ↦ let e : v ≡ accepted_click = ground arith in rw e (accepted_click_decodes receipt)
  | inr other ↦ absurd (ground arith)
]

normalize_total_example : (st : State) × (normalize only_click rules stream ≡ ok st)
unfolding get_field String_discrete
normalize_total_example =
    normalize_total only_click rules only_click-IsReadable stream
      ((λ _. (refl, refl)), ((λ _. (refl, refl)), ((λ _. (refl, refl)), ((λ _. (refl, refl)), tt))))

calculate_conservation_example :
    let out = calculate_from rules "r1" [] digest_text 4 clean in
    let IsHeld = λ (f : Counters → ℕ). IsCredited rules "r1" [] clean.events f out.metrics in
    All (IsKeyed rules "r1" []) out.metrics
    × IsHeld (λ c. c.impressions)
    × IsHeld (λ c. c.clicks)
    × IsHeld (λ c. c.matched_conversions)
    × IsHeld (λ c. c.unmatched_conversions)
    × IsHeld (λ c. c.value_minor)
    × (metric_sum (λ c. c.impressions) out.metrics ≡ 2 * length (impressions_of clean.events))
    × (metric_sum (λ c. c.clicks) out.metrics + length out.quality
        ≡ 3 * length (clicks_of clean.events) + length clean.quality)
    × (length out.associations ≡ length (conversions_of clean.events))
    × (metric_sum (λ c. c.matched_conversions) out.metrics
        ≡ 3 * sum_list matched_as out.associations)
    × (metric_sum (λ c. c.unmatched_conversions) out.metrics + sum_list matched_as out.associations
        ≡ length (conversions_of clean.events))
    × (metric_sum (λ c. c.value_minor) out.metrics
        ≡ hit_value rules (click_map clean.events) (conversions_of clean.events))
calculate_conservation_example =
    calculate_conservation rules "r1" [] digest_text 4 clean
      (normalize_dedup no_errors rules stream clean_run).1

attribution_lem_example :
    let clicks = click_map clean.events in
    let joined = (joins_of rules "r1" [] clean.events).joined in
    ((calculate_from rules "r1" [] digest_text 4 clean).associations
      ≡ sort_by
          (λ (a : Association). a.association_key)
          (map (outcome rules "r1" [] clicks joined) (conversions_of clean.events)))
    × ((v : Conversion)
        → ((outcome rules "r1" [] clicks joined v).is_match ≡ true) ↔ (
            (c : Click) × (lookup (key_with v.base v.click_id) clicks ≡ some c)
            × IsAttributable rules c v))
    × ((k : Key) (c : Click)
        → lookup k clicks ≡ some c
        → IsAmong c (clicks_of clean.events) × (click_key c ≡ k))
attribution_lem_example = attribution_lem rules "r1" [] digest_text 4 clean

abbrev shown : Snapshot
shown =
    let out = calculate_from rules "r1" [] digest_text 4 clean in
    record { metrics = out.metrics; associations = out.associations }

abbrev emptied : Snapshot
emptied = record shown { associations = [] }

compare_iff_example : ((compare shown emptied).passed ≡ true) ↔ (
    ((k : String)
      → lookup k (metric_map shown.metrics []) ≡ lookup k (metric_map emptied.metrics []))
    × ((k : String)
        → lookup k (association_map shown.associations [])
          ≡ lookup k (association_map emptied.associations [])))
compare_iff_example = compare_iff shown emptied
