-- ===== src/Reconciliation.antt =====
-- adpulse/reconciliation.py: the comparison of two streams of results in a table, and the run that
-- compares the oracle with what ClickHouse shows. The values of a metric are its counters by name, and
-- those of an association are what its four fields hold.
pub mod Texts
pub mod Differing
pub mod Values
pub mod Equivalent
pub mod Run
use ad_pulse.Prelude.{
  ℕ, zero, suc, ◌+◌, String, Bool, true, false, ◌&&◌, ◌||◌, not, List, [], ◌∷◌, ◌++◌, map, Option,
  none, some, if◌then◌else◌, ◌==◌, string_eq, pair_eq, option_eq, leb, length, Result, ok, raise,
  ◌>>=◌, ◌>>◌, raise_if, value_error, is_some,
}
use ad_pulse.Prelude.Dict.{Dict, lookup, insert}
use ad_pulse.Prelude.Sort.{text_le}
use ad_pulse.Json.{Value, num, str, arr, obj, nil, cons, Fields, end, field, canonical, value_eq}
use ad_pulse.Oracle.Metrics.{Counters, Metric}
use ad_pulse.Oracle.Calculate.{
  Association, Reason, matched, click_not_found, identity_mismatch, campaign_mismatch,
  click_after_conversion, attribution_window_exceeded,
}
use ad_pulse.Oracle.Compare.{Snapshot, Facts}
use ad_pulse.Dimensions.{truthy}

-- The rows of the two kinds, each by its business key.
pub record Rows : Type 0 where
  pub metrics : List (String × Fields)
  pub associations : List (String × Value)

-- `row["values"]` of the oracle, by name
unfoldable pub counters_fields : Counters → Fields
counters_fields c = field "impressions" (num c.impressions) (
    field "clicks" (num c.clicks) (
      field "matched_conversions" (num c.matched_conversions) (
        field "unmatched_conversions" (num c.unmatched_conversions) (
          field "converted_clicks" (num c.converted_clicks)
            (field "value_minor" (num c.value_minor) end)))))

abbrev pub counters_value : Counters → Value
counters_value c = obj (counters_fields c)

-- `any(value.values())`
unfoldable pub any_truthy : Fields → Bool
unfolding truthy
any_truthy end = false
any_truthy (field k v fs) = truthy v || any_truthy fs

abbrev pub reason_text : Reason → String
reason_text matched = "MATCHED"
reason_text click_not_found = "CLICK_NOT_FOUND"
reason_text identity_mismatch = "IDENTITY_MISMATCH"
reason_text campaign_mismatch = "CAMPAIGN_MISMATCH"
reason_text click_after_conversion = "CLICK_AFTER_CONVERSION"
reason_text attribution_window_exceeded = "ATTRIBUTION_WINDOW_EXCEEDED"

-- `[row[f] for f in ("status", "reason", "experiment_id", "variant")]`
unfoldable pub facts_value : Facts → Value
facts_value (is_match, (reason, (experiment_id, variant))) = arr (
    cons (str (if is_match then "matched" else "unmatched"))
      (cons (str (reason_text reason)) (cons (str experiment_id) (cons (str variant) nil))))

-- What the comparison reads of the oracle's results.
unfoldable pub rows_of : Snapshot → Rows
unfolding counters_fields facts_value
rows_of s = record {
  metrics = map (λ (m : Metric). (m.metric_key, counters_fields m.values)) s.metrics;
  associations =
      map
        (λ (a : Association).
          (a.association_key, facts_value (a.is_match, (a.reason, (a.experiment_id, a.variant)))))
        s.associations;
}

pub data Side : Type 0 where
  expected actual : Side

-- A row of `comparison`, by its kind and key.
pub record Cell : Type 0 where
  pub expected_text : Option String
  pub actual_text : Option String

abbrev pub Table : Type 0
Table = Dict (String × String) Cell

abbrev pub empty_cell : Cell
empty_cell = record { expected_text = none; actual_text = none }

abbrev pub cell_in : Option Cell → Cell
cell_in none = empty_cell
cell_in (some c) = c

abbrev pub text_on : Side → Cell → Option String
text_on expected c = c.expected_text
text_on actual c = c.actual_text

abbrev pub with_text : Side → String → Cell → Cell
with_text expected t c = record c { expected_text = some t }
with_text actual t c = record c { actual_text = some t }

-- `if prior ...: raise`, and the upsert
unfoldable pub put_row : Side → String × String → String → Table → Result Table
unfolding lookup insert
put_row side key text table = do
  raise_if (is_some (text_on side (cell_in (lookup key table))))
      (value_error "Duplicate business result key")
  ok (insert key (with_text side text (cell_in (lookup key table))) table)

unfoldable pub put_metrics : Side → List (String × Fields) → Table → Result Table
unfolding put_row any_truthy
put_metrics side [] table = ok table
put_metrics side ((key, values) ∷ l) table =
    if any_truthy values
    then (put_row side ("metrics", key) (canonical (obj values)) table >>= λ table'.
        put_metrics side l table')
    else put_metrics side l table

unfoldable pub put_associations : Side → List (String × Value) → Table → Result Table
unfolding put_row
put_associations side [] table = ok table
put_associations side ((key, value) ∷ l) table = do
  table' ← put_row side ("associations", key) (canonical value) table
  put_associations side l table'

-- `expected IS NOT actual`
abbrev pub differs : Cell → Bool
differs c = not (c.expected_text == c.actual_text)

unfoldable pub differing : Table → List ((String × String) × Cell)
differing [] = []
differing ((key, c) ∷ l) = let rest = differing l in if differs c then (key, c) ∷ rest else rest

-- `ORDER BY kind,key`
abbrev pub before : (String × String) × Cell → (String × String) × Cell → Bool
before (k, _) (j, _) = if k.0 == j.0 then text_le k.1 j.1 else text_le k.0 j.0

unfoldable pub place_row :
    (String × String) × Cell → List ((String × String) × Cell) → List ((String × String) × Cell)
place_row r [] = r ∷ []
place_row r (s ∷ l) = if before r s then r ∷ s ∷ l else s ∷ place_row r l

unfoldable pub order_rows : List ((String × String) × Cell) → List ((String × String) × Cell)
unfolding place_row
order_rows [] = []
order_rows (r ∷ l) = place_row r (order_rows l)

unfoldable pub take_rows : {A : Type 0} → ℕ → List A → List A
take_rows zero l = []
take_rows (suc n) [] = []
take_rows (suc n) (x ∷ l) = x ∷ take_rows n l

pub record Sample : Type 0 where
  pub kind : String
  pub key : String
  pub expected_value : Option Value
  pub actual_value : Option Value

pub record Report : Type 0 where
  pub passed : Bool
  pub differences : List Sample
  pub difference_count : ℕ
  pub sample_limit : ℕ
  pub expected_metrics : ℕ
  pub expected_associations : ℕ
  pub actual_metrics : ℕ
  pub actual_associations : ℕ

module _ (loads : String → Result Value) where
  -- `json.loads(e) if e is not None else None`
  unfoldable pub decode_text : Option String → Result (Option Value)
  decode_text none = ok none
  decode_text (some t) = do v ← loads t; ok (some v)

  unfoldable pub samples_of : List ((String × String) × Cell) → Result (List Sample)
  unfolding decode_text
  samples_of [] = ok []
  samples_of ((key, c) ∷ l) = do
    e ← decode_text c.expected_text
    a ← decode_text c.actual_text
    rest ← samples_of l
    ok (record { kind = key.0; key = key.1; expected_value = e; actual_value = a } ∷ rest)

  -- The table after the four loops.
  unfoldable pub filled : Rows → Rows → Result Table
  unfolding put_metrics put_associations
  filled left right = do
    t₁ ← put_metrics expected left.metrics []
    t₂ ← put_associations expected left.associations t₁
    t₃ ← put_metrics actual right.metrics t₂
    put_associations actual right.associations t₃

  -- `compare_streams`
  unfoldable pub compare_streams : Rows → Rows → ℕ → Result Report
  unfolding filled samples_of take_rows order_rows differing
  compare_streams left right limit = do
    raise_if (not (leb limit 1000)) (value_error "Invalid difference sample budget")
    table ← filled left right
    samples ← samples_of (take_rows limit (order_rows (differing table)))
    ok (record {
      passed = leb (length (differing table)) 0;
      differences = samples;
      difference_count = length (differing table);
      sample_limit = limit;
      expected_metrics = length left.metrics;
      expected_associations = length left.associations;
      actual_metrics = length right.metrics;
      actual_associations = length right.associations;
    })
