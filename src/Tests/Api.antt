-- ===== src/Tests/Api.antt =====
-- The theorems on the endpoints that answer from snapshots, and on the rates of metrics, at
-- concrete inputs.
use ad_pulse.Prelude.{
  map, String, ◌≡◌, refl, [], ◌∷◌, none, some, String_discrete, ℕ_discrete, Result, ok, raise, All,
  os_error,
}
use ad_pulse.Json.{Value, num, str, obj, Fields, end, field, Value_discrete}
use ad_pulse.Inspection.{Files, result_of}
use ad_pulse.Api.Inspected.{Opened, quality, completeness, trace}
use ad_pulse.Api.Inspected.Fresh.{FromFresh, IsQuality, IsCompleteness, IsTraced, answers_fresh}
use ad_pulse.Api.Rows.{MetricRow, all_with_ratios}
use ad_pulse.Api.Rows.Ratios.{IsRated, rows-IsRated}

abbrev snapshot : Fields
snapshot =
    result_of "coverage" (obj end)
      (record { started_at = 90; generated_at = 100; finished_at = 101 }) none

abbrev files : Files
files = ("coverage.json", "{}") ∷ []

-- `json.loads` at the text of the file
abbrev loads : String → Result Value
loads t = ok (obj snapshot)

abbrev no_index : Result Opened
no_index = raise (os_error "unable to open database file")

answers_fresh_example :
    ((v : Value)
      → quality loads 150 files ≡ ok v
      → FromFresh loads 150 files (IsQuality loads 150 files) v)
    × ((v : Value)
        → completeness loads 150 files ≡ ok v
        → FromFresh loads 150 files (IsCompleteness loads 150 files) v)
    × ((v : Value)
        → trace loads 150 files "r" no_index ≡ ok v
        → FromFresh loads 150 files (IsTraced loads 150 files "r" no_index) v)
answers_fresh_example = answers_fresh loads 150 files "r" no_index

abbrev metric : Fields
metric = field "cohort_basis" (str "impression") (
    field "experiment_id" (str "unknown") (
      field "values"
        (obj (
          field "impressions" (num 8)
            (field "clicks" (num 2) (field "converted_clicks" (num 0) end))))
        end))

abbrev rated : MetricRow
rated = record { row = metric; ctr = some (2, 8); cvr = none; quality_status = "missing_exposure" }

all_with_ratios_run : all_with_ratios (metric ∷ []) ≡ ok (rated ∷ [])
unfolding all_with_ratios String_discrete ℕ_discrete Value_discrete
all_with_ratios_run = refl

rows-IsRated_example :
    All IsRated (rated ∷ []) × (map (λ (r : MetricRow). r.row) (rated ∷ []) ≡ metric ∷ [])
rows-IsRated_example = rows-IsRated (metric ∷ []) all_with_ratios_run
