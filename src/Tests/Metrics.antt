-- ===== src/Tests/Metrics.antt =====
-- adpulse/inspection.py: the totals of two rows with the same series.
use ad_pulse.Prelude.{
  ◌≤◌, String, ◌≡◌, refl, List, [], ◌∷◌, Result, ok, none, String_discrete, pair_dec, ℕ_discrete,
  string_eq, pair_eq,
}
use ad_pulse.Prelude.Dict.{lookup}
use ad_pulse.Json.{Value, str, num, obj, Fields, end, field, Value_discrete}
use ad_pulse.Inspection.Metrics.{
  Series, max_series, or_zero, totals_from, Answers, operational_metrics, whole, fraction,
}
use ad_pulse.Inspection.Metrics.Totals.{Measured, measured_rows, total, totals_lem}

abbrev row : Value
row = obj (
    field "cohort_basis" (str "click") (
      field "variant" (str "b") (
        field "currency" (str "ALL") (
          field "campaign_id" (str "c") (
            field "region" (str "US") (
              field "app_version" (str "1.0") (
                field "values" (obj (field "clicks" (num 2) (field "impressions" (num 3) end)))
                  end)))))))

abbrev loads : String → Result Value
loads t = ok row

abbrev results : List Fields
results = field "payload" (str "p") end ∷ field "payload" (str "p") end ∷ []

abbrev clicks : Series
clicks = ("r1", ("click", ("b", ("ALL", ("clicks", ("c", ("US", "1.0")))))))

abbrev impressions : Series
impressions = ("r1", ("click", ("b", ("ALL", ("impressions", ("c", ("US", "1.0")))))))

totals_run : totals_from loads "r1" results [] ≡ ok ((clicks, 4) ∷ (impressions, 6) ∷ [])
unfolding totals_from String_discrete pair_dec
totals_run = refl

totals_lem_example :
    (2 ≤ max_series)
    × ((l : Measured) × ((measured_rows loads "r1" results ≡ ok l)
          × ((key : Series)
              → or_zero (lookup key ((clicks, 4) ∷ (impressions, 6) ∷ [])) ≡ total key l)))
totals_lem_example = totals_lem loads "r1" results totals_run

abbrev answers : Answers
answers = record {
  jobs = ok (field "state" (str "RUNNING") (field "name" (str "AdPulse metrics") end) ∷ []);
  active = none;
  results = λ release. [];
  pending = λ release. end;
  freshness = λ release. end;
  quality = [];
  accepted = field "n" (num 5) end;
  outstanding = field "n" (num 1) (field "oldest" (num 900) end);
}

metrics_run :
    operational_metrics loads 1000 answers
    ≡ ok (
      record { gauge = "adpulse_flink_running_jobs"; labels = []; amount = whole 1 }
          ∷ record { gauge = "adpulse_acknowledged_records"; labels = []; amount = whole 5 }
          ∷ record { gauge = "adpulse_lineage_pending_records"; labels = []; amount = whole 1 }
          ∷ record {
            gauge = "adpulse_lineage_oldest_pending_seconds";
            labels = [];
            amount = fraction 100 1000;
          }
          ∷ [],
      none,
    )
unfolding operational_metrics Value_discrete String_discrete ℕ_discrete
metrics_run = refl
