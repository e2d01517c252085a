-- ===== src/Reconciliation/Run/Passed.antt =====
-- When a run passes.
use ad_pulse.Prelude.{String, ◌≡◌, some, ◌↔◌, Bool, true, ◌&&◌, List, Result, ok}
use ad_pulse.Prelude.Dict.{Dict}
use ad_pulse.Json.{Value}
use ad_pulse.Archive.Chunks.{Bytes}
use ad_pulse.Archive.Refresh.{Index}
use ad_pulse.Oracle.Event.{Rules}
use ad_pulse.Reconciliation.{Report, Rows, compare_streams}
use ad_pulse.Reconciliation.Run.{
  Database, Outcome, coverage, expected_table, expected_results, actual_results, compare_results,
}

module _ (sha256 : String → String) (sha256_bytes : Bytes → String) (loads : String → Result Value)
    (loads_bytes : Bytes → Result Value) (errors : Value → List String) (rules : Rules) where
  abbrev compared : Index → Database → String → List String → Result Report
  compared = compare_results sha256 sha256_bytes loads loads_bytes errors rules

  -- The oracle's results of the packets of the index, all that the index, the database and the caller
  -- know of, agree with the rows that ClickHouse answers, and this is the comparison.
  abbrev pub IsAgreed : Index → Database → String → List String → Report → Type 0
  IsAgreed index db release receipts c =
      (known : List String) × (left : Rows) × (right : Rows) × (expected_table index db receipts
        ≡ ok known)
      × (expected_results sha256 sha256_bytes loads loads_bytes errors rules known index release
          ≡ ok left)
      × (actual_results loads db release ≡ ok right)
      × (compare_streams loads left right 100 ≡ ok c)
      × (c.passed ≡ true)

  -- What is said of an outcome.
  abbrev Explains : Index → Database → String → List String → Outcome → Type 0
  Explains index db release receipts r =
      (coverage loads sha256 index db receipts ≡ ok r.completeness)
      × ((r.passed ≡ true) ↔ (
          ((r.completeness.archive_complete && r.completeness.lineage_complete) ≡ true)
          × ((c : Report) × (IsAgreed index db release receipts c × (r.comparison ≡ some c)))))
