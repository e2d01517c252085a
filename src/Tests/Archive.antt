-- ===== src/Tests/Archive.antt =====
-- adpulse/archive.py and adpulse/archive_index.py: one raw packet with its receipt manifest, and a
-- stream of two lines in three blocks.
use ad_pulse.Prelude.{
  ◌+◌, ◌≤◌, String, ◌≡◌, refl, true, false, List, [], ◌∷◌, Result, ok, raise, All, OnOk, length,
  string_eq, nat_eq, ℕ_discrete, String_discrete, option_dec,
}
use ad_pulse.Prelude.Dict.{lookup, insert}
use ad_pulse.Prelude.Distinct.{member, add}
use ad_pulse.Json.{
  Value, str, num, arr, obj, Fields, end, field, nil, cons, canonical, digest, get_field,
  Value_discrete,
}
use ad_pulse.Archive.Reconcile.{Archived, Coverage, reconcile, manifests_of}
use ad_pulse.Archive.Reconcile.Complete.{reconcile_complete, IsCovered}
use ad_pulse.Prelude.{ℕ, some}
use ad_pulse.Archive.Objects.{Objects, put_first, puts_of}
use ad_pulse.Archive.Objects.Commit.{archive_batch_commit, IsBacked}
use ad_pulse.Archive.Index.{AckRef, IndexRow, Report, index_coverage}
use ad_pulse.Archive.Index.Coverage.{index_coverage_complete, IsCoverage}
use ad_pulse.Archive.Chunks.{Bytes, chunks}
use ad_pulse.Archive.Chunks.Lines.{chunks_lem, AreLines, flatten}

abbrev hash : String → String
hash s = s

abbrev packet : Value
packet = obj (field "receipt_id" (str "b:0") (field "event" (num 1) end))

abbrev reference : Fields
reference = field "receipt_id" (str "b:0") (
    field "topic" (str "adpulse.raw") (
      field "partition" (num 2)
        (field "offset" (num 5) (field "sha256" (str (digest hash packet)) end))))

abbrev manifest : Value
manifest = obj (
    field "count" (num 1) (
      field "receipt_ids" (arr (cons (str "b:0") nil))
        (field "records" (arr (cons (obj reference) nil)) end)))

abbrev records : List Archived
records =
    record { topic = "adpulse.raw"; partition = 2; offset = 5; value = packet }
    ∷ record { topic = "adpulse.receipts"; partition = 0; offset = 0; value = manifest }
    ∷ []

abbrev quality : List Fields
quality = field "receipt_id" (str "b:0") (field "disposition" (str "cleaned") end) ∷ []

abbrev no_coverage : Coverage
no_coverage = record {
  acknowledged = 0;
  archived = 0;
  archive_missing = [];
  classified = 0;
  processing_pending = [];
  archive_complete = false;
  lineage_complete = false;
}

abbrev coverage_of : Result Coverage → Coverage
coverage_of (ok r) = r
coverage_of (raise e) = no_coverage

unfoldable covered : Coverage
unfolding reconcile
covered = coverage_of (reconcile hash records quality [])

covered_run : reconcile hash records quality [] ≡ ok covered
unfolding covered reconcile digest canonical get_field lookup insert member add Value_discrete
    String_discrete ℕ_discrete option_dec
covered_run = refl

covered_complete : covered.archive_complete ≡ true
unfolding covered reconcile digest canonical get_field lookup insert member add Value_discrete
    String_discrete ℕ_discrete option_dec
covered_complete = refl

reconcile_complete_example :
    (covered.archived + length covered.archive_missing ≡ covered.acknowledged)
    × (covered.classified + length covered.processing_pending ≡ covered.acknowledged)
    × (covered.archive_complete ≡ true → All (IsCovered hash records) (manifests_of records))
reconcile_complete_example = reconcile_complete hash records quality [] covered_run

abbrev blocks : List Bytes
blocks = (65 ∷ 66 ∷ []) ∷ (10 ∷ 67 ∷ []) ∷ (68 ∷ []) ∷ []

chunks_lem_example :
    AreLines 4 (chunks 4 9 blocks)
    × OnOk
        (λ _. (flatten (chunks 4 9 blocks).pieces ≡ flatten blocks) × (length (flatten blocks) ≤ 9))
        (chunks 4 9 blocks).outcome
chunks_lem_example = chunks_lem 4 9 blocks

blocks_lines : (chunks 4 9 blocks).pieces ≡ (65 ∷ 66 ∷ 10 ∷ []) ∷ (67 ∷ 68 ∷ []) ∷ []
unfolding chunks ℕ_discrete
blocks_lines = refl

archive_batch_commit_example :
    ((n : ℕ) (d' : Objects)
      → put_first hash n (puts_of hash records) [] ≡ ok d'
      → ((k v : String) → lookup k [] ≡ some v → lookup k d' ≡ some v)
        × (IsBacked hash records [] → IsBacked hash records d'))
    × ((d' : Objects)
        → put_first hash 2 (puts_of hash records) [] ≡ ok d'
        → put_first hash 2 (puts_of hash records) d' ≡ ok d')
archive_batch_commit_example = archive_batch_commit hash records []

abbrev acked : AckRef
acked = record { topic = "adpulse.raw"; part = 2; off = 5; hash = digest hash packet }

abbrev index_rows : List IndexRow
index_rows = record { ref = acked; receipt = some "b:0"; is_raw = true } ∷ []

abbrev no_loads : String → Result Value
no_loads s = ok (str s)

abbrev empty_report : Report
empty_report = record {
  acknowledged = 0;
  archived = 0;
  classified = 0;
  archive_missing_count = 0;
  processing_pending_count = 0;
  archive_missing = [];
  processing_pending = [];
  archive_complete = false;
  lineage_complete = false;
}

abbrev report_in : Result Report → Report
report_in (ok r) = r
report_in (raise e) = empty_report

unfoldable indexed : Report
unfolding index_coverage
indexed =
    report_in
      (index_coverage hash no_loads index_rows (("b:0", acked) ∷ []) ("b:1" ∷ []) quality 100)

indexed_run :
    index_coverage hash no_loads index_rows (("b:0", acked) ∷ []) ("b:1" ∷ []) quality 100
    ≡ ok indexed
unfolding indexed index_coverage digest canonical get_field lookup insert member add Value_discrete
    String_discrete ℕ_discrete option_dec
indexed_run = refl

index_coverage_complete_example : IsCoverage index_rows (("b:0", acked) ∷ []) indexed
index_coverage_complete_example =
    index_coverage_complete hash no_loads index_rows (("b:0", acked) ∷ []) ("b:1" ∷ []) quality 100
      indexed_run
