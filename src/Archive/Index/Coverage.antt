-- ===== src/Archive/Index/Coverage.antt =====
-- What the coverage report of the index promises.
use mathlib.Core.Path.{subst}
use ad_pulse.Prelude.{
  ℕ, ◌+◌, ◌≤◌, String, ◌≡◌, refl, Bool, true, false, ◌&&◌, not, List, [], ◌∷◌, some, ◌==◌,
  string_eq, option_eq, Result, ok, >>=-eq-ok, raise_if-eq-ok, ok-injective, ◌⊎◌, inl, inr, arith,
  length, Bool-cases,
}
use ad_pulse.Prelude.Dict.{Dict, lookup, keys}
use ad_pulse.Prelude.Distinct.{member}
use ad_pulse.Json.{Value, Fields}
use ad_pulse.Archive.Reconcile.{add_all, missing, no_text}
use ad_pulse.Archive.Reconcile.Complete.{length-found-missing, member-add_all_new, and_true}
use ad_pulse.Archive.Index.{
  AckRef, IndexRow, same_ref, any_row, is_raw_for, has_conflict, unarchived, Report, report_of,
  lineage_from, index_coverage,
}

abbrev pub IsRowOf : IndexRow → List IndexRow → Type 0
IsRowOf r [] = ⊥
IsRowOf r (q ∷ l) = (r ≡ q) ⊎ IsRowOf r l

no_other : (a b : Bool) → a ≡ true → (a && not b) ≡ false → b ≡ true
no_other a b t e = ground arith

any_row_found :
    (p : IndexRow → Bool) (l : List IndexRow)
    → any_row p l ≡ true
    → (r : IndexRow) × IsRowOf r l × (p r ≡ true)
unfolding any_row
any_row_found p [] e = absurd (cc)
any_row_found p (q ∷ l) e = elim (Bool-cases (p q)) [
  | inl t ↦ (q, inl refl, t)
  | inr n ↦ let (r, there, t) = any_row_found p l (rw n at e) in (r, inr there, t)
]

any_row_none :
    (p : IndexRow → Bool) (l : List IndexRow) (r : IndexRow)
    → any_row p l ≡ false
    → IsRowOf r l
    → p r ≡ false
unfolding any_row
any_row_none p [] r e h = absurd h
any_row_none p (q ∷ l) r e (inl same) = rw same (ground arith)
any_row_none p (q ∷ l) r e (inr there) = any_row_none p l r (ground arith) there

length-unarchived :
    (records : List IndexRow) (l : List String) → length (unarchived records l) ≤ length l
unfolding unarchived
length-unarchived records [] = omega arith
length-unarchived records (x ∷ l) = ground (arith, length-unarchived records l)

unarchived_none :
    (records : List IndexRow) (l : List String) (k : String)
    → no_text (unarchived records l) ≡ true
    → member k l ≡ true
    → any_row (is_raw_for k) records ≡ true
unfolding unarchived no_text member
unarchived_none records [] k e m = ground arith
unarchived_none records (x ∷ l) k e m = ground (arith, unarchived_none records l k)

member-keys :
    (refs : Dict String AckRef) (k : String) (ref : AckRef)
    → lookup k refs ≡ some ref
    → member k (keys refs) ≡ true
unfolding lookup member
member-keys [] k ref e = ground arith
member-keys ((j, v) ∷ d) k ref e = ground (arith, member-keys d k ref)

has_conflict_none :
    (refs : Dict String AckRef) (records : List IndexRow) (k : String) (ref : AckRef)
    → has_conflict refs records ≡ false
    → lookup k refs ≡ some ref
    → any_row (λ r. is_raw_for k r && not (same_ref ref r.ref)) records ≡ false
unfolding has_conflict lookup
has_conflict_none [] records k ref c e = absurd (cc)
has_conflict_none ((j, v) ∷ d) records k ref c e = elim (Bool-cases (k == j)) [
  | inl same ↦
      let p : j ≡ k = ground arith in
      let q : v ≡ ref = ground arith in
      let head : any_row (λ r. is_raw_for j r && not (same_ref v r.ref)) records ≡ false =
        ground arith in
      subst (λ x. any_row (λ r. is_raw_for x r && not (same_ref ref r.ref)) records ≡ false) p
        (subst (λ y. any_row (λ r. is_raw_for j r && not (same_ref y r.ref)) records ≡ false) q
          head)
  | inr other ↦ has_conflict_none d records k ref (ground arith) (ground arith)
]

-- The acknowledged receipt has a raw record at the acknowledged place, with the same hash.
abbrev pub IsIndexed : List IndexRow → String → AckRef → Type 0
IsIndexed records receipt ref =
    (r : IndexRow) × IsRowOf r records × (is_raw_for receipt r ≡ true) × (same_ref ref r.ref ≡ true)

-- The counts add up, and in a complete archive every acknowledgement has its record.
abbrev pub IsCoverage : List IndexRow → Dict String AckRef → Report → Type 0
IsCoverage records refs r =
    (r.archived + r.archive_missing_count ≡ r.acknowledged)
    × (r.classified + r.processing_pending_count ≡ r.acknowledged)
    × (r.archive_complete ≡ true
        → (receipt : String) (ref : AckRef) → lookup receipt refs ≡ some ref
        → IsIndexed records receipt ref)

report_of-IsCoverage :
    (records : List IndexRow) (refs : Dict String AckRef) (expected : List String)
    (dispositions : Dict String String) (limit : ℕ)
    → has_conflict refs records ≡ false
    → let receipts = add_all (keys refs) (add_all expected []) in
      IsCoverage records refs
        (report_of limit receipts (unarchived records receipts) (missing dispositions receipts))
unfolding report_of
report_of-IsCoverage records refs expected dispositions limit clear =
    let receipts : List String = add_all (keys refs) (add_all expected []) in
    (
      omega (arith, length-unarchived records receipts),
      omega (arith, length-found-missing dispositions receipts),
      λ complete receipt ref f.
          let known =
            member-add_all_new (keys refs) (add_all expected []) receipt
              (member-keys refs receipt ref f) in
          let (r, there, raw) = any_row_found (is_raw_for receipt) records (
            unarchived_none records receipts receipt (and_true (not (no_text receipts)) _ complete)
              known) in
          (
            r,
            there,
            raw,
            no_other _ _ raw (
                any_row_none _ records r (has_conflict_none refs records receipt ref clear f)
                  there),
          ),
    )

-- If `coverage` returns, then the archived and the missing receipts make up the acknowledged ones,
-- so do the classified and the pending ones, and if it reports the archive complete, then every
-- acknowledgement in the index has a raw record with its receipt, its topic, partition and offset,
-- and its hash.
pub index_coverage_complete :
    (sha256 : String → String) (loads : String → Result Value) (records : List IndexRow)
    (refs : Dict String AckRef) (expected : List String) (lineage : List Fields) (limit : ℕ)
    {r : Report}
    → index_coverage sha256 loads records refs expected lineage limit ≡ ok r
    → IsCoverage records refs r
unfolding index_coverage
index_coverage_complete sha256 loads records refs expected lineage limit e =
    let (_, r₁) = raise_if-eq-ok _ _ _ e in
    let (t, _, r₂) =
      >>=-eq-ok
        (lineage_from sha256 loads lineage (record { dispositions = []; trace_quality = [] })) _
        r₁ in
    let (clear, r₃) = raise_if-eq-ok _ _ _ r₂ in
    let (_, r₄) = raise_if-eq-ok _ _ _ r₃ in
    subst (IsCoverage records refs) (ok-injective r₄)
      (report_of-IsCoverage records refs expected t.dispositions limit clear)
