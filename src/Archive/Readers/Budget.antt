-- ===== src/Archive/Readers/Budget.antt =====
-- The limits of `trace` and `quality` (adpulse/archive_index.py) cut nothing off in silence.
use ad_pulse.Prelude.{
  ℕ, zero, suc, ◌+◌, ◌≤◌, String, ◌≡◌, refl, ap, Bool, true, false, List, [], ◌∷◌, map,
  if◌then◌else◌, leb, length, Result, ok, raise, ◌>>=◌, Exception, value_error, arith, Bool-cases,
  inl, inr,
}
use ad_pulse.Prelude.Dict.{Dict, values}
use ad_pulse.Prelude.Sort.{sort_by}
use ad_pulse.Json.{Value}
use ad_pulse.Archive.Index.{is_raw_for}
use ad_pulse.Archive.Refresh.{Entry, Index}
use ad_pulse.Archive.Readers.{
  first_rows, within, decode_rows, where_rows, payloads_for, trace, quality,
}

module _ {A : Type 0} where
  first_rows_all : (n : ℕ) (l : List A) → length l ≤ n → first_rows n l ≡ l
  unfolding first_rows
  first_rows_all zero [] h = refl
  first_rows_all zero (x ∷ l) h = absurd (omega arith)
  first_rows_all (suc n) [] h = refl
  first_rows_all (suc n) (x ∷ l) h = ap (λ r. x ∷ r) (first_rows_all n l (omega arith))

  length-first_rows : (n : ℕ) (l : List A) → n ≤ length l → length (first_rows n l) ≡ n
  unfolding first_rows
  length-first_rows zero l h = refl
  length-first_rows (suc n) [] h = absurd (omega arith)
  length-first_rows (suc n) (x ∷ l) h = omega (arith, length-first_rows n l (omega arith))

  within-first_rows :
      (limit : ℕ) (message : String) (l : List A)
      → within limit message (first_rows (limit + 1) l)
        ≡ (if leb (length l) limit then ok l else raise (value_error message))
  unfolding within
  within-first_rows limit message l = elim (Bool-cases (leb (length l) limit)) [
    | inl fits ↦ rw (first_rows_all (limit + 1) l (ground arith), fits) (ground arith)
    | inr over ↦ rw over (
        let n : length (first_rows (limit + 1) l) ≡ limit + 1 =
          length-first_rows (limit + 1) l (ground arith) in
        ground arith)
  ]

pull :
    {A B : Type 0} (b : Bool) (a : A) (e : Exception) (k : A → Result B)
    → ((if b then ok a else raise e) >>= k) ≡ (if b then k a else raise e)
pull true a e k = refl
pull false a e k = refl

-- A receipt's trace is the archived rows of the raw records with the receipt, if there are at most
-- `limit` of them, and otherwise an error; and its quality rows are all the payloads that the index
-- has for it, in the order of their hashes, if there are at most `quality_limit` of them, and otherwise an
-- error.
pub trace_lem :
    (loads : String → Result Value) (receipt : String) (limit quality_limit : ℕ) (index : Index)
    (trace_quality : Dict (String × String) String)
    → let rows = where_rows (λ e. is_raw_for receipt e.row) (values index.records) in
      let payloads = sort_by (λ (p : String × String). p.0) (payloads_for receipt trace_quality) in
      (trace loads receipt limit index ≡ (
        if leb (length rows) limit
        then decode_rows loads (map (λ (e : Entry). e.row_json) rows)
        else raise (value_error "Trace exceeds source identity budget")))
      × (quality loads receipt quality_limit trace_quality ≡ (
          if leb (length payloads) quality_limit
          then decode_rows loads (map (λ (p : String × String). p.1) payloads)
          else raise (value_error "Trace exceeds quality record budget")))
unfolding trace quality
trace_lem loads receipt limit quality_limit index trace_quality =
    let rows = where_rows (λ e. is_raw_for receipt e.row) (values index.records) in
    let payloads = sort_by (λ (p : String × String). p.0) (payloads_for receipt trace_quality) in
    (
      rw (within-first_rows limit "Trace exceeds source identity budget" rows) (
          pull (leb (length rows) limit) rows (value_error "Trace exceeds source identity budget")
            _),
      rw (within-first_rows quality_limit "Trace exceeds quality record budget" payloads) (
          pull (leb (length payloads) quality_limit) payloads
            (value_error "Trace exceeds quality record budget") _),
    )
