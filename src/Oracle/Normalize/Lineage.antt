-- ===== src/Oracle/Normalize/Lineage.antt =====
-- Every record that `normalize` reads leaves one lineage row, and the loop does not fail on
-- well-formed packets.
use mathlib.Core.List.{map-append, append_assoc, append-nil}
use mathlib.Core.Path.{subst}
use ad_pulse.Prelude.{
  ℕ, suc, ◌+◌, String, ◌≡◌, refl, List, [], ◌∷◌, ◌++◌, map, Option, some, ok, >>=-eq-ok, arith,
  length, sym, ok-injective, ap, if◌then◌else◌, length-append,
}
use ad_pulse.Json.{Value, Fields, get_field}
use ad_pulse.Oracle.Event.{Event, Rules, base_of}
use ad_pulse.Oracle.Normalize.{
  State, QualityRow, start, packet_of, log, mark, accept, normalize_step, normalize_from, normalize,
}
use ad_pulse.Oracle.Normalize.Cases.{
  Admission, logged, marked, accepted, admit-Admission, is_cleaned, Outcome, rejected, admitted,
  normalize_step-Outcome,
}

-- The receipts of the packets, the one of the record `n` first.
abbrev pub receipts_from : ℕ → List Fields → List (Option Value)
receipts_from n [] = []
receipts_from n (raw ∷ records) =
    get_field "receipt_id" (packet_of n raw) ∷ receipts_from (suc n) records

abbrev pub count_cleaned : List QualityRow → ℕ
count_cleaned [] = 0
count_cleaned (row ∷ l) = (if is_cleaned row.disposition then 1 else 0) + count_cleaned l

count_cleaned-append :
    (l r : List QualityRow) → count_cleaned (l ++ r) ≡ count_cleaned l + count_cleaned r
count_cleaned-append [] r = omega arith
count_cleaned-append (x ∷ l) r = omega (arith, count_cleaned-append l r)

-- One row was added, under this receipt, and an event if that row says so.
record Added (receipt : Value) (st st' : State) : Type 0 where
  row : QualityRow
  rows : st'.quality ≡ st.quality ++ row ∷ []
  receipt_of : row.receipt_id ≡ receipt
  events : length st'.events ≡ length st.events + (if is_cleaned row.disposition then 1 else 0)

Admission-Added :
    (st st' : State) (e : Event) → Admission st e st' → Added (base_of e).receipt_id st st'
unfolding log mark accept
Admission-Added st st' e (logged row r c eq) = record {
  row = row;
  rows = ap (λ (s : State). s.quality) eq;
  receipt_of = r;
  events = rw (eq, c) (omega arith);
}
Admission-Added st st' e (marked row r c eq) = record {
  row = row;
  rows = ap (λ (s : State). s.quality) eq;
  receipt_of = r;
  events = rw (eq, c) (omega arith);
}
Admission-Added st st' e (accepted row r c i k eq) = record {
  row = row;
  rows = ap (λ (s : State). s.quality) eq;
  receipt_of = r;
  events = rw (eq, c) (length-append st.events (e ∷ []));
}

Outcome-Added :
    (rules : Rules) (receipt : Value) (st st' : State)
    → Outcome rules receipt st st'
    → Added receipt st st'
unfolding log
Outcome-Added rules receipt st st' (rejected row r c eq) = record {
  row = row;
  rows = ap (λ (s : State). s.quality) eq;
  receipt_of = r;
  events = rw (eq, c) (omega arith);
}
Outcome-Added rules receipt st st' (admitted id e r eq) =
    subst (λ v. Added v st st') r
      (Admission-Added st st' e (subst (Admission st e) (sym eq) (admit-Admission rules st id e)))

abbrev receipts_of : List QualityRow → List (Option Value)
receipts_of = map (λ row. some row.receipt_id)

-- What the state accounts for.
record Accounts (before : List (Option Value)) (st : State) : Type 0 where
  receipts : receipts_of st.quality ≡ before
  events : length st.events ≡ count_cleaned st.quality

Added-Accounts :
    (receipt : Value) (before : List (Option Value)) (st st' : State)
    → Added receipt st st'
    → Accounts before st
    → Accounts (before ++ some receipt ∷ []) st'
Added-Accounts receipt before st st' a h = record {
  receipts = rw (a.rows, map-append, h.receipts, a.receipt_of);
  events =
      rw a.rows (omega (arith, a.events, h.events, count_cleaned-append st.quality (a.row ∷ [])));
}

module _ (errors : Value → List String) (rules : Rules) where
  normalize_from-Accounts :
      (before : List (Option Value)) (st : State) (n : ℕ) (records : List Fields) {st' : State}
      → Accounts before st
      → normalize_from errors rules st n records ≡ ok st'
      → Accounts (before ++ receipts_from n records) st'
  unfolding normalize_from
  normalize_from-Accounts before st n [] h r =
      rw append-nil (subst (Accounts before) (ok-injective r) h)
  normalize_from-Accounts before st n (raw ∷ records) h r =
      let (st₁, r₁, r₂) = >>=-eq-ok (normalize_step errors rules st n raw) _ r in
      let (receipt, found, out) = normalize_step-Outcome errors rules st n raw r₁ in
      let step =
        normalize_from-Accounts (before ++ some receipt ∷ []) st₁ (suc n) records
          (Added-Accounts receipt before st st₁ (Outcome-Added rules receipt st st₁ out) h) r₂ in
      rw found (rw append_assoc at step)

  -- When `normalize` returns, its in-order lineage rows carry exactly the receipts of the packets,
  -- one row for each record, and the events that it keeps are as many as the rows `cleaned`.
  pub normalize_lineage :
      (records : List Fields) {st : State}
      → normalize errors rules records ≡ ok st
      → (map (λ (row : QualityRow). some row.receipt_id) st.quality ≡ receipts_from 0 records)
        × (length st.events ≡ count_cleaned st.quality)
  unfolding normalize
  normalize_lineage records r =
      let h =
        normalize_from-Accounts [] start 0 records (record { receipts = refl; events = refl }) r in
      (h.receipts, h.events)
