-- ===== src/Archive/Index.antt =====
-- adpulse/archive_index.py, `ArchiveIndex._acknowledgements` and `coverage`, over the tables of the
-- index. `loads` is `json.loads` on the payload of a quality row. Receipts are texts.
pub mod Coverage
use ad_pulse.Prelude.{
  ℕ, zero, suc, ◌-◌, String, Bool, true, false, ◌&&◌, ◌||◌, not, List, [], ◌∷◌, Option, none, some,
  if◌then◌else◌, ◌==◌, string_eq, nat_eq, option_eq, pair_eq, leb, length, Result, ok, raise, ◌>>=◌,
  ◌>>◌, raise_if, value_error,
}
use ad_pulse.Prelude.Dict.{Dict, lookup, insert, contains, keys}
use ad_pulse.Prelude.Distinct.{member, add}
use ad_pulse.Prelude.Sort.{sort_by}
use ad_pulse.Json.{Value, str, num, obj, Fields, canonical, digest, has_field, value_eq}
use ad_pulse.Storage.Payload.{text_at, number_at, value_at}
use ad_pulse.Archive.Reconcile.{
  object, items, objects, texts, receipts_of, subset, add_all, missing, no_text,
}

pub record AckRef : Type 0 where
  pub topic : String
  pub part : ℕ
  pub off : ℕ
  pub hash : String

-- A row of `records`: `is_raw` is kind='raw'.
pub record IndexRow : Type 0 where
  pub ref : AckRef
  pub receipt : Option String
  pub is_raw : Bool

-- `INSERT OR IGNORE`
abbrev pub insert_or_ignore : {V : Type 0} → String → V → Dict String V → Dict String V
insert_or_ignore k v d = elim (lookup k d) [ some _ ↦ d | none ↦ insert k v d ]

unfoldable pub same_ref : AckRef → AckRef → Bool
same_ref a b = a.topic == b.topic && (a.part == b.part && (a.off == b.off && a.hash == b.hash))

-- `old and old != values`
abbrev pub disagrees : Option AckRef → AckRef → Bool
disagrees none r = false
disagrees (some old) r = not (same_ref old r)

-- The loop over the references.
unfoldable pub add_refs : List Fields → Dict String AckRef → Result (Dict String AckRef)
unfolding same_ref text_at number_at
add_refs [] refs = ok refs
add_refs (ref ∷ l) refs = do
  topic ← text_at "topic" ref
  part ← number_at "partition" ref
  off ← number_at "offset" ref
  hash ← text_at "sha256" ref
  receipt ← text_at "receipt_id" ref
  let values : AckRef = record { topic = topic; part = part; off = off; hash = hash }
  raise_if (disagrees (lookup receipt refs) values)
      (value_error "Conflicting receipt acknowledgement")
  add_refs l (insert_or_ignore receipt values refs)

-- `_acknowledgements`
unfoldable pub acknowledgements : Fields → Dict String AckRef → Result (Dict String AckRef)
unfolding value_at items objects texts receipts_of add_all subset add_refs
acknowledgements manifest refs = do
  records ← value_at "records" manifest
  record_items ← items records
  rows ← objects record_items
  ids ← value_at "receipt_ids" manifest
  id_items ← items ids
  receipt_ids ← texts id_items
  count ← value_at "count" manifest
  receipts ← receipts_of rows
  raise_if
      (not (count == num (length rows))
        || (not (length (add_all receipt_ids []) == length rows)
            || not (subset receipt_ids receipts && subset receipts receipt_ids)))
      (value_error "Receipt manifest count/identity mismatch")
  add_refs rows refs

-- The tables that `coverage` fills from the quality rows.
pub record Lineage : Type 0 where
  pub dispositions : Dict String String
  pub trace_quality : Dict (String × String) String

abbrev pub other_text : Option String → String → Bool
other_text none s = false
other_text (some old) s = not (old == s)

module _ (sha256 : String → String) (loads : String → Result Value) where
  unfoldable pub payload_of : Value → Result Value
  payload_of (str s) = loads s
  payload_of v = ok v

  -- `if "payload" in row:`
  unfoldable pub trace_row : Fields → Lineage → Result Lineage
  unfolding value_at text_at payload_of object insert lookup
  trace_row row t =
      if not (has_field "payload" row)
      then ok t
      else (value_at "payload" row >>= λ given. payload_of given >>= λ payload.
          object payload >>= λ fs. value_at "receipt_id" fs >>= λ receipt.
          value_at "disposition" fs >>= λ disposition. text_at "receipt_id" row >>= λ row_receipt.
          text_at "disposition" row >>= λ row_disposition.
          if not (receipt == str row_receipt) || not (disposition == str row_disposition)
          then raise (value_error "Quality payload identity mismatch")
          else ok (record t {
            trace_quality = elim (lookup (row_receipt, digest sha256 payload) t.trace_quality) [
              | some _ ↦ t.trace_quality
              | none ↦
                  insert (row_receipt, digest sha256 payload) (canonical payload) t.trace_quality
            ];
          }))

  -- The rest of the loop's body.
  unfoldable pub classify_row : Fields → Lineage → Result Lineage
  unfolding text_at
  classify_row row t = do
    disposition ← text_at "disposition" row
    if disposition == "signal"
        then ok t
        else (text_at "receipt_id" row >>= λ receipt.
            if other_text (lookup receipt t.dispositions) disposition
            then raise (value_error "Receipt has conflicting lineage dispositions")
            else ok
                (record t { dispositions = insert_or_ignore receipt disposition t.dispositions }))

  unfoldable pub lineage_from : List Fields → Lineage → Result Lineage
  unfolding trace_row classify_row
  lineage_from [] t = ok t
  lineage_from (row ∷ l) t = do
    traced ← trace_row row t
    classified ← classify_row row traced
    lineage_from l classified

unfoldable pub any_row : (IndexRow → Bool) → List IndexRow → Bool
any_row p [] = false
any_row p (r ∷ l) = let rest = any_row p l in if p r then true else rest

-- `r.kind='raw' AND r.receipt=...`
abbrev pub is_raw_for : String → IndexRow → Bool
is_raw_for receipt r = r.is_raw && r.receipt == some receipt

-- The join of `ack_refs` and `records` on the receipt has a row that differs.
unfoldable pub has_conflict : Dict String AckRef → List IndexRow → Bool
unfolding any_row same_ref
has_conflict [] records = false
has_conflict ((receipt, ref) ∷ l) records =
    any_row (λ r. is_raw_for receipt r && not (same_ref ref r.ref)) records
    || has_conflict l records

-- `GROUP BY receipt HAVING count(*)>1`
unfoldable pub has_twins : List IndexRow → Bool
unfolding any_row
has_twins [] = false
has_twins (r ∷ l) =
    (elim r.receipt [ some receipt ↦ r.is_raw && any_row (is_raw_for receipt) l | none ↦ false ])
    || has_twins l

-- The expected receipts without a raw record.
unfoldable pub unarchived : List IndexRow → List String → List String
unfolding any_row
unarchived records [] = []
unarchived records (receipt ∷ l) =
    let rest = unarchived records l in
    if any_row (is_raw_for receipt) records then rest else receipt ∷ rest

unfoldable pub first_texts : ℕ → List String → List String
first_texts zero l = []
first_texts (suc n) [] = []
first_texts (suc n) (s ∷ l) = s ∷ first_texts n l

pub record Report : Type 0 where
  pub acknowledged : ℕ
  pub archived : ℕ
  pub classified : ℕ
  pub archive_missing_count : ℕ
  pub processing_pending_count : ℕ
  pub archive_missing : List String
  pub processing_pending : List String
  pub archive_complete : Bool
  pub lineage_complete : Bool

unfoldable pub report_of : ℕ → List String → List String → List String → Report
unfolding first_texts sort_by no_text
report_of limit expected lost pending = record {
  acknowledged = length expected;
  archived = length expected - length lost;
  classified = length expected - length pending;
  archive_missing_count = length lost;
  processing_pending_count = length pending;
  archive_missing = first_texts limit (sort_by (λ s. s) lost);
  processing_pending = first_texts limit (sort_by (λ s. s) pending);
  archive_complete = not (no_text expected) && no_text lost;
  lineage_complete = not (no_text expected) && no_text pending;
}

-- `coverage`
unfoldable pub index_coverage :
    (String → String)
    → (String → Result Value)
    → List IndexRow
    → Dict String AckRef
    → List String
    → List Fields
    → ℕ
    → Result Report
unfolding lineage_from add_all has_conflict has_twins unarchived missing report_of
index_coverage sha256 loads records refs expected lineage limit = do
  raise_if (not (leb limit 1000)) (value_error "Invalid difference sample budget")
  t ← lineage_from sha256 loads lineage (record { dispositions = []; trace_quality = [] })
  raise_if (has_conflict refs records) (value_error "Acknowledgement and archive disagree")
  raise_if (has_twins records) (value_error "Receipt maps to multiple source identities")
  let receipts : List String = add_all (keys refs) (add_all expected [])
  ok (report_of limit receipts (unarchived records receipts) (missing t.dispositions receipts))
