-- ===== src/Archive/Readers.antt =====
-- adpulse/archive_index.py, what is read of the index: `packets`, `dimensions`, `trace` and
-- `quality`. `loads` is `json.loads` on a text.
pub mod Budget
use Prim.Native.String.{len}
use ad_pulse.Prelude.{
  ℕ, zero, suc, ◌+◌, String, Bool, true, false, ◌&&◌, ◌||◌, not, List, [], ◌∷◌, ◌++◌, map, Option,
  none, some, if◌then◌else◌, ◌==◌, string_eq, nat_eq, pair_eq, option_eq, ℕ_discrete, ltb, length,
  Result, ok, raise, ◌>>=◌, ◌>>◌, raise_if, value_error,
}
use ad_pulse.Prelude.Dict.{Dict, values}
use ad_pulse.Prelude.Distinct.{member, add}
use ad_pulse.Prelude.Sort.{sort_by, text_le}
use ad_pulse.Json.{Value, Fields}
use ad_pulse.Storage.Payload.{value_at}
use ad_pulse.Dimensions.{VersionKey, version_step}
use ad_pulse.Archive.Chunks.{Bytes}
use ad_pulse.Archive.Reconcile.{Archived, ends_with, object}
use ad_pulse.Archive.Index.{is_raw_for}
use ad_pulse.Archive.Refresh.{Identity, Entry, Index, read_row}

-- `ORDER BY` with a test for a row that may stand before another: a stable insertion sort.
unfoldable pub place_by : (Entry → Entry → Bool) → Entry → List Entry → List Entry
place_by before e [] = e ∷ []
place_by before e (f ∷ l) = if before e f then e ∷ f ∷ l else f ∷ place_by before e l

unfoldable pub order_by : (Entry → Entry → Bool) → List Entry → List Entry
unfolding place_by
order_by before [] = []
order_by before (e ∷ l) = place_by before e (order_by before l)

-- A column after which the next one decides: NULL stands first.
abbrev pub number_then : Option ℕ → Option ℕ → Bool → Bool
number_then none none rest = rest
number_then none (some _) rest = true
number_then (some _) none rest = false
number_then (some m) (some n) rest = if m == n then rest else ltb m n

abbrev pub text_then : String → String → Bool → Bool
text_then s t rest = if s == t then rest else text_le s t

-- topic, part, off
unfoldable pub place_before : Entry → Entry → Bool
place_before e f = text_then e.row.ref.topic f.row.ref.topic (
    number_then (some e.row.ref.part) (some f.row.ref.part)
      (number_then (some e.row.ref.off) (some f.row.ref.off) true))

-- received_at, batch, batch_index and then the place
unfoldable pub packet_before : Entry → Entry → Bool
unfolding place_before
packet_before e f = number_then e.received_at f.received_at (
    text_then e.batch f.batch
      (number_then (some e.batch_index) (some f.batch_index) (place_before e f)))

-- The rows that a condition selects.
unfoldable pub where_rows : (Entry → Bool) → List Entry → List Entry
where_rows p [] = []
where_rows p (e ∷ l) = let rest = where_rows p l in if p e then e ∷ rest else rest

-- kind='raw', and the receipt is expected
abbrev pub is_expected : List String → Entry → Bool
is_expected expected e =
    e.row.is_raw && elim e.row.receipt [ some r ↦ member r expected | none ↦ false ]

-- `GROUP BY topic ORDER BY topic`
unfoldable pub topics_of : List Entry → List String
unfolding add member
topics_of [] = []
topics_of (e ∷ l) = add e.row.ref.topic (topics_of l)

abbrev pub is_of_topic : String → Entry → Bool
is_of_topic topic e = e.row.ref.topic == topic

-- The rows of the campaign topics in the order of topics, partitions and offsets.
unfoldable pub topic_rows : List Entry → List String → List Entry
unfolding ends_with order_by place_before where_rows
topic_rows records [] = []
topic_rows records (topic ∷ l) =
    let rest = topic_rows records l in
    if ends_with "campaign_versions" topic
    then order_by place_before (where_rows (is_of_topic topic) records) ++ rest
    else rest

unfoldable pub dimension_rows : List Entry → List Entry
unfolding topic_rows topics_of sort_by
dimension_rows records = topic_rows records (sort_by (λ (t : String). t) (topics_of records))

abbrev pub max_dimension_rows : ℕ
max_dimension_rows = 10000

abbrev pub max_dimension_bytes : ℕ
max_dimension_bytes = 16777216

-- The first `n` rows.
unfoldable pub first_rows : {A : Type 0} → ℕ → List A → List A
first_rows zero l = []
first_rows (suc n) [] = []
first_rows (suc n) (x ∷ l) = x ∷ first_rows n l

-- More rows than the budget are an error.
unfoldable pub within : {A : Type 0} → ℕ → String → List A → Result (List A)
within limit message rows = if ltb limit (length rows) then raise (value_error message) else ok rows

-- The hashes and the payloads of a receipt's quality rows.
unfoldable pub payloads_for : String → Dict (String × String) String → List (String × String)
payloads_for receipt [] = []
payloads_for receipt (((r, hash), payload) ∷ l) =
    let rest = payloads_for receipt l in if r == receipt then (hash, payload) ∷ rest else rest

module _ (loads : String → Result Value) where
  unfoldable pub decode_rows : List String → Result (List Value)
  decode_rows [] = ok []
  decode_rows (t ∷ l) = do v ← loads t; rest ← decode_rows l; ok (v ∷ rest)

  -- `json.loads(value)["value"]`
  unfoldable pub values_of : List Entry → Result (List Value)
  unfolding object value_at
  values_of [] = ok []
  values_of (e ∷ l) = do
    parsed ← loads e.row_json
    row ← object parsed
    value ← value_at "value" row
    rest ← values_of l
    ok (value ∷ rest)

  -- `packets`; `expected` is the table of that name.
  unfoldable pub packets : List String → Index → Result (List Value)
  unfolding order_by packet_before where_rows member values_of
  packets expected index =
      values_of (order_by packet_before (where_rows (is_expected expected) (values index.records)))

  -- The rows within the budgets, each handled before the next is read.
  unfoldable pub dimensions_from :
      ℕ → ℕ → List Entry → Dict VersionKey Fields → Result (Dict VersionKey Fields)
  unfolding read_row version_step
  dimensions_from number total [] versions = ok versions
  dimensions_from number total (e ∷ l) versions = do
    raise_if
        (ltb max_dimension_rows (number + 1) || ltb max_dimension_bytes (total + len e.row_json))
        (value_error "Dimension history exceeds reference-table limit")
    parsed ← loads e.row_json
    row ← read_row parsed
    versions' ← version_step loads row versions
    dimensions_from (number + 1) (total + len e.row_json) l versions'

  -- `dimensions`
  unfoldable pub dimensions : Index → Result (List Fields)
  unfolding dimensions_from dimension_rows
  dimensions index = do
    versions ← dimensions_from 0 0 (dimension_rows (values index.records)) []
    ok (values versions)

  -- `trace`
  unfoldable pub trace : String → ℕ → Index → Result (List Value)
  unfolding where_rows first_rows within decode_rows
  trace receipt limit index = do
    rows ←
        within limit "Trace exceeds source identity budget" (
          first_rows (limit + 1)
            (where_rows (λ e. is_raw_for receipt e.row) (values index.records)))
    decode_rows (map (λ (e : Entry). e.row_json) rows)

  -- `quality`, over the table `trace_quality`
  unfoldable pub quality : String → ℕ → Dict (String × String) String → Result (List Value)
  unfolding sort_by first_rows within decode_rows payloads_for
  quality receipt limit trace_quality = do
    rows ← within limit "Trace exceeds quality record budget" (
        first_rows (limit + 1)
          (sort_by (λ (p : String × String). p.0) (payloads_for receipt trace_quality)))
    decode_rows (map (λ (p : String × String). p.1) rows)
