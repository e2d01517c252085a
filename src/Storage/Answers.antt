-- ===== src/Storage/Answers.antt =====
-- adpulse/storage.py, what `ClickHouse` makes of the answers of the database: `query`,
-- `iter_query`, `spooled_query`, `insert`, `snapshots` and the transport of `page`. An answer is the
-- list of the blocks of its body; `loads` is `json.loads` on a text and `loads_bytes` on bytes.
pub mod Errors
pub mod Fetched
use ad_pulse.Prelude.{
  ℕ, zero, suc, ◌+◌, ◌-◌, String, Bool, true, false, ◌&&◌, ◌||◌, not, List, [], ◌∷◌, ◌++◌, map,
  Option, none, some, if◌then◌else◌, ◌==◌, string_eq, nat_eq, option_eq, ltb, leb, length, Result,
  ok, raise, ◌>>=◌, ◌>>◌, raise_if, or_raise, Exception, value_error, key_error, type_error,
  runtime_error, page_error,
}
use ad_pulse.Prelude.Sort.{sort_by}
use ad_pulse.Json.{
  Value, str, num, arr, obj, null, bool, Fields, get_field, pop_field, canonical, value_eq,
}
use ad_pulse.Names.{codes}
use ad_pulse.Storage.Payload.{text_at, value_at}
use ad_pulse.Storage.Page.{query_valid, text_length}
use ad_pulse.Archive.Chunks.{Bytes, Yielded, chunks}
use ad_pulse.Archive.Reconcile.{object}

-- The classes of `requests` that `page` tells apart; an `HTTPError` with the text of its response.
pub data Trouble : Type 0 where
  timed_out unreachable : Trouble
  refused : String → Trouble

-- The blocks that arrive, and what stops the transfer; nothing arrives of a refused request.
pub record Answer : Type 0 where
  pub blocks : List Bytes
  pub trouble : Option Trouble

-- `bytes.splitlines`: the lines so far, the line that is read, and whether a carriage return was
-- the last byte.
pub record Splitting : Type 0 where
  pub lines : List Bytes
  pub line : Bytes
  pub after_return : Bool

unfoldable pub split_byte : ℕ → Splitting → Splitting
split_byte c s =
    if s.after_return && c == 10
    then record s { after_return = false }
    else if c == 10 || c == 13
    then record { lines = s.lines ++ s.line ∷ []; line = []; after_return = c == 13 }
    else record { lines = s.lines; line = s.line ++ c ∷ []; after_return = false }

unfoldable pub split_from : Bytes → Splitting → Splitting
unfolding split_byte
split_from [] s = s
split_from (c ∷ b) s = split_from b (split_byte c s)

unfoldable pub unfinished : Bytes → List Bytes
unfinished [] = []
unfinished (c ∷ b) = (c ∷ b) ∷ []

unfoldable pub splitlines : Bytes → List Bytes
unfolding split_from unfinished
splitlines b =
    let s = split_from b (record { lines = []; line = []; after_return = false }) in
    s.lines ++ unfinished s.line

-- `not line.strip()`
unfoldable pub is_blank : Bytes → Bool
is_blank [] = true
is_blank (c ∷ b) = (c == 32 || (leb 9 c && leb c 13)) && is_blank b

-- The loop that fills the spool.
unfoldable pub spool : ℕ → ℕ → List Bytes → Result Bytes
spool max_bytes size [] = ok []
spool max_bytes size (block ∷ l) =
    let rest = spool max_bytes (size + length block) l in
    if ltb max_bytes (size + length block)
    then raise (value_error "Inspection query spool exceeds byte budget")
    else (rest >>= λ b. ok (block ++ b))

-- The body as it is collected, within the budget.
unfoldable pub collect : ℕ → Bytes → List Bytes → Result Bytes
collect budget body [] = ok body
collect budget body (block ∷ l) =
    let rest = collect budget (body ++ block) l in
    if ltb budget (length body + length block) then raise (page_error "budget") else rest

abbrev pub max_line : ℕ
max_line = 2097152

module _ (loads_bytes : Bytes → Result Value) where
  -- `json.loads(line)` of the lines that are not blank
  unfoldable pub decode_lines : List Bytes → Result (List Value)
  unfolding is_blank
  decode_lines [] = ok []
  decode_lines (line ∷ l) =
      let rest = decode_lines l in
      if is_blank line then rest else (loads_bytes line >>= λ v. rest >>= λ vs. ok (v ∷ vs))

  -- The rows that a generator yields, and how it ends.
  unfoldable pub rows_from : Yielded (Unit {0}) → Result (List Value)
  unfolding decode_lines
  rows_from y = do rows ← decode_lines y.pieces; y.outcome >> ok rows

  -- `iter_query`
  unfoldable pub iter_query : List Bytes → Result (List Value)
  unfolding chunks rows_from
  iter_query blocks = rows_from (chunks max_line 1099511627776 blocks)

  -- `spooled_query`: `reads` are the blocks in which the spool is read.
  unfoldable pub spooled_query : ℕ → (Bytes → List Bytes) → List Bytes → Result (List Value)
  unfolding chunks spool rows_from
  spooled_query max_bytes reads blocks = do
    written ← spool max_bytes 0 blocks
    rows_from (chunks max_line max_bytes (reads written))

-- A code of the text stands at its start, or anywhere in it: `code in body`.
unfoldable pub starts_with : List ℕ → List ℕ → Bool
starts_with [] s = true
starts_with (c ∷ p) [] = false
starts_with (c ∷ p) (d ∷ s) = let rest = starts_with p s in if c == d then rest else false

unfoldable pub is_in : List ℕ → List ℕ → Bool
unfolding starts_with
is_in p [] = starts_with p []
is_in p (d ∷ s) = let rest = is_in p s in if starts_with p (d ∷ s) then true else rest

unfoldable pub is_budget : String → Bool
unfolding is_in codes
is_budget body =
    is_in (codes "TOO_MANY_ROWS") (codes body)
    || (is_in (codes "TOO_MANY_BYTES") (codes body)
        || (is_in (codes "TIMEOUT_EXCEEDED") (codes body)
            || is_in (codes "MEMORY_LIMIT_EXCEEDED") (codes body)))

unfoldable pub reason_of : Trouble → String
unfolding is_budget
reason_of timed_out = "timeout"
reason_of unreachable = "unavailable"
reason_of (refused body) = if is_budget body then "budget" else "unavailable"

unfoldable pub stopped : Option Trouble → Result (Unit {0})
unfolding reason_of
stopped none = ok tt
stopped (some t) = raise (page_error (reason_of t))

-- `except (ValueError, KeyError, TypeError)`
unfoldable pub reclassify : {A : Type 0} → Result A → Result A
reclassify (ok a) = ok a
reclassify (raise (value_error s)) = raise (page_error "invalid_response")
reclassify (raise (key_error s)) = raise (page_error "invalid_response")
reclassify (raise (type_error s)) = raise (page_error "invalid_response")
reclassify (raise e) = raise e

-- What `row.pop("receipt_updates", None)` is called on: a list has another `pop`.
unfoldable pub row_of : Value → Result Fields
row_of (obj fs) = ok fs
row_of (arr l) = raise (type_error "pop")
row_of v = raise (runtime_error "AttributeError")

unfoldable pub take_values : ℕ → List Value → List Value
take_values zero l = []
take_values (suc n) [] = []
take_values (suc n) (v ∷ l) = v ∷ take_values n l

-- `entries[limit - 1]["output_key"]`
unfoldable pub key_after : ℕ → List Value → Result (Option Value)
unfolding object value_at
key_after i [] = ok none
key_after zero (v ∷ l) = do fs ← object v; key ← value_at "output_key" fs; ok (some key)
key_after (suc i) (v ∷ l) = key_after i l

module _ (loads : String → Result Value) (loads_bytes : Bytes → Result Value) where
  unfoldable pub page_row : Value → Result Fields
  unfolding object text_at row_of pop_field
  page_row entry = do
    fs ← object entry
    text ← text_at "public_payload" fs
    parsed ← loads text
    row ← row_of parsed
    ok (pop_field "receipt_updates" row)

  unfoldable pub page_rows : List Value → Result (List Fields)
  unfolding page_row
  page_rows [] = ok []
  page_rows (v ∷ l) = do row ← page_row v; rest ← page_rows l; ok (row ∷ rest)

  -- The `try` of `page`.
  unfoldable pub receive : ℕ → ℕ → Answer → Result (List Fields × Option Value)
  unfolding collect stopped splitlines decode_lines take_values page_rows key_after
  receive limit budget answer = do
    body ← collect budget [] answer.blocks
    stopped answer.trouble
    entries ← decode_lines loads_bytes (splitlines body)
    raise_if (ltb (limit + 1) (length entries)) (value_error "Server violated page bound")
    rows ← page_rows (take_values limit entries)
    next ← if ltb limit (length entries) then key_after (limit - 1) entries else ok none
    ok (rows, next)

  -- `page`, at what the database answers
  unfoldable pub fetch_page :
      String
      → String
      → ℕ
      → List (String × String)
      → String
      → ℕ
      → Answer
      → Result (List Fields × Option Value)
  unfolding query_valid codes receive reclassify
  fetch_page release kind limit filters after budget answer =
      raise_if (not (query_valid release kind limit filters && leb (text_length after) 1500))
        (value_error "Invalid page query")
      >> reclassify (receive limit budget answer)

-- The rows of one kind by their keys, sorted.
unfoldable pub keyed : String → String → List Fields → Result (List (String × Fields))
unfolding value_at text_at
keyed kind key [] = ok []
keyed kind key (row ∷ l) = do
  record_type ← value_at "record_type" row
  rest ← keyed kind key l
  if record_type == str kind then (text_at key row >>= λ k. ok ((k, row) ∷ rest)) else ok rest

unfoldable pub sorted_rows : List (String × Fields) → List Fields
unfolding sort_by
sorted_rows l = map (λ (p : String × Fields). p.1) (sort_by (λ (p : String × Fields). p.0) l)

-- The payloads of the rows that the query answers, as `snapshots` returns them.
module _ (loads : String → Result Value) where
  unfoldable pub payloads_of : List Fields → Result (List Fields)
  unfolding text_at object
  payloads_of [] = ok []
  payloads_of (row ∷ l) = do
    text ← text_at "payload" row
    parsed ← loads text
    fs ← object parsed
    rest ← payloads_of l
    ok (fs ∷ rest)

  unfoldable pub snapshots : List Fields → Result (List Fields × List Fields)
  unfolding payloads_of keyed sorted_rows
  snapshots rows = do
    payloads ← payloads_of rows
    metrics ← keyed "metric" "metric_key" payloads
    associations ← keyed "association" "association_key" payloads
    ok (sorted_rows metrics, sorted_rows associations)
