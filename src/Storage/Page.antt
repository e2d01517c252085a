-- ===== src/Storage/Page.antt =====
-- adpulse/storage.py, `ClickHouse.page`. ClickHouse answers the inner query, one row for each key of
-- the release and kind with the payload of its largest offset; these rows are an argument, in the
-- order of their keys. The outer query and what follows it are defined here.
pub mod Traversal
use ad_pulse.Prelude.{
  ℕ, zero, suc, ◌+◌, String, Bool, true, false, ◌&&◌, ◌||◌, not, List, [], ◌∷◌, ◌++◌, Option, none,
  some, if◌then◌else◌, ◌==◌, string_eq, nat_eq, ltb, leb, ◌-◌, length, Result, ok, raise, ◌>>=◌,
  ◌>>◌, raise_if, value_error,
}
use ad_pulse.Json.{Value, str, Fields, end, field, get_field, pop_field, has_field}
use ad_pulse.Names.{codes, valid_release}

-- The output key and the payload.
abbrev pub Entry : Type 0
Entry = String × Fields

-- The order of keys: that of their code points, as that of their UTF-8 bytes.
unfoldable pub codes_below : List ℕ → List ℕ → Bool
codes_below [] [] = false
codes_below [] (y ∷ t) = true
codes_below (x ∷ s) [] = false
codes_below (x ∷ s) (y ∷ t) =
    let rest = codes_below s t in if ltb x y then true else if x == y then rest else false

abbrev pub below : String → String → Bool
below a b = codes_below (codes a) (codes b)

-- `output_key>{after:String}`
unfoldable pub above : String → List Entry → List Entry
above after [] = []
above after (r ∷ l) = let rest = above after l in if below after r.0 then r ∷ rest else rest

-- `JSONExtractString`
unfoldable pub text_in : String → Fields → String
unfolding get_field
text_in k fs = elim (get_field k fs) [ some v ↦ elim v [ str s ↦ s | _ ↦ "" ] | none ↦ "" ]

-- `fields`
unfoldable pub field_of_filter : String → String → Option String
field_of_filter kind name =
    if kind == "metric"
    then (if name == "cohort"
        then some "cohort_basis"
        else if name == "campaign"
        then some "campaign_id"
        else if name == "region"
        then some "region"
        else if name == "app_version"
        then some "app_version"
        else none)
    else if kind == "association" && name == "status"
    then some "status"
    else none

-- The predicates, joined by AND.
unfoldable pub passes : String → List (String × String) → Fields → Bool
unfolding field_of_filter text_in
passes kind [] fs = true
passes kind ((name, wanted) ∷ l) fs =
    elim (field_of_filter kind name) [ some k ↦ text_in k fs == wanted | none ↦ false ]
    && passes kind l fs

unfoldable pub select : String → List (String × String) → List Entry → List Entry
select kind filters [] = []
select kind filters (r ∷ l) =
    let rest = select kind filters l in if passes kind filters r.1 then r ∷ rest else rest

unfoldable pub take : ℕ → List Entry → List Entry
take zero l = []
take (suc n) [] = []
take (suc n) (r ∷ l) = r ∷ take n l

unfoldable pub key_at : ℕ → List Entry → Option String
key_at i [] = none
key_at zero (r ∷ l) = some r.0
key_at (suc i) (r ∷ l) = key_at i l

-- `row.pop("receipt_updates", None)` on each row
unfoldable pub public_rows : List Entry → List Fields
unfolding pop_field
public_rows [] = []
public_rows (r ∷ l) = pop_field "receipt_updates" r.1 ∷ public_rows l

abbrev pub text_length : String → ℕ
text_length s = length (codes s)

unfoldable pub filters_valid : String → List (String × String) → Bool
unfolding field_of_filter codes
filters_valid kind [] = true
filters_valid kind ((name, wanted) ∷ l) =
    elim (field_of_filter kind name) [ some k ↦ leb (text_length wanted) 200 | none ↦ false ]
    && filters_valid kind l

-- `limit` is a number, and the page size is 1 to 500.
unfoldable pub query_valid : String → String → ℕ → List (String × String) → Bool
unfolding filters_valid valid_release
query_valid release kind limit filters =
    valid_release release
    && ((kind == "metric" || kind == "association")
        && ((leb 1 limit && leb limit 500) && filters_valid kind filters))

-- The rows to return and the key that the next page starts after.
unfoldable pub cut : ℕ → List Entry → List Fields × Option String
unfolding take key_at public_rows
cut limit entries = (
  public_rows (take limit entries),
  if ltb limit (length entries) then key_at (limit - 1) entries else none,
)

unfoldable pub page :
    String
    → String
    → ℕ
    → List (String × String)
    → List Entry
    → String
    → Result (List Fields × Option String)
unfolding query_valid codes above select take cut
page release kind limit filters rows after = do
  raise_if (not (query_valid release kind limit filters && leb (text_length after) 1500))
      (value_error "Invalid page query")
  ok (cut limit (take (limit + 1) (select kind filters (above after rows))))

-- A client that follows the keys, for at most `fuel` pages.
unfoldable pub walk :
    String → String → ℕ → List (String × String) → List Entry → ℕ → String → Result (List Fields)
unfolding page
walk release kind limit filters rows zero after = ok []
walk release kind limit filters rows (suc fuel) after = do
  (found, next) ← page release kind limit filters rows after
  rest ← elim next [ none ↦ ok [] | some key ↦ walk release kind limit filters rows fuel key ]
  ok (found ++ rest)
