-- ===== src/Tests/Answers.antt =====
-- adpulse/storage.py: a page of one row at what a database answers, within and over the budget.
use ad_pulse.Prelude.{
  ℕ, String, ◌≡◌, refl, true, false, ◌&&◌, List, [], ◌∷◌, Option, none, some, string_eq, leb,
  Result, ok, raise, Exception, value_error, page_error, ◌⊎◌, String_discrete, ℕ_discrete,
}
use ad_pulse.Json.{Value, str, obj, Fields, end, field}
use ad_pulse.Archive.Chunks.{Bytes}
use ad_pulse.Storage.Page.{query_valid, text_length}
use ad_pulse.Storage.Answers.{Answer, fetch_page, refused}
use ad_pulse.Storage.Answers.Errors.{IsReported}
use ad_pulse.Storage.Answers.Fetched.{IsBounded, fetch_page_lem}

abbrev entry : Value
entry = obj (field "output_key" (str "k") (field "public_payload" (str "p") end))

abbrev loads : String → Result Value
loads t = ok (obj (field "receipt_updates" (str "u") (field "metric_key" (str "m") end)))

abbrev loads_bytes : Bytes → Result Value
loads_bytes [] = raise (value_error "JSONDecodeError")
loads_bytes (c ∷ b) = ok entry

-- Two lines in three blocks
abbrev answer : Answer
answer = record { blocks = (123 ∷ 10 ∷ []) ∷ (123 ∷ []) ∷ (13 ∷ 10 ∷ []) ∷ []; trouble = none }

abbrev fetch : ℕ → Answer → Result (List Fields × Option Value)
fetch budget = fetch_page loads loads_bytes "r1" "metric" 1 [] "" budget

fetch_run : fetch 5 answer ≡ ok (field "metric_key" (str "m") end ∷ [], some (str "k"))
unfolding fetch_page String_discrete ℕ_discrete
fetch_run = refl

over_budget : fetch 4 answer ≡ raise (page_error "budget")
unfolding fetch_page ℕ_discrete String_discrete
over_budget = refl

too_many_rows :
    fetch 4 (record { blocks = []; trouble = some (refused "Code: 158. TOO_MANY_ROWS") })
    ≡ raise (page_error "budget")
unfolding fetch_page ℕ_discrete String_discrete
too_many_rows = refl

loads-value_error :
    (t : String) (e : Exception) → loads t ≡ raise e → (s : String) × (e ≡ value_error s)
loads-value_error t e h = absurd (cc)

loads_bytes-value_error :
    (b : Bytes) (e : Exception) → loads_bytes b ≡ raise e → (s : String) × (e ≡ value_error s)
loads_bytes-value_error [] e h = ("JSONDecodeError", cc)
loads_bytes-value_error (c ∷ b) e h = absurd (cc)

fetch_page_lem_example :
    ((page : List Fields × Option Value)
      → fetch 5 answer ≡ ok page
      → ((query_valid "r1" "metric" 1 [] && leb (text_length "") 1500) ≡ true)
        × IsBounded 1 5 answer page)
    × ((e : Exception)
        → fetch 5 answer ≡ raise e
        → (((query_valid "r1" "metric" 1 [] && leb (text_length "") 1500) ≡ false)
            × (e ≡ value_error "Invalid page query"))
          ⊎ IsReported e)
fetch_page_lem_example =
    fetch_page_lem loads loads_bytes "r1" "metric" 1 [] "" 5 answer loads-value_error
      loads_bytes-value_error
