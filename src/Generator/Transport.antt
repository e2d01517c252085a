-- ===== src/Generator/Transport.antt =====
-- adpulse/generator.py, the corrupted copies that `generate` returns and `receipts`.
use Prim.Native.String.{◌++◌ as str_append}
use ad_pulse.Prelude.{
  ℕ, zero, suc, ◌+◌, String, Bool, true, false, ◌||◌, List, [], ◌∷◌, ◌++◌, if◌then◌else◌, ◌==◌,
  string_eq, ltb, Result, ok, ◌>>=◌, value_error, raise,
}
use ad_pulse.Json.{str, num, obj, Fields, end, field, decimal, set_field}
use ad_pulse.Storage.Payload.{text_at}
use ad_pulse.Generator.{Draws, Expected, truth_from, expected_associations}

-- `truth[::9]`, where the next event stands after `skip` others
unfoldable pub every_ninth : ℕ → List Fields → List Fields
every_ninth skip [] = []
every_ninth zero (e ∷ l) = e ∷ every_ninth 8 l
every_ninth (suc skip) (e ∷ l) = every_ninth skip l

-- A copy of each event, and one with another id.
unfoldable pub retries : List Fields → Result (List Fields)
unfolding text_at set_field
retries [] = ok []
retries (e ∷ l) = do
  id ← text_at "event_id" e
  rest ← retries l
  ok (e ∷ set_field "event_id" (str (str_append id "-new-id")) e ∷ rest)

unfoldable pub retries_if : Bool → List Fields → Result (List Fields)
unfolding retries every_ninth
retries_if false truth = ok []
retries_if true truth = retries (every_ninth 0 truth)

-- The copy of the first event with a time that is no number.
unfoldable pub broken_if : Bool → ℕ → List Fields → List Fields
unfolding set_field
broken_if false seed truth = []
broken_if true seed [] = []
broken_if true seed (e ∷ l) =
    set_field "event_time" (str "not-an-integer")
      (set_field "event_id" (str (str_append "bad-type-" (decimal seed))) e)
    ∷ []

unfoldable pub rank : String → Result ℕ
rank kind =
    if kind == "conversion"
    then ok 0
    else if kind == "click"
    then ok 1
    else if kind == "impression"
    then ok 2
    else raise (value_error kind)

unfoldable pub ranked : List Fields → Result (List (ℕ × Fields))
unfolding text_at rank
ranked [] = ok []
ranked (e ∷ l) = do
  kind ← text_at "event_type" e
  r ← rank kind
  rest ← ranked l
  ok ((r, e) ∷ rest)

-- A stable sort by the rank.
unfoldable pub place_ranked : ℕ × Fields → List (ℕ × Fields) → List (ℕ × Fields)
place_ranked x [] = x ∷ []
place_ranked x (y ∷ l) = if ltb y.0 x.0 then y ∷ place_ranked x l else x ∷ y ∷ l

unfoldable pub sort_ranked : List (ℕ × Fields) → List Fields
unfolding place_ranked
sort_ranked l = unrank (in_order l)
  where
    in_order : List (ℕ × Fields) → List (ℕ × Fields)
    in_order [] = []
    in_order (x ∷ l) = place_ranked x (in_order l)

    unrank : List (ℕ × Fields) → List Fields
    unrank [] = []
    unrank (x ∷ l) = x.1 ∷ unrank l

unfoldable pub conversions_first : Bool → List Fields → Result (List Fields)
unfolding ranked sort_ranked
conversions_first false transport = ok transport
conversions_first true transport = do r ← ranked transport; ok (sort_ranked r)

pub record Dataset : Type 0 where
  pub truth : List Fields
  pub transport : List Fields
  pub expected : List Expected

-- `generate`
unfoldable pub generate : Draws → (List Fields → List Fields) → ℕ → ℕ → ℕ → String → Result Dataset
unfolding truth_from expected_associations retries_if broken_if conversions_first
generate draws shuffle users seed start_ms scenario = do
  let truth : List Fields = truth_from draws seed start_ms scenario 0 users
  again ← retries_if (scenario == "mixed" || scenario == "duplicates") truth
  let copies : List Fields =
      truth ++ again ++ broken_if (scenario == "mixed" || scenario == "schema") seed truth
  let mixed : List Fields =
      if scenario == "mixed" || scenario == "out-of-order" then shuffle copies else copies
  transport ← conversions_first (scenario == "conversion-first") mixed
  ok (record {
    truth = truth;
    transport = transport;
    expected = expected_associations draws seed start_ms scenario 0 users;
  })

-- `receipts`, from the index `i`
unfoldable pub receipts_from : String → ℕ → ℕ → List Fields → List Fields
receipts_from batch_id received_at i [] = []
receipts_from batch_id received_at i (e ∷ l) =
    field "receipt_id" (str (str_append batch_id (str_append ":" (decimal i)))) (
      field "batch_id" (str batch_id) (
        field "index" (num i)
          (field "received_at" (num (received_at + i)) (field "event" (obj e) end))))
    ∷ receipts_from batch_id received_at (suc i) l
