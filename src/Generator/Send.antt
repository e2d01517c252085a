-- ===== src/Generator/Send.antt =====
-- adpulse/generator.py, `send`. What a POST answers is a parameter: its JSON, or what
-- `raise_for_status` or the client raises.
pub mod Admitted
use Prim.Native.String.{◌++◌ as str_append}
use ad_pulse.Prelude.{ℕ, zero, suc, ◌+◌, String, List, [], ◌∷◌, length, Result, ok, ◌>>=◌}
use ad_pulse.Json.{Value, str, arr, obj, Fields, end, field, array, decimal}

-- `events[:n]` and `events[n:]`
unfoldable pub slice_to : ℕ → List Fields → List Fields
slice_to zero l = []
slice_to (suc n) [] = []
slice_to (suc n) (e ∷ l) = e ∷ slice_to n l

unfoldable pub slice_from : ℕ → List Fields → List Fields
slice_from zero l = l
slice_from (suc n) [] = []
slice_from (suc n) (e ∷ l) = slice_from n l

unfoldable pub event_values : List Fields → List Value
event_values [] = []
event_values (e ∷ l) = obj e ∷ event_values l

-- The `json` of a POST
unfoldable pub request_body : String → ℕ → List Fields → Fields
unfolding event_values
request_body batch_prefix start events =
    field "client_batch_id" (str (str_append batch_prefix (str_append "-" (decimal start))))
      (field "events" (arr (array (event_values events))) end)

-- The bodies from `start` on, of which there are at most as many as the fuel.
unfoldable pub requests_from : String → ℕ → ℕ → ℕ → List Fields → List Fields
unfolding request_body slice_to slice_from
requests_from batch_prefix batch_size zero start events = []
requests_from batch_prefix batch_size (suc fuel) start [] = []
requests_from batch_prefix batch_size (suc fuel) start (e ∷ l) =
    request_body batch_prefix start (slice_to batch_size (e ∷ l))
    ∷ requests_from batch_prefix batch_size fuel (start + batch_size)
        (slice_from batch_size (e ∷ l))

-- `requests.post`, one after the other
unfoldable pub post_all : (Fields → Result Value) → List Fields → Result (List Value)
post_all post [] = ok []
post_all post (b ∷ l) = do answer ← post b; rest ← post_all post l; ok (answer ∷ rest)

unfoldable pub send : (Fields → Result Value) → ℕ → String → List Fields → Result (List Value)
unfolding requests_from post_all
send post batch_size batch_prefix events =
    post_all post (requests_from batch_prefix batch_size (length events) 0 events)
