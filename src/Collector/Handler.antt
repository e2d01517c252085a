-- ===== src/Collector/Handler.antt =====
-- adpulse/collector.py, `accept` of `create_app`: the handler of `POST /v1/events`. `loads` is
-- `json.loads` on the bytes of a body, with nothing for a text that it refuses.
use ad_pulse.Prelude.{
  ℕ, suc, ◌*◌, String, ◌||◌, List, [], ◌∷◌, ◌++◌, Option, none, some, if◌then◌else◌, ltb, length,
  Result, ok, raise, ◌>>=◌, or_raise, http_error,
}
use ad_pulse.Json.{Value, str, obj, arr, Items, nil, cons, Fields, get_field}
use ad_pulse.Collector.Writer.{Producer, World, Acknowledgement, accept}

abbrev pub max_bytes : ℕ
max_bytes = 2 * 1024 * 1024

abbrev pub Bytes : Type 0
Bytes = List ℕ

-- The loop over the request's stream.
unfoldable pub read_body : List Bytes → Bytes → Result Bytes
read_body [] body = ok body
read_body (chunk ∷ l) body =
    let rest = read_body l (body ++ chunk) in
    if ltb max_bytes (length (body ++ chunk))
    then raise (http_error 413 "Batch exceeds 2 MiB")
    else rest

-- `batch["events"]`, a list of 1 to 1000 records
unfoldable pub items_list : Items → List Value
items_list nil = []
items_list (cons v l) = v ∷ items_list l

abbrev pub bad_events : {A : Type 0} → Result A
bad_events = raise (http_error 422 "events must contain 1–1000 records")

unfoldable pub events_of : Fields → Result (List Value)
unfolding items_list get_field
events_of batch = elim (get_field "events" batch) [
  | some v ↦ elim v [
    | arr items ↦
        let events = items_list items in
        if ltb (length events) 1 || ltb 1000 (length events) then bad_events else ok events
    | _ ↦ bad_events
  ]
  | none ↦ bad_events
]

abbrev pub text_length : String → ℕ
text_length String.[] = 0
text_length (String.◌∷◌ c s) = suc (text_length s)

unfoldable pub client_id_of : Fields → Result String
unfolding get_field
client_id_of batch = elim (get_field "client_batch_id" batch) [
  | none ↦ ok "unspecified"
  | some v ↦ elim v [
    | str id ↦
        if ltb 200 (text_length id) then raise (http_error 422 "Invalid client_batch_id") else ok id
    | _ ↦ raise (http_error 422 "Invalid client_batch_id")
  ]
]

-- What the handler passes to the writer.
unfoldable pub parse_request : (Bytes → Option Value) → List Bytes → Result (List Value × String)
unfolding read_body events_of client_id_of
parse_request loads stream = do
  body ← read_body stream []
  batch ← or_raise (loads body) (http_error 400 "Invalid JSON")
  fields ← elim batch [ obj fs ↦ ok fs | _ ↦ bad_events ]
  events ← events_of fields
  client_id ← client_id_of fields
  ok (events, client_id)

-- The `try` around the writer: any exception becomes a 503.
unfoldable pub reply :
    {B : Type 0} → World B × Result Acknowledgement → World B × Result Acknowledgement
reply (w, ok a) = (w, ok a)
reply (w, raise _) =
    (w, raise (http_error 503 "Kafka commit not confirmed; retry with the same business event IDs"))

module _ {B : Type 0} (producer : Producer B) (sha256 : String → String) (text_of : Value → String)
    (prefix : String) where
  -- The handler after its guards.
  unfoldable pub respond :
      String → ℕ → Result (List Value × String) → World B → World B × Result Acknowledgement
  unfolding reply accept
  respond batch_id received_at (raise e) w = (w, raise e)
  respond batch_id received_at (ok (events, client_id)) w =
      reply (accept producer sha256 text_of prefix batch_id received_at events client_id w)

  -- The handler; what it returns is the body of a response with status 202.
  unfoldable pub post_events :
      (Bytes → Option Value) → String → ℕ → List Bytes → World B → World B × Result Acknowledgement
  unfolding parse_request respond
  post_events loads batch_id received_at stream w =
      respond batch_id received_at (parse_request loads stream) w
