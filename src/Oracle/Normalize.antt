-- ===== src/Oracle/Normalize.antt =====
-- adpulse/oracle.py, `normalize`: renaming, validation, rule filters and deduplication, with one
-- lineage row for each record. The schema validator is third-party code: `errors` gives the sorted
-- messages of `validate.iter_errors`. The state holds the loop's four containers.
pub mod Cases
pub mod Dedup
pub mod Lineage
pub mod Total
use ad_pulse.Prelude.{
  ℕ, suc, String, Bool, true, false, ◌&&◌, not, List, [], ◌∷◌, ◌++◌, Option, none, some, ltb,
  if◌then◌else◌, ◌||◌, Result, ok, raise, ◌>>=◌, or_raise, key_error, string_eq, nat_eq, pair_eq,
}
use ad_pulse.Prelude.Distinct.{member, add}
use ad_pulse.Json.{
  Value, null, str, num, obj, Fields, end, field, get_field, set_field, pop_field, has_field,
  decimal,
}
use Prim.Native.String.{◌++◌ as str_append}
use ad_pulse.Oracle.Event.{
  Event, Base, Rules, Scope, BusinessKey, base_of, event_key, business_key, decode,
}

pub data Disposition : Type 0 where
  quarantined filtered duplicate cleaned signal : Disposition

pub data ErrorCode : Type 0 where
  schema_invalid schema_version_disabled rule_filtered duplicate_event_id duplicate_business_key :
      ErrorCode
  all_ok : ErrorCode
  impression_not_found impression_identity_mismatch impression_campaign_mismatch : ErrorCode
  click_before_impression impression_window_exceeded : ErrorCode

pub record QualityRow : Type 0 where
  pub receipt_id : Value
  pub event_id : Value
  pub rule_version : String
  pub rule_id : String
  pub dataset : String
  pub disposition : Disposition
  pub error_code : ErrorCode
  pub detail : Option String

pub record State : Type 0 where
  pub events : List Event
  pub quality : List QualityRow
  pub seen_ids : List Scope
  pub seen_keys : List BusinessKey

abbrev pub start : State
start = record { events = []; quality = []; seen_ids = []; seen_keys = [] }

-- `raw if "event" in raw else {...}`
unfoldable pub packet_of : ℕ → Fields → Fields
unfolding get_field decimal
packet_of ordinal raw =
    if has_field "event" raw
    then raw
    else field "event" (obj raw) (
        field "receipt_id" (str (str_append "oracle:" (decimal ordinal)))
          (field "received_at" (num ordinal) end))

-- `for source, target in rules["field_mappings"].items()`
unfoldable pub rename : List (String × String) → Fields → Fields
unfolding get_field set_field pop_field
rename [] fs = fs
rename ((source, target) ∷ l) fs = rename l (elim (get_field source fs) [
  | none ↦ fs
  | some v ↦ if has_field target fs then fs else set_field target v (pop_field source fs)
])

-- The event that is validated: renamed, with the packet's `received_at`, if it is a dictionary.
unfoldable pub prepare : Rules → Fields → Value → Result Value
unfolding rename get_field set_field
prepare rules packet (obj fs) = do
  received_at ← or_raise (get_field "received_at" packet) (key_error "received_at")
  ok (obj (set_field "received_at" received_at (rename rules.field_mappings fs)))
prepare rules packet v = ok v

-- `event.get("event_id") if isinstance(event, dict) else None`, before the renaming
unfoldable pub raw_event_id : Value → Value
unfolding get_field
raw_event_id (obj fs) = elim (get_field "event_id" fs) [ some v ↦ v | none ↦ null ]
raw_event_id _ = null

unfoldable pub log : State → QualityRow → State
log st row = record st { quality = st.quality ++ row ∷ [] }

abbrev pub quality_row :
    Rules → Value → Value → Disposition → ErrorCode → Option String → QualityRow
quality_row rules receipt event_id disposition code detail = record {
  receipt_id = receipt;
  event_id = event_id;
  rule_version = rules.rule_version;
  rule_id = "event-contract-v1";
  dataset = "raw_events";
  disposition = disposition;
  error_code = code;
  detail = detail;
}

-- `seen_ids.add(event_key)`
unfoldable pub mark : State → Event → State
mark st event = record st { seen_ids = add (event_key (base_of event)) st.seen_ids }

-- The last lines of the loop, for an event that is new.
unfoldable pub accept : State → QualityRow → Event → State
accept st row event = record {
  events = st.events ++ event ∷ [];
  quality = st.quality ++ row ∷ [];
  seen_ids = add (event_key (base_of event)) st.seen_ids;
  seen_keys = add (business_key event) st.seen_keys;
}

-- `event.get("region") in rules["filter_regions"]`
abbrev pub is_filtered : Rules → Option String → Bool
is_filtered rules none = false
is_filtered rules (some r) = member r rules.filter_regions

-- What becomes of an event that the schema accepts.
unfoldable pub admit : Rules → State → Value → Event → State
admit rules st event_id event =
    let b = base_of event in
    let row = quality_row rules b.receipt_id event_id in
    if not (member b.schema_version rules.schema_versions)
    then log st (row quarantined schema_version_disabled none)
    else if ltb b.event_time rules.effective_from || is_filtered rules b.region
    then log st (row filtered rule_filtered none)
    else if member (event_key b) st.seen_ids || member (business_key event) st.seen_keys
    then (let code =
          if member (event_key b) st.seen_ids then duplicate_event_id else duplicate_business_key in
        mark (log st (row duplicate code none)) event)
    else accept st (row cleaned all_ok none) event

module _ (errors : Value → List String) (rules : Rules) where
  -- The rest of a round, once the validator has given its messages.
  unfoldable pub judge : State → Value → Value → Value → List String → Result State
  unfolding log raw_event_id admit decode
  judge st receipt event event' (message ∷ _) = ok (
      log st
        (quality_row rules receipt (raw_event_id event) quarantined schema_invalid (some message)))
  judge st receipt event event' [] = do
    e ← or_raise (decode receipt event') (key_error "event")
    ok (admit rules st (raw_event_id event) e)

  -- The body of the loop.
  unfoldable pub normalize_step : State → ℕ → Fields → Result State
  unfolding packet_of prepare judge get_field
  normalize_step st ordinal raw = do
    let packet = packet_of ordinal raw
    event ← or_raise (get_field "event" packet) (key_error "event")
    receipt ← or_raise (get_field "receipt_id" packet) (key_error "receipt_id")
    event' ← prepare rules packet event
    judge st receipt event event' (errors event')

  unfoldable pub normalize_from : State → ℕ → List Fields → Result State
  unfolding normalize_step
  normalize_from st ordinal [] = ok st
  normalize_from st ordinal (raw ∷ records) = do
    st' ← normalize_step st ordinal raw
    normalize_from st' (suc ordinal) records

  unfoldable pub normalize : List Fields → Result State
  unfolding normalize_from
  normalize records = normalize_from start 0 records
