-- ===== src/Storage/Payload.antt =====
-- The reads that adpulse/storage.py and adpulse/archive.py make of a payload. Identifiers are texts and offsets are numbers; a value
-- of another type counts as a type error.
use ad_pulse.Prelude.{
  ℕ, String, none, some, Result, ok, or_raise, raise, key_error, type_error, string_eq,
}
use ad_pulse.Json.{Value, str, num, Fields, get_field}

-- `payload[k]` where a text is wanted
unfoldable pub text_at : String → Fields → Result String
unfolding get_field
text_at k fs = elim (get_field k fs) [
  | none ↦ raise (key_error k)
  | some v ↦ elim v [ str s ↦ ok s | _ ↦ raise (type_error k) ]
]

-- `payload[k]` where a number is wanted
unfoldable pub number_at : String → Fields → Result ℕ
unfolding get_field
number_at k fs = elim (get_field k fs) [
  | none ↦ raise (key_error k)
  | some v ↦ elim v [ num n ↦ ok n | _ ↦ raise (type_error k) ]
]

-- `payload.get(k, default)`
unfoldable pub text_or : String → String → Fields → Result String
unfolding get_field
text_or k default fs = elim (get_field k fs) [
  | none ↦ ok default
  | some v ↦ elim v [ str s ↦ ok s | _ ↦ raise (type_error k) ]
]

-- `payload[k]`
unfoldable pub value_at : String → Fields → Result Value
unfolding get_field
value_at k fs = or_raise (get_field k fs) (key_error k)

-- `payload.get(k, default)`
unfoldable pub value_or : String → Value → Fields → Value
unfolding get_field
value_or k default fs = elim (get_field k fs) [ some v ↦ v | none ↦ default ]
