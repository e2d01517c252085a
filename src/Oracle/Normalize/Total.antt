-- ===== src/Oracle/Normalize/Total.antt =====
-- `normalize` returns on well-formed packets, if the validator lets through only what can be read.
use ad_pulse.Prelude.{
  String_discrete, ℕ, suc, String, ◌≡◌, refl, true, List, [], ◌∷◌, some, ok, string_eq, Bool-cases,
  inl, inr, Option-cases,
}
use mathlib.Core.Bool.{false≢true}
use Prim.Native.String.{◌++◌ as str_append}
use ad_pulse.Prelude.{All}
use ad_pulse.Json.{Value, obj, str, num, decimal, set_field, Fields, get_field, has_field}
use ad_pulse.Oracle.Event.{Event, Rules, decode}
use ad_pulse.Oracle.Normalize.{
  State, start, packet_of, prepare, judge, admit, raw_event_id, rename, normalize_step,
  normalize_from, normalize,
}

-- A record that is a packet carries its receipt and the time it was received at.
abbrev pub IsPacket : Fields → Type 0
IsPacket raw =
    has_field "event" raw ≡ true
    → (has_field "receipt_id" raw ≡ true) × (has_field "received_at" raw ≡ true)

field_of :
    (k : String) (fs : Fields) → has_field k fs ≡ true → (v : Value) × (get_field k fs ≡ some v)
field_of k fs h = elim (Option-cases (get_field k fs)) [
  | inl missing ↦ absurd (false≢true (rw missing at h))
  | inr found ↦ found
]

packet_of-fields :
    (n : ℕ) (raw : Fields)
    → IsPacket raw
    → (e : Value) × (r : Value) × (t : Value) × (get_field "event" (packet_of n raw) ≡ some e)
      × (get_field "receipt_id" (packet_of n raw) ≡ some r)
      × (get_field "received_at" (packet_of n raw) ≡ some t)
unfolding packet_of get_field String_discrete
packet_of-fields n raw h = elim (Bool-cases (has_field "event" raw)) [
  | inl packet ↦
      let (e, he) = field_of "event" raw packet in
      let (r, hr) = field_of "receipt_id" raw (h packet).0 in
      let (t, ht) = field_of "received_at" raw (h packet).1 in
      (e, r, t, rw packet he, rw packet hr, rw packet ht)
  | inr bare ↦ (
    obj raw,
    str (str_append "oracle:" (decimal n)),
    num n,
    rw bare refl,
    rw bare refl,
    rw bare refl,
  )
]

-- The contract of the validator: what it accepts can be read as an event.
abbrev pub IsReadable : (Value → List String) → Type 0
IsReadable errors = (receipt v : Value) → errors v ≡ [] → (e : Event) × (decode receipt v ≡ some e)

module _ (errors : Value → List String) (rules : Rules) (readable : IsReadable errors) where
  judge_total :
      (st : State) (receipt event event' : Value) (messages : List String)
      → errors event' ≡ messages
      → (st' : State) × (judge errors rules st receipt event event' messages ≡ ok st')
  unfolding judge
  judge_total st receipt event event' (m ∷ _) h = (_, refl)
  judge_total st receipt event event' [] h =
      let (e, d) = readable receipt event' h in (admit rules st (raw_event_id event) e, rw d refl)

  prepare_total :
      (packet : Fields) (event : Value) {t : Value}
      → get_field "received_at" packet ≡ some t
      → (event' : Value) × (prepare rules packet event ≡ ok event')
  unfolding prepare
  prepare_total packet (obj fs) {t} h =
      (obj (set_field "received_at" t (rename rules.field_mappings fs)), rw h refl)
  prepare_total packet v {t} h = (v, refl)

  step_total :
      (st : State) (n : ℕ) (raw : Fields)
      → IsPacket raw
      → (st' : State) × (normalize_step errors rules st n raw ≡ ok st')
  unfolding normalize_step
  step_total st n raw h =
      let (e, r, t, he, hr, ht) = packet_of-fields n raw h in
      let (event', hp) = prepare_total (packet_of n raw) e ht in
      let (st', hj) = judge_total st r e event' (errors event') refl in (st', simp (he, hr, hp) hj)

  from_total :
      (st : State) (n : ℕ) (records : List Fields)
      → All IsPacket records
      → (st' : State) × (normalize_from errors rules st n records ≡ ok st')
  unfolding normalize_from
  from_total st n [] h = (st, refl)
  from_total st n (raw ∷ records) h =
      let (st₁, e₁) = step_total st n raw h.0 in
      let (st', e') = from_total st₁ (suc n) records h.1 in (st', rw e₁ e')

  -- If the validator accepts only events that can be read, `normalize` returns on every list of
  -- records in which each packet has its receipt and the time it was received at.
  pub normalize_total :
      (records : List Fields)
      → All IsPacket records
      → (st : State) × (normalize errors rules records ≡ ok st)
  unfolding normalize
  normalize_total records h = from_total start 0 records h
