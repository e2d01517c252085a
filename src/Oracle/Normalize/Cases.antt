-- ===== src/Oracle/Normalize/Cases.antt =====
-- The ways in which one round of `normalize` can end.
use ad_pulse.Prelude.{
  ℕ, String, ◌≡◌, refl, List, [], ◌∷◌, Option, none, some, ok, >>=-eq-ok, or_raise, arith, ap, ◌∙◌,
  Exception, key_error, string_eq,
}
use ad_pulse.Prelude.{
  Bool, true, false, not, ◌||◌, ltb, nat_eq, pair_eq, Bool-cases, inl, inr, or-eq-false,
}
use ad_pulse.Prelude.Distinct.{member}
use ad_pulse.Json.{Value, obj, Fields, get_field}
use ad_pulse.Oracle.Event.{
  Event, Base, Rules, base_of, decode, decode_base, decode_kind, text, event_key, business_key,
  >>=-eq-some,
}
use ad_pulse.Oracle.Normalize.{
  State, QualityRow, Disposition, cleaned, mark, accept, is_filtered, quarantined, schema_invalid,
  packet_of, prepare, raw_event_id, quality_row, log, admit, judge, normalize_step,
}

-- The rows of the events that pass.
abbrev pub is_cleaned : Disposition → Bool
is_cleaned cleaned = true
is_cleaned _ = false

pub or_raise-eq-ok {ℓ} :
    {A : Type ℓ} (o : Option A) (x : Exception) {a : A} → or_raise o x ≡ ok a → o ≡ some a
or_raise-eq-ok none x h = cc
or_raise-eq-ok (some b) x h = cc

decode_base-receipt_id :
    (receipt : Value) (fs : Fields) {b : Base}
    → decode_base receipt fs ≡ some b
    → b.receipt_id ≡ receipt
unfolding decode_base
decode_base-receipt_id receipt fs h = ground arith

decode_kind-base :
    (kind : String) (b : Base) (fs : Fields) {e : Event}
    → decode_kind kind b fs ≡ some e
    → base_of e ≡ b
unfolding decode_kind
decode_kind-base kind b fs h = ground arith

pub decode-receipt_id :
    (receipt v : Value) {e : Event} → decode receipt v ≡ some e → (base_of e).receipt_id ≡ receipt
unfolding decode
decode-receipt_id receipt (obj fs) h =
    let (b, hb, h₁) = >>=-eq-some (decode_base receipt fs) _ h in
    let (kind, _, h₂) = >>=-eq-some (text "event_type" fs) _ h₁ in
    ap (λ (x : Base). x.receipt_id) (decode_kind-base kind b fs h₂)
    ∙ decode_base-receipt_id receipt fs hb
decode-receipt_id receipt _ h = cc

-- How `admit` ends: it logs a row, it also marks the identifier of a duplicate, or it accepts.
pub data Admission (st : State) (e : Event) (st' : State) : Type 0 where
  logged :
      (row : QualityRow)
      → row.receipt_id ≡ (base_of e).receipt_id
      → is_cleaned row.disposition ≡ false
      → st' ≡ log st row
      → Admission st e st'
  marked :
      (row : QualityRow)
      → row.receipt_id ≡ (base_of e).receipt_id
      → is_cleaned row.disposition ≡ false
      → st' ≡ mark (log st row) e
      → Admission st e st'
  accepted :
      (row : QualityRow)
      → row.receipt_id ≡ (base_of e).receipt_id
      → is_cleaned row.disposition ≡ true
      → member (event_key (base_of e)) st.seen_ids ≡ false
      → member (business_key e) st.seen_keys ≡ false
      → st' ≡ accept st row e
      → Admission st e st'

pub admit-Admission :
    (rules : Rules) (st : State) (id : Value) (e : Event) → Admission st e (admit rules st id e)
unfolding admit
admit-Admission rules st id e =
    let b : Base = base_of e in
    elim (Bool-cases (not (member b.schema_version rules.schema_versions))) [
      | inl disabled ↦ rw disabled (logged _ refl refl refl)
      | inr enabled ↦
          rw enabled
            (elim (Bool-cases
              (ltb b.event_time rules.effective_from || is_filtered rules b.region)) [
                | inl out ↦ rw out (logged _ refl refl refl)
                | inr kept ↦
                    rw kept
                      (elim (Bool-cases (
                        member (event_key b) st.seen_ids || member (business_key e) st.seen_keys)) [
                          | inl old ↦ rw old (marked _ refl refl refl)
                          | inr new ↦
                              rw new
                                (let (i, k) = or-eq-false _ _ new in accepted _ refl refl i k refl)
                        ])
              ])
    ]

-- A round either logs a rejected record or admits an event, both under the packet's receipt.
pub data Outcome (rules : Rules) (receipt : Value) (st st' : State) : Type 0 where
  rejected :
      (row : QualityRow)
      → row.receipt_id ≡ receipt
      → is_cleaned row.disposition ≡ false
      → st' ≡ log st row
      → Outcome rules receipt st st'
  admitted :
      (event_id : Value) (e : Event)
      → (base_of e).receipt_id ≡ receipt
      → st' ≡ admit rules st event_id e
      → Outcome rules receipt st st'

module _ (errors : Value → List String) (rules : Rules) where
  judge-Outcome :
      (st : State) (receipt event event' : Value) (messages : List String) {st' : State}
      → judge errors rules st receipt event event' messages ≡ ok st'
      → Outcome rules receipt st st'
  unfolding judge
  judge-Outcome st receipt event event' (message ∷ _) h =
      rejected
        (quality_row rules receipt (raw_event_id event) quarantined schema_invalid (some message))
        refl refl (cc)
  judge-Outcome st receipt event event' [] h =
      let (e, he, hs) = >>=-eq-ok (or_raise (decode receipt event') (key_error "event")) _ h in
      admitted (raw_event_id event) e
        (decode-receipt_id receipt event' (or_raise-eq-ok (decode receipt event') _ he)) (cc)

  pub normalize_step-Outcome :
      (st : State) (ordinal : ℕ) (raw : Fields) {st' : State}
      → normalize_step errors rules st ordinal raw ≡ ok st'
      → (receipt : Value) × (get_field "receipt_id" (packet_of ordinal raw) ≡ some receipt)
        × Outcome rules receipt st st'
  unfolding normalize_step
  normalize_step-Outcome st ordinal raw h =
      let packet : Fields = packet_of ordinal raw in
      let (event, he, h₁) =
        >>=-eq-ok (or_raise (get_field "event" packet) (key_error "event")) _ h in
      let (receipt, hr, h₂) =
        >>=-eq-ok (or_raise (get_field "receipt_id" packet) (key_error "receipt_id")) _ h₁ in
      let (event', hp, h₃) = >>=-eq-ok (prepare rules packet event) _ h₂ in
      (
        receipt,
        or_raise-eq-ok (get_field "receipt_id" packet) _ hr,
        judge-Outcome st receipt event event' (errors event') h₃,
      )
