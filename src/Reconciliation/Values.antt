-- ===== src/Reconciliation/Values.antt =====
-- The values of the rows are read back from their texts.
use mathlib.Core.Option
use ad_pulse.Prelude.{
  some_injective, String, ◌≡◌, refl, sym, ap, ◌∙◌, Bool, true, false, List, [], ◌∷◌, Option, none,
  some, if◌then◌else◌, ◌==◌, string_eq, pair_eq, Result, ok, ok-injective, arith, All, Bool-cases,
  Option-cases, inl, inr, String_discrete,
}
use ad_pulse.Prelude.Dict.{Dict, lookup, insert, lookup-insert}
use ad_pulse.Json.{Value, str, arr, nil, cons, canonical}
use ad_pulse.Oracle.Metrics.{Counters, Metric}
use ad_pulse.Oracle.Calculate.{
  Association, Reason, matched, click_not_found, identity_mismatch, campaign_mismatch,
  click_after_conversion, attribution_window_exceeded,
}
use ad_pulse.Oracle.Compare.{Snapshot, Facts, any_count, metric_map, association_map}
use ad_pulse.Reconciliation.{counters_fields, counters_value, facts_value, reason_text}
use ad_pulse.Reconciliation.Texts.{texts}

pub none≢some : {A : Type 0} {x : A} → ¬ (none ≡ some x)
none≢some h = cc

pub counters_value-injective : (b c : Counters) → counters_value b ≡ counters_value c → b ≡ c
unfolding counters_fields
counters_value-injective b c h = cc

abbrev reason_named : String → Option Reason
reason_named s =
    if s == "MATCHED"
    then some matched
    else if s == "CLICK_NOT_FOUND"
    then some click_not_found
    else if s == "IDENTITY_MISMATCH"
    then some identity_mismatch
    else if s == "CAMPAIGN_MISMATCH"
    then some campaign_mismatch
    else if s == "CLICK_AFTER_CONVERSION"
    then some click_after_conversion
    else some attribution_window_exceeded

reason_named-reason_text : (r : Reason) → reason_named (reason_text r) ≡ some r
unfolding String_discrete
reason_named-reason_text matched = refl
reason_named-reason_text click_not_found = refl
reason_named-reason_text identity_mismatch = refl
reason_named-reason_text campaign_mismatch = refl
reason_named-reason_text click_after_conversion = refl
reason_named-reason_text attribution_window_exceeded = refl

reason_text-injective : (r s : Reason) → reason_text r ≡ reason_text s → r ≡ s
reason_text-injective r s h =
    let named = sym (reason_named-reason_text r) ∙ ap reason_named h ∙ reason_named-reason_text s in
    cc

abbrev status_text : Bool → String
status_text m = if m then "matched" else "unmatched"

is_matched-status_text : (m : Bool) → (status_text m == "matched") ≡ m
unfolding String_discrete
is_matched-status_text true = refl
is_matched-status_text false = refl

status_text-injective : (m n : Bool) → status_text m ≡ status_text n → m ≡ n
status_text-injective m n h =
    sym (is_matched-status_text m)
    ∙ ap (λ (s : String). s == "matched") h
    ∙ is_matched-status_text n

abbrev text_items : Value → Option (String × (String × (String × String)))
text_items (arr (cons (str a) (cons (str b) (cons (str c) (cons (str d) nil))))) =
    some (a, (b, (c, d)))
text_items v = none

pub facts_value-injective : (f g : Facts) → facts_value f ≡ facts_value g → f ≡ g
unfolding facts_value
facts_value-injective (m, (r, (x, v))) (m', (r', (x', v'))) h =
    let items = ap text_items h in
    let is_match : status_text m ≡ status_text m' = cc in
    let reason : reason_text r ≡ reason_text r' = cc in
    let same_match = status_text-injective m m' is_match in
    let same_reason = reason_text-injective r r' reason in cc

-- Every value that a dictionary holds has the property.
abbrev pub Holds : {V : Type 0} → (V → Type 0) → Dict String V → Type 0
Holds {V} P d = (k : String) (v : V) → lookup k d ≡ some v → P v

insert-Holds :
    {V : Type 0} (P : V → Type 0) (key : String) (w : V) (d : Dict String V)
    → P w
    → Holds P d
    → Holds P (insert key w d)
insert-Holds P key w d p h k v e = ground (arith, lookup-insert k key w d, h k v, p)

pub metric_map-Holds :
    (P : Counters → Type 0) (l : List Metric) (d : Dict String Counters)
    → All (λ (m : Metric). P m.values) l
    → Holds P d
    → Holds P (metric_map l d)
unfolding metric_map
metric_map-Holds P [] d g h = h
metric_map-Holds P (m ∷ l) d g h = elim (Bool-cases (any_count m.values)) [
  | inl c ↦ rw c (
      metric_map-Holds P l (insert m.metric_key m.values d) g.1
        (insert-Holds P m.metric_key m.values d g.0 h))
  | inr z ↦ rw z (metric_map-Holds P l d g.1 h)
]

pub association_map-Holds :
    (P : Facts → Type 0) (l : List Association) (d : Dict String Facts)
    → All (λ (a : Association). P (a.is_match, (a.reason, (a.experiment_id, a.variant)))) l
    → Holds P d
    → Holds P (association_map l d)
unfolding association_map
association_map-Holds P [] d g h = h
association_map-Holds P (a ∷ l) d g h =
    association_map-Holds P l (insert a.association_key _ d) g.1
      (insert-Holds P a.association_key _ d g.0 h)

module _ (loads : String → Result Value) where
  abbrev pub IsReadable : Value → Type 0
  IsReadable v = loads (canonical v) ≡ ok v

  canonical-injective :
      (v w : Value) → IsReadable v → IsReadable w → canonical v ≡ canonical w → v ≡ w
  canonical-injective v w r s e = ok-injective (sym r ∙ ap loads e ∙ s)

  -- `json.loads` gives back the values that the rows of a result are written as.
  abbrev pub AreReadable : Snapshot → Type 0
  AreReadable s =
      All (λ (m : Metric). IsReadable (counters_value m.values)) s.metrics
      × All
          (λ (a : Association).
            IsReadable (facts_value (a.is_match, (a.reason, (a.experiment_id, a.variant)))))
          s.associations

  pub same-texts :
      {V : Type 0} (f : V → Value) (d d' : Dict String V)
      → ((v w : V) → f v ≡ f w → v ≡ w)
      → Holds (λ v. IsReadable (f v)) d
      → Holds (λ v. IsReadable (f v)) d'
      → (k : String) → texts (λ v. canonical (f v)) d k ≡ texts (λ v. canonical (f v)) d' k
      → lookup k d ≡ lookup k d'
  same-texts {V} f d d' injective h h' k e =
      let text : V → String = λ v. canonical (f v) in
      elim (Option-cases (lookup k d)) [
        | inl n ↦ elim (Option-cases (lookup k d')) [
          | inl n' ↦ n ∙ sym n'
          | inr (w, p) ↦
              let c = sym (ap (Option.map text) n) ∙ e ∙ ap (Option.map text) p in
              absurd (none≢some c)
        ]
        | inr (v, p) ↦ elim (Option-cases (lookup k d')) [
          | inl n' ↦
              let c = sym (ap (Option.map text) n') ∙ sym e ∙ ap (Option.map text) p in
              absurd (none≢some c)
          | inr (w, q) ↦
              let c = sym (ap (Option.map text) p) ∙ e ∙ ap (Option.map text) q in
              let t = some_injective (canonical (f v)) (canonical (f w)) c in
              let same = injective v w (canonical-injective (f v) (f w) (h k v p) (h' k w q) t) in
              p ∙ ap (λ (x : V). some x) same ∙ sym q
        ]
      ]
