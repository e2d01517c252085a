-- ===== src/Reconciliation/Texts.antt =====
-- What the table of the comparison shows after the rows of one side and kind.
use mathlib.Core.Option
use mathlib.Core.Path.{subst}
use ad_pulse.Prelude.{
  String, ◌≡◌, refl, ap, ◌∙◌, false, List, [], ◌∷◌, map, Option, some, if◌then◌else◌, ◌==◌,
  string_eq, pair_eq, pair_dec, option_eq, ok, >>=-eq-ok, raise_if-eq-ok, ok-injective, arith,
  Bool-cases, inl, inr, is_some,
}
use ad_pulse.Prelude.Dict.{Dict, lookup, insert, lookup-insert, IsDict, insert-IsDict}
use ad_pulse.Json.{canonical, Value, Fields}
use ad_pulse.Dimensions.{truthy}
use ad_pulse.Oracle.Metrics.{Counters, Metric}
use ad_pulse.Oracle.Calculate.{Association}
use ad_pulse.Oracle.Compare.{Facts, any_count, metric_map, association_map}
use ad_pulse.Reconciliation.{
  counters_fields, counters_value, facts_value, any_truthy, Side, expected, actual, Cell, Table,
  cell_in, text_on, with_text, put_row, put_metrics, put_associations,
}

abbrev pub text_at : Side → String × String → Table → Option String
text_at side key t = text_on side (cell_in (lookup key t))

abbrev pub other : Side → Side
other expected = actual
other actual = expected

text_on-with_text :
    (side : Side) (s : String) (c : Cell) → text_on side (with_text side s c) ≡ some s
text_on-with_text expected s c = refl
text_on-with_text actual s c = refl

other-with_text :
    (side : Side) (s : String) (c : Cell)
    → text_on (other side) (with_text side s c) ≡ text_on (other side) c
other-with_text expected s c = refl
other-with_text actual s c = refl

-- The rows of a kind that a side was given: the side shows what is wanted of that kind, and nothing
-- else changes.
pub record Puts (side : Side) (kind : String) (before after : String → Option String) (t t' : Table)
    : Type 0 where
  pub same :
      ((k : String) → text_at side (kind, k) t ≡ before k)
      → (k : String) → text_at side (kind, k) t' ≡ after k
  pub elsewhere :
      (j : String × String) → (j.0 == kind) ≡ false → text_at side j t' ≡ text_at side j t
  pub others : (j : String × String) → text_at (other side) j t' ≡ text_at (other side) j t
  pub is_dict : IsDict t → IsDict t'

Puts-refl :
    (side : Side) (kind : String) (w : String → Option String) {t t' : Table}
    → t ≡ t'
    → Puts side kind w w t t'
Puts-refl side kind w {t} h =
    subst (Puts side kind w w t) h
      (record { same = λ g k. g k; elsewhere = λ j e. refl; others = λ j. refl; is_dict = λ g. g })

Puts-trans :
    {side : Side} {kind : String} {u v w : String → Option String} {t₁ t₂ t₃ : Table}
    → Puts side kind u v t₁ t₂
    → Puts side kind v w t₂ t₃
    → Puts side kind u w t₁ t₃
Puts-trans p q = record {
  same = λ g. q.same (p.same g);
  elsewhere = λ j e. q.elsewhere j e ∙ p.elsewhere j e;
  others = λ j. q.others j ∙ p.others j;
  is_dict = λ g. q.is_dict (p.is_dict g);
}

pair-eq_left : (j key : String × String) → (j.0 == key.0) ≡ false → (j == key) ≡ false
unfolding pair_dec
pair-eq_left j key h = ground arith

pair-eq_right : (j key : String × String) → j.0 ≡ key.0 → (j == key) ≡ (j.1 == key.1)
unfolding pair_dec
pair-eq_right j key h = ground arith

put_row-Puts :
    (side : Side) (kind key s : String) (before after : String → Option String) (t : Table)
    {t' : Table}
    → ((k : String) → after k ≡ (if k == key then some s else before k))
    → put_row side (kind, key) s t ≡ ok t'
    → Puts side kind before after t t'
unfolding put_row
put_row-Puts side kind key s before after t w h =
    let (_, r) = raise_if-eq-ok (is_some (text_on side (cell_in (lookup (kind, key) t)))) _ _ h in
    let c = with_text side s (cell_in (lookup (kind, key) t)) in
    subst (Puts side kind before after t) (ok-injective r) (record {
      same = λ g k. elim (Bool-cases (k == key)) [
        | inl e ↦
            rw
              (
                lookup-insert (kind, k) (kind, key) c t,
                pair-eq_right (kind, k) (kind, key) refl,
                e,
                w k,
                e,
              )
              (text_on-with_text side s (cell_in (lookup (kind, key) t)))
        | inr e ↦
            rw
              (
                lookup-insert (kind, k) (kind, key) c t,
                pair-eq_right (kind, k) (kind, key) refl,
                e,
                w k,
                e,
              )
              (g k)
      ];
      elsewhere = λ j e. rw (lookup-insert j (kind, key) c t, pair-eq_left j (kind, key) e) refl;
      others = λ j. elim (Bool-cases (j == (kind, key))) [
        | inl e ↦
            let k : (kind, key) ≡ j = ground arith in
            rw (lookup-insert j (kind, key) c t, e)
              (other-with_text side s (cell_in (lookup (kind, key) t))
                ∙ ap (λ (i : String × String). text_on (other side) (cell_in (lookup i t))) k)
        | inr e ↦ rw (lookup-insert j (kind, key) c t, e) refl
      ];
      is_dict = insert-IsDict (kind, key) c t;
    })

-- The texts of the entries of a dictionary
abbrev pub texts : {V : Type 0} → (V → String) → Dict String V → String → Option String
texts f d k = Option.map f (lookup k d)

texts-insert :
    {V : Type 0} (f : V → String) (d : Dict String V) (key : String) (v : V) (k : String)
    → texts f (insert key v d) k ≡ (if k == key then some (f v) else texts f d k)
texts-insert f d key v k = ground (arith, lookup-insert k key v d)

abbrev pub counters_text : Counters → String
counters_text c = canonical (counters_value c)

abbrev pub facts_text : Facts → String
facts_text f = canonical (facts_value f)

abbrev metric_pair : Metric → String × Fields
metric_pair m = (m.metric_key, counters_fields m.values)

abbrev facts_of : Association → Facts
facts_of a = (a.is_match, (a.reason, (a.experiment_id, a.variant)))

abbrev association_pair : Association → String × Value
association_pair a = (a.association_key, facts_value (facts_of a))

-- A counter that is not zero is a value that is truthy.
any_truthy-counters_fields : (c : Counters) → any_truthy (counters_fields c) ≡ any_count c
unfolding any_truthy counters_fields truthy any_count
any_truthy-counters_fields c = ground arith

pub put_metrics-Puts :
    (side : Side) (l : List Metric) (d : Dict String Counters) (t : Table) {t' : Table}
    → put_metrics side (map metric_pair l) t ≡ ok t'
    → Puts side "metrics" (texts counters_text d) (texts counters_text (metric_map l d)) t t'
unfolding put_metrics metric_map
put_metrics-Puts side [] d t h = Puts-refl side "metrics" (texts counters_text d) (ok-injective h)
put_metrics-Puts side (m ∷ l) d t {t'} h = elim (Bool-cases (any_count m.values)) [
  | inl counted ↦
      let (next, e, r) =
        >>=-eq-ok (put_row side ("metrics", m.metric_key) (counters_text m.values) t) _
          (rw (any_truthy-counters_fields m.values, counted) at h) in
      rw counted (
        Puts-trans
          (put_row-Puts side "metrics" m.metric_key (counters_text m.values) (texts counters_text d)
            (texts counters_text (insert m.metric_key m.values d)) t
            (texts-insert counters_text d m.metric_key m.values) e)
          (put_metrics-Puts side l (insert m.metric_key m.values d) next r))
  | inr zero_counts ↦
      rw zero_counts
        (put_metrics-Puts side l d t (rw (any_truthy-counters_fields m.values, zero_counts) at h))
]

pub put_associations-Puts :
    (side : Side) (l : List Association) (d : Dict String Facts) (t : Table) {t' : Table}
    → put_associations side (map association_pair l) t ≡ ok t'
    → Puts side "associations" (texts facts_text d) (texts facts_text (association_map l d)) t t'
unfolding put_associations association_map
put_associations-Puts side [] d t h =
    Puts-refl side "associations" (texts facts_text d) (ok-injective h)
put_associations-Puts side (a ∷ l) d t {t'} h =
    let key = a.association_key in
    let facts = facts_of a in
    let (next, e, r) = >>=-eq-ok (put_row side ("associations", key) (facts_text facts) t) _ h in
    Puts-trans
      (put_row-Puts side "associations" key (facts_text facts) (texts facts_text d)
        (texts facts_text (insert key facts d)) t (texts-insert facts_text d key facts) e)
      (put_associations-Puts side l (insert key facts d) next r)
