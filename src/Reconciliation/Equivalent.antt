-- ===== src/Reconciliation/Equivalent.antt =====
-- The comparison of streams against `compare` of adpulse/oracle.py.
use mathlib.Core.Option
use mathlib.Core.Path.{subst}
use ad_pulse.Prelude.{
  ℕ, String, ◌≡◌, refl, sym, ap, ◌∙◌, ◌↔◌, Bool, true, false, not, [], ◌==◌, string_eq, pair_eq,
  leb, Result, ok, >>=-eq-ok, raise_if-eq-ok, ok-injective, arith, Bool-cases, inl, inr,
  String_discrete,
}
use ad_pulse.Prelude.Dict.{lookup, IsDict}
use ad_pulse.Json.{Value}
use ad_pulse.Oracle.Compare.{Snapshot, metric_map, association_map, compare}
use ad_pulse.Oracle.Compare.Sound.{compare_iff}
use ad_pulse.Reconciliation.{
  rows_of, counters_value, facts_value, expected, actual, Table, put_metrics, put_associations,
  differing, take_rows, order_rows, samples_of, filled, compare_streams, Report,
}
use ad_pulse.Reconciliation.Texts.{
  text_at, texts, counters_text, facts_text, put_metrics-Puts, put_associations-Puts,
}
use ad_pulse.Reconciliation.Differing.{differing-nil_iff}
use ad_pulse.Reconciliation.Values.{
  none≢some, counters_value-injective, facts_value-injective, metric_map-Holds,
  association_map-Holds, IsReadable, AreReadable, same-texts,
}

equal_of_iff : {x y : Bool} → (y ≡ true → x ≡ true) → (x ≡ true → y ≡ true) → x ≡ y
equal_of_iff {x} {y} f g = ground (arith, f, g)

-- The table shows the dictionaries of `compare`, each kind and side as texts.
record Shows (e a : Snapshot) (t : Table) : Type 0 where
  expected_metrics :
      (k : String)
      → text_at expected ("metrics", k) t ≡ texts counters_text (metric_map e.metrics []) k
  actual_metrics :
      (k : String)
      → text_at actual ("metrics", k) t ≡ texts counters_text (metric_map a.metrics []) k
  expected_associations :
      (k : String)
      → text_at expected ("associations", k) t
        ≡ texts facts_text (association_map e.associations []) k
  actual_associations :
      (k : String)
      → text_at actual ("associations", k) t
        ≡ texts facts_text (association_map a.associations []) k
  rest :
      (j : String × String)
      → (j.0 == "metrics") ≡ false
      → (j.0 == "associations") ≡ false
      → text_at expected j t ≡ text_at actual j t
  is_dict : IsDict t

filled-Shows :
    (loads : String → Result Value) (e a : Snapshot) {t : Table}
    → filled loads (rows_of e) (rows_of a) ≡ ok t
    → Shows e a t
unfolding filled rows_of lookup String_discrete
filled-Shows loads e a {t} h =
    let (t₁, h₁, r₁) = >>=-eq-ok (put_metrics expected (rows_of e).metrics []) _ h in
    let (t₂, h₂, r₂) = >>=-eq-ok (put_associations expected (rows_of e).associations t₁) _ r₁ in
    let (t₃, h₃, h₄) = >>=-eq-ok (put_metrics actual (rows_of a).metrics t₂) _ r₂ in
    let p = put_metrics-Puts expected e.metrics [] [] h₁ in
    let q = put_associations-Puts expected e.associations [] t₁ h₂ in
    let u = put_metrics-Puts actual a.metrics [] t₂ h₃ in
    let v = put_associations-Puts actual a.associations [] t₃ h₄ in
    record {
      expected_metrics = λ k.
          v.others ("metrics", k)
          ∙ u.others ("metrics", k)
          ∙ q.elsewhere ("metrics", k) refl
          ∙ p.same (λ j. refl) k;
      actual_metrics = λ k.
          v.elsewhere ("metrics", k) refl
          ∙ u.same (λ j. q.others ("metrics", j) ∙ p.others ("metrics", j)) k;
      expected_associations = λ k.
          v.others ("associations", k)
          ∙ u.others ("associations", k)
          ∙ q.same (λ j. p.elsewhere ("associations", j) refl) k;
      actual_associations = λ k.
          v.same
            (λ j.
              u.elsewhere ("associations", j) refl
              ∙ q.others ("associations", j)
              ∙ p.others ("associations", j))
            k;
      rest = λ j m n.
          (v.others j ∙ u.others j ∙ q.elsewhere j n ∙ p.elsewhere j m)
          ∙ sym (v.elsewhere j n ∙ u.elsewhere j m ∙ q.others j ∙ p.others j);
      is_dict = v.is_dict (u.is_dict (q.is_dict (p.is_dict tt)));
    }

module _ (loads : String → Result Value) where
  -- Both sides of the table are the same exactly if the dictionaries are.
  same_iff :
      (e a : Snapshot) (t : Table)
      → AreReadable loads e
      → AreReadable loads a
      → Shows e a t
      → ((j : String × String) → text_at expected j t ≡ text_at actual j t) ↔ (
          ((k : String) → lookup k (metric_map e.metrics []) ≡ lookup k (metric_map a.metrics []))
          × ((k : String)
              → lookup k (association_map e.associations [])
                ≡ lookup k (association_map a.associations [])))
  unfolding lookup
  same_iff e a t he ha s = (
    λ same. (
      λ k.
          same-texts loads counters_value (metric_map e.metrics []) (metric_map a.metrics [])
            counters_value-injective
            (metric_map-Holds (λ c. IsReadable loads (counters_value c)) e.metrics [] he.0
              (λ j v n. absurd (none≢some n)))
            (metric_map-Holds (λ c. IsReadable loads (counters_value c)) a.metrics [] ha.0
              (λ j v n. absurd (none≢some n)))
            k (sym (s.expected_metrics k) ∙ same ("metrics", k) ∙ s.actual_metrics k),
      λ k.
          same-texts loads facts_value (association_map e.associations [])
            (association_map a.associations []) facts_value-injective
            (association_map-Holds (λ c. IsReadable loads (facts_value c)) e.associations [] he.1
              (λ j v n. absurd (none≢some n)))
            (association_map-Holds (λ c. IsReadable loads (facts_value c)) a.associations [] ha.1
              (λ j v n. absurd (none≢some n)))
            k
            (sym (s.expected_associations k) ∙ same ("associations", k) ∙ s.actual_associations k),
    ),
    λ (m, n) j. elim (Bool-cases (j.0 == "metrics")) [
      | inl kind ↦
          let key : ("metrics", j.1) ≡ j = ground arith in
          subst (λ (i : String × String). text_at expected i t ≡ text_at actual i t) key
            (s.expected_metrics j.1
              ∙ ap (Option.map counters_text) (m j.1)
              ∙ sym (s.actual_metrics j.1))
      | inr not_metric ↦ elim (Bool-cases (j.0 == "associations")) [
        | inl kind ↦
            let key : ("associations", j.1) ≡ j = ground arith in
            subst (λ (i : String × String). text_at expected i t ≡ text_at actual i t) key
              (s.expected_associations j.1
                ∙ ap (Option.map facts_text) (n j.1)
                ∙ sym (s.actual_associations j.1))
        | inr not_association ↦ s.rest j not_metric not_association
      ]
    ],
  )

  -- A report of the streams passes exactly if `compare` passes.
  pub compare_streams-compare :
      (e a : Snapshot) (limit : ℕ) (r : Report)
      → AreReadable loads e
      → AreReadable loads a
      → compare_streams loads (rows_of e) (rows_of a) limit ≡ ok r
      → r.passed ≡ (compare e a).passed
  unfolding compare_streams
  compare_streams-compare e a limit r he ha h =
      let (_, h₁) = raise_if-eq-ok (not (leb limit 1000)) _ _ h in
      let (t, shown, h₂) = >>=-eq-ok (filled loads (rows_of e) (rows_of a)) _ h₁ in
      let (_, _, h₃) =
        >>=-eq-ok (samples_of loads (take_rows limit (order_rows (differing t)))) _ h₂ in
      let count = ap (λ (x : Report). x.passed) (ok-injective h₃) in
      let shows = filled-Shows loads e a shown in
      let (to, from) = differing-nil_iff t shows.is_dict in
      let (facts, passes) = compare_iff e a in
      let (same, back) = same_iff e a t he ha shows in
      sym count ∙ equal_of_iff (λ p. from (back (facts p))) (λ p. passes (same (to p)))
