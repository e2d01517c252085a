-- ===== src/Api/Rows/Ratios.antt =====
-- The rates that the metrics endpoint adds to its rows.
use ad_pulse.Prelude.{
  ℕ, zero, suc, ◌<◌, String, ◌≡◌, refl, sym, ap, ◌∙◌, map, ◌⊎◌, inl, inr, Bool, true, false, List,
  [], ◌∷◌, Option, none, some, ◌==◌, string_eq, ok, >>=-eq-ok, ok-injective, arith, All,
}
use mathlib.Core.Path.{subst}
use ad_pulse.Json.{Value, str, obj, Fields, value_eq}
use ad_pulse.Storage.Payload.{value_at, number_at}
use ad_pulse.Archive.Reconcile.{object, object-eq-ok}
use ad_pulse.Api.Rows.{MetricRow, quotient, ratio, status_of, with_ratios, all_with_ratios}

-- A rate is the quotient of two of the row's counts, the second not zero, and only in its cohort; it
-- is missing only in another cohort or when the second count is zero.
abbrev pub IsRate : Option (ℕ × ℕ) → String → String → String → Value → Fields → Type 0
IsRate none cohort over under basis counts =
    ((basis == str cohort) ≡ false) ⊎ (number_at under counts ≡ ok 0)
IsRate (some (m, n)) cohort over under basis counts =
    (basis ≡ str cohort)
    × (0 < n)
    × (number_at over counts ≡ ok m)
    × (number_at under counts ≡ ok n)

quotient-IsRate :
    (cohort over under : String) (basis : Value) (counts : Fields) (n : ℕ) (r : Option (ℕ × ℕ))
    → basis ≡ str cohort
    → number_at under counts ≡ ok n
    → quotient over n counts ≡ ok r
    → IsRate r cohort over under basis counts
unfolding quotient
quotient-IsRate cohort over under basis counts zero r b u h =
    subst (λ (q : Option (ℕ × ℕ)). IsRate q cohort over under basis counts) (ok-injective h) (inr u)
quotient-IsRate cohort over under basis counts (suc n) r b u h =
    let (m, e, r₁) = >>=-eq-ok (number_at over counts) _ h in
    subst (λ (q : Option (ℕ × ℕ)). IsRate q cohort over under basis counts) (ok-injective r₁)
      (b, omega arith, e, u)

is_of_cohort : (basis : Value) (cohort : String) → (basis == str cohort) ≡ true → basis ≡ str cohort
is_of_cohort basis cohort h = ground arith

ratio-IsRate :
    (cohort over under : String) (basis : Value) (counts : Fields) (b : Bool) (r : Option (ℕ × ℕ))
    → (basis == str cohort) ≡ b
    → ratio b over under counts ≡ ok r
    → IsRate r cohort over under basis counts
unfolding ratio
ratio-IsRate cohort over under basis counts false r b h =
    subst (λ (q : Option (ℕ × ℕ)). IsRate q cohort over under basis counts) (ok-injective h) (inl b)
ratio-IsRate cohort over under basis counts true r b h =
    let (n, e, r₁) = >>=-eq-ok (number_at under counts) _ h in
    quotient-IsRate cohort over under basis counts n r (is_of_cohort basis cohort b) e r₁

-- What the endpoint says of a row.
pub record IsRated (r : MetricRow) : Type 0 where
  pub basis : Value
  pub counts : Fields
  pub is_counts : value_at "values" r.row ≡ ok (obj counts)
  pub is_basis : value_at "cohort_basis" r.row ≡ ok basis
  pub is_ctr : IsRate r.ctr "impression" "clicks" "impressions" basis counts
  pub is_cvr : IsRate r.cvr "click" "converted_clicks" "clicks" basis counts

with_ratios-IsRated : (row : Fields) {r : MetricRow} → with_ratios row ≡ ok r → IsRated r
unfolding with_ratios
with_ratios-IsRated row h =
    let (given, e₁, r₁) = >>=-eq-ok (value_at "values" row) _ h in
    let (counts, e₂, r₂) = >>=-eq-ok (object given) _ r₁ in
    let (basis, e₃, r₃) = >>=-eq-ok (value_at "cohort_basis" row) _ r₂ in
    let (ctr, e₄, r₄) =
      >>=-eq-ok (ratio (basis == str "impression") "clicks" "impressions" counts) _ r₃ in
    let (cvr, e₅, r₅) =
      >>=-eq-ok (ratio (basis == str "click") "converted_clicks" "clicks" counts) _ r₄ in
    let (experiment, _, r₆) = >>=-eq-ok (value_at "experiment_id" row) _ r₅ in
    let (status, _, r₇) = >>=-eq-ok (status_of experiment counts) _ r₆ in
    subst IsRated (ok-injective r₇) (record {
      basis = basis;
      counts = counts;
      is_counts = e₁ ∙ ap ok (object-eq-ok given e₂);
      is_basis = e₃;
      is_ctr = ratio-IsRate "impression" "clicks" "impressions" basis counts _ ctr refl e₄;
      is_cvr = ratio-IsRate "click" "converted_clicks" "clicks" basis counts _ cvr refl e₅;
    })

with_ratios-row : (row : Fields) {r : MetricRow} → with_ratios row ≡ ok r → r.row ≡ row
unfolding with_ratios
with_ratios-row row h =
    let (given, e₁, r₁) = >>=-eq-ok (value_at "values" row) _ h in
    let (counts, e₂, r₂) = >>=-eq-ok (object given) _ r₁ in
    let (basis, e₃, r₃) = >>=-eq-ok (value_at "cohort_basis" row) _ r₂ in
    let (ctr, e₄, r₄) =
      >>=-eq-ok (ratio (basis == str "impression") "clicks" "impressions" counts) _ r₃ in
    let (cvr, e₅, r₅) =
      >>=-eq-ok (ratio (basis == str "click") "converted_clicks" "clicks" counts) _ r₄ in
    let (experiment, _, r₆) = >>=-eq-ok (value_at "experiment_id" row) _ r₅ in
    let (status, _, r₇) = >>=-eq-ok (status_of experiment counts) _ r₆ in
    sym (ap (λ (r : MetricRow). r.row) (ok-injective r₇))

-- The rows of a page of metrics are those that were read, in their order. In every one, by the counts
-- of the row's own values, the click-through rate is clicks over impressions and stands exactly in the
-- impression cohort when there are impressions, the conversion rate is converted clicks over clicks
-- and stands exactly in the click cohort when there are clicks, and neither divides by zero.
pub rows-IsRated :
    (rows : List Fields) {found : List MetricRow}
    → all_with_ratios rows ≡ ok found
    → All IsRated found × (map (λ (r : MetricRow). r.row) found ≡ rows)
unfolding all_with_ratios
rows-IsRated [] h =
    subst (λ (l : List MetricRow). All IsRated l × (map (λ (r : MetricRow). r.row) l ≡ []))
      (ok-injective h) (tt, refl)
rows-IsRated (row ∷ l) h =
    let (r, e, r₁) = >>=-eq-ok (with_ratios row) _ h in
    let (rest, e₂, r₂) = >>=-eq-ok (all_with_ratios l) _ r₁ in
    let (rated, same) = rows-IsRated l e₂ in
    subst (λ (l' : List MetricRow). All IsRated l' × (map (λ (r : MetricRow). r.row) l' ≡ row ∷ l))
      (ok-injective r₂) ((with_ratios-IsRated row e, rated), rw (with_ratios-row row e, same) refl)
