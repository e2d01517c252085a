-- ===== src/Oracle/Calculate/Keyed.antt =====
-- The rows of `calculate` stand under the keys of their dimensions.
use ad_pulse.Prelude.{
  ℕ, String, ◌≡◌, refl, Bool, true, false, List, [], ◌∷◌, Option, none, some, ◌==◌, ap,
  if◌then◌else◌, arith, string_eq, pair_eq, inl, inr, Bool-cases, Option-cases, All,
}
use ad_pulse.Prelude.Dict.{Dict, lookup, insert, values}
use ad_pulse.Prelude.Sort.{sum_list, sort_by-All}
use ad_pulse.Oracle.Event.{Event, Base, Impression, Click, Conversion, Rules}
use ad_pulse.Oracle.Metrics.{
  Dimension, Dims, Cohort, Counters, Metric, Metrics, key_of, key_for, dims_for, add_at, add,
}
use ad_pulse.Oracle.Normalize.{State}
use ad_pulse.Oracle.Calculate.Cells.{held}
use ad_pulse.Oracle.Calculate.{
  Key, Joins, Matches, count_impressions, add_linked, click_step, join_clicks, settle, match_step,
  conversion_step, match_conversions, joins_of, matches_of, calculate_from,
}

module _ (rules : Rules) (release_id : String) (dimensions : List Dimension) where
  -- The key of a row is that of its dimensions.
  abbrev pub IsKeyed : Metric → Type 0
  IsKeyed r = key_of rules dimensions r.dims ≡ r.metric_key

  abbrev IsCell : String × Metric → Type 0
  IsCell (k, r) = (k ≡ r.metric_key) × IsKeyed r

  lookup-IsCell :
      (k : String) (m : Metrics) (r : Metric) → All IsCell m → lookup k m ≡ some r → IsCell (k, r)
  unfolding lookup
  lookup-IsCell k [] r h found = absurd (cc)
  lookup-IsCell k ((j, x) ∷ m) r h found = elim (Bool-cases (k == j)) [
    | inl e ↦ let same = found in let cell = h.0 in ground arith
    | inr e ↦ lookup-IsCell k m r h.1 (rw e at found)
  ]

  insert-IsCell :
      (k : String) (r : Metric) (m : Metrics)
      → IsCell (k, r)
      → All IsCell m
      → All IsCell (insert k r m)
  unfolding insert
  insert-IsCell k r [] c h = (c, tt)
  insert-IsCell k r ((j, x) ∷ m) c h = elim (Bool-cases (k == j)) [
    | inl e ↦ rw e ((ground arith, c.1), h.1)
    | inr e ↦ rw e (h.0, insert-IsCell k r m c h.1)
  ]

  add_at-IsCell :
      (d : Dims) (delta : Counters) (m : Metrics)
      → All IsCell m
      → All IsCell (add_at rules dimensions release_id (key_of rules dimensions d) d delta m)
  unfolding add_at
  add_at-IsCell d delta m h = elim (Option-cases (lookup (key_of rules dimensions d) m)) [
    | inl fresh ↦ rw fresh (insert-IsCell _ _ m (refl, refl) h)
    | inr (r, found) ↦ rw found (insert-IsCell _ _ m (lookup-IsCell _ m r h found) h)
  ]

  add-IsCell :
      (event : Base) (i : Option Impression) (timestamp : ℕ) (cohort : Cohort) (currency : String)
      (delta : Counters) (m : Metrics)
      → All IsCell m
      → All IsCell (add rules dimensions release_id event i timestamp cohort currency delta m)
  unfolding add key_for
  add-IsCell event i timestamp cohort currency delta m h =
      add_at-IsCell (dims_for rules dimensions event i timestamp cohort currency) delta m h

  count_impressions-IsCell :
      (l : List Impression) (m : Metrics)
      → All IsCell m
      → All IsCell (count_impressions rules release_id dimensions l m)
  unfolding count_impressions
  count_impressions-IsCell [] m h = h
  count_impressions-IsCell (i ∷ l) m h =
      count_impressions-IsCell l _ (add-IsCell _ _ _ _ _ _ _ (add-IsCell _ _ _ _ _ _ m h))

  add_linked-IsCell :
      (c : Click) (i : Option Impression) (m : Metrics)
      → All IsCell m
      → All IsCell (add_linked rules release_id dimensions c i m)
  unfolding add_linked
  add_linked-IsCell c none m h = h
  add_linked-IsCell c (some i) m h = add-IsCell _ _ _ _ _ _ m h

  join_clicks-IsCell :
      (impressions : Dict Key Impression) (l : Dict Key Click) (st : Joins)
      → All IsCell st.metrics
      → All IsCell (join_clicks rules release_id dimensions impressions l st).metrics
  unfolding join_clicks click_step
  join_clicks-IsCell impressions [] st h = h
  join_clicks-IsCell impressions (e ∷ l) st h =
      join_clicks-IsCell impressions l _
        (add_linked-IsCell e.1 _ _ (add-IsCell _ _ _ _ _ _ _ (add-IsCell _ _ _ _ _ _ st.metrics h)))

  settle-IsCell :
      (hit : Bool) (found : Option Click) (v : Conversion) (i : Option Impression) (key : Key)
      (st : Matches)
      → All IsCell st.metrics
      → All IsCell (settle rules release_id dimensions hit found v i key st).metrics
  unfolding settle match_step
  settle-IsCell true (some c) v i key st h =
      add-IsCell _ _ _ _ _ _ _ (add-IsCell _ _ _ _ _ _ st.metrics h)
  settle-IsCell true none v i key st h = h
  settle-IsCell false found v i key st h = h

  match_conversions-IsCell :
      (clicks : Dict Key Click) (joined : Dict Key (Option Impression)) (l : List Conversion)
      (st : Matches)
      → All IsCell st.metrics
      → All IsCell (match_conversions rules release_id dimensions clicks joined l st).metrics
  unfolding match_conversions conversion_step
  match_conversions-IsCell clicks joined [] st h = h
  match_conversions-IsCell clicks joined (v ∷ l) st h =
      match_conversions-IsCell clicks joined l _
        (settle-IsCell _ _ v _ _ _ (add-IsCell _ _ _ _ _ _ st.metrics h))

  pub matches_of-IsCell :
      (events : List Event) → All IsCell (matches_of rules release_id dimensions events).metrics
  unfolding matches_of joins_of
  matches_of-IsCell events =
      match_conversions-IsCell _ _ _ _ (join_clicks-IsCell _ _ _ (count_impressions-IsCell _ [] tt))

  values-IsKeyed : (m : Metrics) → All IsCell m → All IsKeyed (values m)
  values-IsKeyed [] h = tt
  values-IsKeyed (p ∷ m) h = (h.0.1, values-IsKeyed m h.1)

  -- Every row of a release stands under the key of its dimensions.
  pub calculate_from-IsKeyed :
      (sha256 : String → String) (n : ℕ) (st : State)
      → All IsKeyed (calculate_from rules release_id dimensions sha256 n st).metrics
  unfolding calculate_from
  calculate_from-IsKeyed sha256 n st =
      sort_by-All (λ (r : Metric). r.metric_key) IsKeyed _
        (values-IsKeyed _ (matches_of-IsCell st.events))

  -- What the dictionary holds under a key is in the rows of that key.
  pub sum_list-cells :
      (f : Counters → ℕ) (k : String) (m : Metrics)
      → All IsCell m
      → sum_list (λ (r : Metric). if r.metric_key == k then f r.values else 0) (values m)
        ≡ held f k m
  sum_list-cells f k [] h = refl
  sum_list-cells f k ((j, r) ∷ m) h =
      let rest = sum_list-cells f k m h.1 in
      let same = h.0.0 in
      omega (arith, rest, ap (λ (i : String). if i == k then f r.values else 0) same)
