-- ===== src/Oracle/Calculate/Conservation.antt =====
-- The counters of a release add up to the events that it was computed from.
use ad_pulse.Prelude.{
  ℕ, ◌+◌, ◌*◌, String, ◌≡◌, refl, List, [], ◌∷◌, ◌∙◌, arith, length, Bool-cases, inl, inr,
  length-append, string_eq, pair_eq, if◌then◌else◌, All, ◌==◌,
}
use ad_pulse.Prelude.Sort.{sum_list, sum_list-sort_by, length-sort_by}
use ad_pulse.Prelude.Dict.{Dict, values, length-values}
use ad_pulse.Prelude.Distinct.{IsDistinct}
use ad_pulse.Oracle.Event.{Event, Rules, Impression, Click, Conversion}
use ad_pulse.Oracle.Normalize.{State}
use ad_pulse.Oracle.Normalize.Dedup.{business_keys}
use ad_pulse.Oracle.Metrics.{Dimension, Counters, Metric, Metrics}
use ad_pulse.Oracle.Metrics.Totals.{sum_of, IsCounter}
use ad_pulse.Oracle.Calculate.{
  Key, Joins, Association, impressions_of, clicks_of, conversions_of, impression_map, click_map,
  one_impression, one_click, start_joins, start_matches, count_impressions, click_step, join_clicks,
  joins_of, matches_of, calculate_from,
}
use ad_pulse.Oracle.Calculate.Kinds.{length-impression_map, length-click_map}
use ad_pulse.Oracle.Calculate.Totals.{
  sum_of-count_impressions, sum_of-join_clicks, is_linked, count_linked,
}
use ad_pulse.Oracle.Calculate.Cells.{credits, held-matches_of}
use ad_pulse.Oracle.Calculate.Keyed.{
  IsKeyed, matches_of-IsCell, calculate_from-IsKeyed, sum_list-cells,
}
use ad_pulse.Oracle.Calculate.Conversions.{
  IsBlind, is_hit, shares, count_hits, matched_as, sum_of-match_conversions,
  associations-match_conversions,
}

sum_list-values :
    (f : Counters → ℕ) (m : Metrics) → sum_list (λ (r : Metric). f r.values) (values m) ≡ sum_of f m
sum_list-values f [] = refl
sum_list-values f ((k, r) ∷ m) = omega (arith, sum_list-values f m)

module _ (rules : Rules) (release_id : String) (dimensions : List Dimension) where
  -- A click that is not linked leaves a signal.
  signals-click_step :
      (impressions : Dict Key Impression) (e : Key × Click) (st : Joins)
      → length (click_step rules release_id dimensions impressions e st).signals
          + (if is_linked rules impressions e.1 then 1 else 0)
        ≡ length st.signals + 1
  unfolding click_step
  signals-click_step impressions (key, k) st = elim (Bool-cases (is_linked rules impressions k)) [
    | inl hit ↦ rw hit (omega arith)
    | inr miss ↦ rw miss (simp length-append (omega arith))
  ]

  signals-join_clicks :
      (impressions : Dict Key Impression) (l : Dict Key Click) (st : Joins)
      → length (join_clicks rules release_id dimensions impressions l st).signals
          + count_linked rules impressions l
        ≡ length st.signals + length l
  unfolding join_clicks
  signals-join_clicks impressions [] st = omega arith
  signals-join_clicks impressions ((key, k) ∷ l) st = omega (
    arith,
    signals-click_step impressions (key, k) st,
    signals-join_clicks impressions l
        (click_step rules release_id dimensions impressions (key, k) st),
  )

-- One counter, summed over the metric rows of an output.
abbrev pub metric_sum : (Counters → ℕ) → List Metric → ℕ
metric_sum f = sum_list (λ (r : Metric). f r.values)

-- Under each key, the rows hold of a counter what the events add to it there.
abbrev pub IsCredited :
    Rules → String → List Dimension → List Event → (Counters → ℕ) → List Metric → Type 0
IsCredited rules release_id dimensions events f rows =
    (k : String)
    → sum_list (λ (r : Metric). if r.metric_key == k then f r.values else 0) rows
      ≡ credits rules dimensions f k release_id events

-- The values of the conversions that are matched.
abbrev pub hit_value : Rules → Dict Key Click → List Conversion → ℕ
hit_value rules clicks [] = 0
hit_value rules clicks (v ∷ l) =
    (if is_hit rules clicks v then v.value_minor else 0) + hit_value rules clicks l

impressions-IsCounter : IsCounter (λ c. c.impressions)
impressions-IsCounter = record { zero_lem = refl; plus_lem = λ a b. refl }

clicks-IsCounter : IsCounter (λ c. c.clicks)
clicks-IsCounter = record { zero_lem = refl; plus_lem = λ a b. refl }

matched-IsCounter : IsCounter (λ c. c.matched_conversions)
matched-IsCounter = record { zero_lem = refl; plus_lem = λ a b. refl }

unmatched-IsCounter : IsCounter (λ c. c.unmatched_conversions)
unmatched-IsCounter = record { zero_lem = refl; plus_lem = λ a b. refl }

value-IsCounter : IsCounter (λ c. c.value_minor)
value-IsCounter = record { zero_lem = refl; plus_lem = λ a b. refl }

module _ (rules : Rules) (release_id : String) (dimensions : List Dimension) where
  -- Every counter but `converted_clicks`, before the rows are sorted.
  sum_of-matches_of :
      (f : Counters → ℕ) (c : IsCounter f) (blind : IsBlind f) (events : List Event)
      → IsDistinct (business_keys events)
      → sum_of f (matches_of rules release_id dimensions events).metrics
        ≡ length (impressions_of events) * (2 * f one_impression)
          + (2 * length (clicks_of events)
              + count_linked rules (impression_map events) (click_map events))
            * f one_click
          + shares f rules (click_map events) (conversions_of events)
  unfolding matches_of joins_of
  sum_of-matches_of f c blind events h =
      simp
        (
          sum_of-match_conversions rules release_id dimensions f c blind,
          sum_of-join_clicks f c rules release_id dimensions,
          sum_of-count_impressions f c rules release_id dimensions,
          length-values,
          length-impression_map events h,
          length-click_map events h,
        )
        (omega arith)

  shares_none :
      (clicks : Dict Key Click) (l : List Conversion)
      → (shares (λ c. c.impressions) rules clicks l ≡ 0)
        × (shares (λ c. c.clicks) rules clicks l ≡ 0)
  shares_none clicks [] = (refl, refl)
  shares_none clicks (v ∷ l) = ground (arith, shares_none clicks l)

  shares_matched :
      (clicks : Dict Key Click) (l : List Conversion)
      → shares (λ c. c.matched_conversions) rules clicks l ≡ 3 * count_hits rules clicks l
  shares_matched clicks [] = refl
  shares_matched clicks (v ∷ l) = ground (arith, shares_matched clicks l)

  shares_unmatched :
      (clicks : Dict Key Click) (l : List Conversion)
      → shares (λ c. c.unmatched_conversions) rules clicks l + count_hits rules clicks l ≡ length l
  shares_unmatched clicks [] = refl
  shares_unmatched clicks (v ∷ l) = ground (arith, shares_unmatched clicks l)

  shares_value :
      (clicks : Dict Key Click) (l : List Conversion)
      → shares (λ c. c.value_minor) rules clicks l ≡ hit_value rules clicks l
  shares_value clicks [] = refl
  shares_value clicks (v ∷ l) = ground (arith, shares_value clicks l)

  associations-matches_of :
      (events : List Event)
      → let found = (matches_of rules release_id dimensions events).associations in
        (length found ≡ length (conversions_of events))
        × (sum_list matched_as found ≡ count_hits rules (click_map events) (conversions_of events))
  unfolding matches_of
  associations-matches_of events =
      let joins = joins_of rules release_id dimensions events in
      let (l, m) =
        associations-match_conversions rules release_id dimensions (click_map events) joins.joined
          (conversions_of events) (start_matches joins.metrics) in
      (omega (arith, l), omega (arith, m))

  signals-joins_of :
      (events : List Event)
      → IsDistinct (business_keys events)
      → length (joins_of rules release_id dimensions events).signals
          + count_linked rules (impression_map events) (click_map events)
        ≡ length (clicks_of events)
  unfolding joins_of
  signals-joins_of events h = omega (
    arith,
    signals-join_clicks rules release_id dimensions (impression_map events) (click_map events) (
        start_joins
          (count_impressions rules release_id dimensions (values (impression_map events)) [])),
    length-click_map events h,
  )

  module _ (sha256 : String → String) (n : ℕ) (st : State)
      (distinct : IsDistinct (business_keys st.events)) where
    output_sum :
        (f : Counters → ℕ) (c : IsCounter f) (blind : IsBlind f)
        → metric_sum f (calculate_from rules release_id dimensions sha256 n st).metrics
          ≡ length (impressions_of st.events) * (2 * f one_impression)
            + (2 * length (clicks_of st.events)
                + count_linked rules (impression_map st.events) (click_map st.events))
              * f one_click
            + shares f rules (click_map st.events) (conversions_of st.events)
    unfolding calculate_from
    output_sum f c blind =
        sum_list-sort_by (λ (m : Metric). m.metric_key) (λ (r : Metric). f r.values) _
        ∙ sum_list-values f (matches_of rules release_id dimensions st.events).metrics
        ∙ sum_of-matches_of f c blind st.events distinct

    output_associations :
        let out = calculate_from rules release_id dimensions sha256 n st in
        (length out.associations ≡ length (conversions_of st.events))
        × (sum_list matched_as out.associations
            ≡ count_hits rules (click_map st.events) (conversions_of st.events))
    unfolding calculate_from
    output_associations =
        let (l, m) = associations-matches_of st.events in
        (
          length-sort_by (λ (a : Association). a.association_key) _ ∙ l,
          sum_list-sort_by (λ (a : Association). a.association_key) matched_as _ ∙ m,
        )

    output_quality :
        length (calculate_from rules release_id dimensions sha256 n st).quality
        ≡ length st.quality + length (joins_of rules release_id dimensions st.events).signals
    unfolding calculate_from
    output_quality = length-append st.quality _

    output_credits :
        (f : Counters → ℕ) (c : IsCounter f) (blind : IsBlind f)
        → IsCredited rules release_id dimensions st.events f
            (calculate_from rules release_id dimensions sha256 n st).metrics
    unfolding calculate_from
    output_credits f c blind k =
        sum_list-sort_by (λ (m : Metric). m.metric_key)
          (λ (r : Metric). if r.metric_key == k then f r.values else 0) _
        ∙ sum_list-cells rules release_id dimensions f k _
            (matches_of-IsCell rules release_id dimensions st.events)
        ∙ held-matches_of rules dimensions f k c blind release_id st.events distinct

    -- The rows of a release account for its events. Every row stands under the key of its
    -- dimensions, the cohort among them. Under each key, the rows count what the events add there:
    -- an impression counts in the cohorts of the occurrence and of the impression; a click in those
    -- of the occurrence and of the click and, when it is linked, in that of its impression; a
    -- matched conversion in those of the occurrence, of its click and, with its value and in its
    -- currency, of the value; an unmatched one in that of the occurrence. This holds of every
    -- counter but the converted clicks. Over all keys, a click that is not linked leaves a signal
    -- instead, and each conversion has an association. The events must not share a business key.
    pub calculate_conservation :
        let out = calculate_from rules release_id dimensions sha256 n st in
        let IsHeld =
          λ (f : Counters → ℕ). IsCredited rules release_id dimensions st.events f out.metrics in
        All (IsKeyed rules release_id dimensions) out.metrics
        × IsHeld (λ c. c.impressions)
        × IsHeld (λ c. c.clicks)
        × IsHeld (λ c. c.matched_conversions)
        × IsHeld (λ c. c.unmatched_conversions)
        × IsHeld (λ c. c.value_minor)
        × (metric_sum (λ c. c.impressions) out.metrics ≡ 2 * length (impressions_of st.events))
        × (metric_sum (λ c. c.clicks) out.metrics + length out.quality
            ≡ 3 * length (clicks_of st.events) + length st.quality)
        × (length out.associations ≡ length (conversions_of st.events))
        × (metric_sum (λ c. c.matched_conversions) out.metrics
            ≡ 3 * sum_list matched_as out.associations)
        × (metric_sum (λ c. c.unmatched_conversions) out.metrics
              + sum_list matched_as out.associations
            ≡ length (conversions_of st.events))
        × (metric_sum (λ c. c.value_minor) out.metrics
            ≡ hit_value rules (click_map st.events) (conversions_of st.events))
    calculate_conservation =
        let none_of = shares_none (click_map st.events) (conversions_of st.events) in
        (
          calculate_from-IsKeyed rules release_id dimensions sha256 n st,
          output_credits (λ c. c.impressions) impressions-IsCounter (λ k. refl),
          output_credits (λ c. c.clicks) clicks-IsCounter (λ k. refl),
          output_credits (λ c. c.matched_conversions) matched-IsCounter (λ k. refl),
          output_credits (λ c. c.unmatched_conversions) unmatched-IsCounter (λ k. refl),
          output_credits (λ c. c.value_minor) value-IsCounter (λ k. refl),
          omega (arith, output_sum (λ c. c.impressions) impressions-IsCounter (λ k. refl), none_of),
          omega (
            arith,
            output_sum (λ c. c.clicks) clicks-IsCounter (λ k. refl),
            none_of,
            output_quality,
            signals-joins_of st.events distinct,
          ),
          output_associations.0,
          omega (
            arith,
            output_sum (λ c. c.matched_conversions) matched-IsCounter (λ k. refl),
            shares_matched (click_map st.events) (conversions_of st.events),
            output_associations,
          ),
          omega (
            arith,
            output_sum (λ c. c.unmatched_conversions) unmatched-IsCounter (λ k. refl),
            shares_unmatched (click_map st.events) (conversions_of st.events),
            output_associations,
          ),
          omega (
            arith,
            output_sum (λ c. c.value_minor) value-IsCounter (λ k. refl),
            shares_value (click_map st.events) (conversions_of st.events),
          ),
        )
