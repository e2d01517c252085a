-- ===== src/Oracle/Calculate/Cells.antt =====
-- What `calculate` adds under each metric key, and the keys and dimensions of its rows.
use ad_pulse.Prelude.{
  ℕ, ◌+◌, String, ◌≡◌, refl, Bool, true, false, List, [], ◌∷◌, Option, none, some, if◌then◌else◌,
  ◌==◌, arith, string_eq, pair_eq, inl, inr, Option-cases,
}
use ad_pulse.Prelude.Dict.{Dict, lookup, insert, values}
use ad_pulse.Prelude.Distinct.{member, IsDistinct}
use ad_pulse.Prelude.Sort.{sum_list}
use ad_pulse.Oracle.Event.{Event, Base, Impression, Click, Conversion, Rules}
use ad_pulse.Oracle.Normalize.Dedup.{business_keys}
use ad_pulse.Oracle.Metrics.{
  Dimension, Dims, Cohort, occurrence, of_impression, of_click, conversion_value, Counters,
  no_counts, plus, Metric, Metrics, key_for, add_at, add,
}
use ad_pulse.Oracle.Metrics.Totals.{IsCounter}
use ad_pulse.Oracle.Calculate.{
  Key, key_with, Joins, Matches, one_impression, one_click, outcome_count, linked, is_matched,
  link_reason, match_reason, joined_impression, count_impressions, add_linked, click_step,
  join_clicks, settle, match_step, conversion_step, match_conversions, impression_map, click_map,
  impressions_of, clicks_of, conversions_of, joins_of, matches_of,
}
use ad_pulse.Oracle.Calculate.Kinds.{values-impression_map, values-click_map}
use ad_pulse.Oracle.Calculate.Conversions.{IsBlind, matched_once, matched_value}

-- One counter under one key, over the rows.
abbrev pub held : (Counters → ℕ) → String → Metrics → ℕ
held f k [] = 0
held f k ((j, row) ∷ m) = (if j == k then f row.values else 0) + held f k m

module _ (rules : Rules) (dimensions : List Dimension) (f : Counters → ℕ) (k : String) where
  -- What a count adds to the counter under the key.
  abbrev pub credit : Base → Option Impression → ℕ → Cohort → String → Counters → ℕ
  credit event i timestamp cohort currency delta =
      if (key_for rules dimensions event i timestamp cohort currency).0 == k then f delta else 0

  -- An impression: once when it occurs and once in its impression cohort.
  abbrev pub impression_credit : Impression → ℕ
  impression_credit i =
      credit i.base (some i) i.event_time occurrence "ALL" one_impression
      + credit i.base (some i) i.event_time of_impression "ALL" one_impression

  abbrev pub linked_credit : Click → Option Impression → ℕ
  linked_credit c none = 0
  linked_credit c (some i) = credit c.base (some i) i.event_time of_impression "ALL" one_click

  -- A click: once when it occurs, once in its click cohort and, when it is linked, in the cohort of
  -- its impression.
  abbrev pub click_credit : Dict Key Impression → Click → ℕ
  click_credit impressions c =
      let found = lookup (key_with c.base c.impression_id) impressions in
      let i = linked (link_reason rules found c) found in
      credit c.base i c.event_time occurrence "ALL" one_click
      + credit c.base i c.event_time of_click "ALL" one_click
      + linked_credit c i

  abbrev pub settled_credit : Bool → Option Click → Conversion → Option Impression → ℕ
  settled_credit true (some c) v i =
      credit v.base i c.event_time of_click "ALL" matched_once
      + credit v.base i c.event_time conversion_value v.currency (matched_value v.value_minor)
  settled_credit _ _ v i = 0

  -- A conversion: once when it occurs, matched or not, and, when it is matched, in the cohort of its
  -- click and with its value in the value cohort of its currency, both at the time of the click.
  abbrev pub conversion_credit :
      String → Dict Key Click → Dict Key (Option Impression) → Conversion → ℕ
  conversion_credit release_id clicks joined v =
      let key = key_with v.base v.click_id in
      let found = lookup key clicks in
      let hit = is_matched (match_reason rules found v) in
      let i =
        if hit then joined_impression rules release_id dimensions (lookup key joined) else none in
      credit v.base i v.event_time occurrence "ALL" (outcome_count hit)
      + settled_credit hit found v i

  module _ (c : IsCounter f) (blind : IsBlind f) (release_id : String) where
    held-insert_new :
        (j : String) (row : Metric) (m : Metrics)
        → lookup j m ≡ none
        → held f k (insert j row m) ≡ held f k m + (if j == k then f row.values else 0)
    unfolding lookup insert
    held-insert_new j row [] h = omega arith
    held-insert_new j row ((i, r) ∷ m) h = ground (arith, held-insert_new j row m)

    held-insert_old :
        (j : String) (row old : Metric) (m : Metrics)
        → lookup j m ≡ some old
        → held f k (insert j row m) + (if j == k then f old.values else 0)
          ≡ held f k m + (if j == k then f row.values else 0)
    unfolding lookup insert
    held-insert_old j row old [] h = cc
    held-insert_old j row old ((i, r) ∷ m) h = ground (arith, held-insert_old j row old m)

    weigh_zero : (b : Bool) → (if b then f no_counts else 0) ≡ 0
    weigh_zero true = c.zero_lem
    weigh_zero false = refl

    weigh_plus :
        (b : Bool) (x y : Counters)
        → (if b then f (plus x y) else 0) ≡ (if b then f x else 0) + (if b then f y else 0)
    weigh_plus true x y = c.plus_lem x y
    weigh_plus false x y = omega arith

    held-add_at :
        (j : String) (dims : Dims) (delta : Counters) (m : Metrics)
        → held f k (add_at rules dimensions release_id j dims delta m)
          ≡ held f k m + (if j == k then f delta else 0)
    unfolding add_at
    held-add_at j dims delta m = elim (Option-cases (lookup j m)) [
      | inl fresh ↦ rw fresh (
          omega (
            arith,
            held-insert_new j _ m fresh,
            weigh_zero (j == k),
            weigh_plus (j == k) no_counts delta,
          ))
      | inr (row, found) ↦
          rw found
            (omega (arith, held-insert_old j _ row m found, weigh_plus (j == k) row.values delta))
    ]

    held-add :
        (event : Base) (i : Option Impression) (timestamp : ℕ) (cohort : Cohort) (currency : String)
        (delta : Counters) (m : Metrics)
        → held f k (add rules dimensions release_id event i timestamp cohort currency delta m)
          ≡ held f k m + credit event i timestamp cohort currency delta
    unfolding add
    held-add event i timestamp cohort currency delta m = held-add_at _ _ delta m

    held-count_impressions :
        (l : List Impression) (m : Metrics)
        → held f k (count_impressions rules release_id dimensions l m)
          ≡ held f k m + sum_list impression_credit l
    unfolding count_impressions
    held-count_impressions [] m = omega arith
    held-count_impressions (i ∷ l) m = simp (held-count_impressions l, held-add) (omega arith)

    held-add_linked :
        (x : Click) (i : Option Impression) (m : Metrics)
        → held f k (add_linked rules release_id dimensions x i m) ≡ held f k m + linked_credit x i
    unfolding add_linked
    held-add_linked x none m = omega arith
    held-add_linked x (some i) m = held-add _ _ _ _ _ _ m

    held-join_clicks :
        (impressions : Dict Key Impression) (l : Dict Key Click) (st : Joins)
        → held f k (join_clicks rules release_id dimensions impressions l st).metrics
          ≡ held f k st.metrics + sum_list (click_credit impressions) (values l)
    unfolding join_clicks click_step
    held-join_clicks impressions [] st = omega arith
    held-join_clicks impressions ((key, x) ∷ l) st =
        simp (held-join_clicks impressions l, held-add_linked, held-add) (omega arith)

    held-settle :
        (found : Option Click) (v : Conversion) (i : Option Impression) (key : Key) (st : Matches)
        (hit : Bool)
        → held f k (settle rules release_id dimensions hit found v i key st).metrics
          ≡ held f k st.metrics + settled_credit hit found v i
    unfolding settle match_step
    held-settle (some x) v i key st true =
        simp (held-add, blind (if member key st.converted then 0 else 1)) (omega arith)
    held-settle (some x) v i key st false = omega arith
    held-settle none v i key st true = omega arith
    held-settle none v i key st false = omega arith

    held-match_conversions :
        (clicks : Dict Key Click) (joined : Dict Key (Option Impression)) (l : List Conversion)
        (st : Matches)
        → held f k (match_conversions rules release_id dimensions clicks joined l st).metrics
          ≡ held f k st.metrics + sum_list (conversion_credit release_id clicks joined) l
    unfolding match_conversions conversion_step
    held-match_conversions clicks joined [] st = omega arith
    held-match_conversions clicks joined (v ∷ l) st =
        simp (held-match_conversions clicks joined l, held-settle, held-add) (omega arith)

  -- What the events of a release add to the counter under the key.
  abbrev pub credits : String → List Event → ℕ
  credits release_id events =
      sum_list impression_credit (impressions_of events)
      + sum_list (click_credit (impression_map events)) (clicks_of events)
      + sum_list
          (conversion_credit release_id (click_map events)
            (joins_of rules release_id dimensions events).joined)
          (conversions_of events)

  pub held-matches_of :
      (c : IsCounter f) (blind : IsBlind f) (release_id : String) (events : List Event)
      → IsDistinct (business_keys events)
      → held f k (matches_of rules release_id dimensions events).metrics ≡ credits release_id events
  unfolding matches_of joins_of
  held-matches_of c blind release_id events h =
      simp
        (
          held-match_conversions c blind release_id,
          held-join_clicks c blind release_id,
          held-count_impressions c blind release_id,
          values-impression_map events h,
          values-click_map events h,
        )
        (omega arith)
