-- ===== src/Oracle/Calculate/Totals.antt =====
-- What each loop of `calculate` adds to the metric rows.
use ad_pulse.Prelude.{
  ℕ, ◌+◌, ◌*◌, String, ◌≡◌, refl, Bool, List, [], ◌∷◌, Option, none, some, if◌then◌else◌, arith,
  length, is_some, string_eq, pair_eq,
}
use ad_pulse.Prelude.Dict.{Dict, lookup}
use ad_pulse.Oracle.Event.{Impression, Click, Rules}
use ad_pulse.Oracle.Metrics.{Dimension, Counters, Metrics}
use ad_pulse.Oracle.Metrics.Totals.{sum_of, IsCounter, sum_of-add}
use ad_pulse.Oracle.Calculate.{
  Key, key_with, Joins, one_impression, one_click, linked, is_ok, link_reason, count_impressions,
  add_linked, click_step, join_clicks,
}

-- Whether the click is joined to an impression.
abbrev pub is_linked : Rules → Dict Key Impression → Click → Bool
is_linked rules impressions k =
    is_ok (link_reason rules (lookup (key_with k.base k.impression_id) impressions) k)

-- The clicks of a dictionary that are joined.
abbrev pub count_linked : Rules → Dict Key Impression → Dict Key Click → ℕ
count_linked rules impressions [] = 0
count_linked rules impressions ((_, k) ∷ l) =
    (if is_linked rules impressions k then 1 else 0) + count_linked rules impressions l

module _ (f : Counters → ℕ) (c : IsCounter f) (rules : Rules) (release_id : String)
    (dimensions : List Dimension) where
  pub sum_of-count_impressions :
      (l : List Impression) (m : Metrics)
      → sum_of f (count_impressions rules release_id dimensions l m)
        ≡ sum_of f m + length l * (2 * f one_impression)
  unfolding count_impressions
  sum_of-count_impressions [] m = omega arith
  sum_of-count_impressions (i ∷ l) m =
      simp (sum_of-count_impressions l, sum_of-add f c rules dimensions release_id) (omega arith)

  sum_of-add_linked :
      (k : Click) (i : Option Impression) (m : Metrics)
      → sum_of f (add_linked rules release_id dimensions k i m)
        ≡ sum_of f m + (if is_some i then f one_click else 0)
  unfolding add_linked
  sum_of-add_linked k none m = omega arith
  sum_of-add_linked k (some i) m = simp (sum_of-add f c rules dimensions release_id)

  -- A click that is linked has found its impression.
  is_some-linked :
      (found : Option Impression) (k : Click)
      → let code = link_reason rules found k in is_some (linked code found) ≡ is_ok code
  unfolding link_reason
  is_some-linked none k = refl
  is_some-linked (some i) k = ground arith

  sum_of-click_step :
      (impressions : Dict Key Impression) (e : Key × Click) (st : Joins)
      → sum_of f (click_step rules release_id dimensions impressions e st).metrics
        ≡ sum_of f st.metrics
          + 2 * f one_click
          + (if is_linked rules impressions e.1 then f one_click else 0)
  unfolding click_step
  sum_of-click_step impressions (key, k) st =
      simp (sum_of-add_linked, sum_of-add f c rules dimensions release_id, is_some-linked)
        (omega arith)

  pub sum_of-join_clicks :
      (impressions : Dict Key Impression) (l : Dict Key Click) (st : Joins)
      → sum_of f (join_clicks rules release_id dimensions impressions l st).metrics
        ≡ sum_of f st.metrics + (2 * length l + count_linked rules impressions l) * f one_click
  unfolding join_clicks
  sum_of-join_clicks impressions [] st = omega arith
  sum_of-join_clicks impressions ((key, k) ∷ l) st = ground (
    arith,
    sum_of-join_clicks impressions l
        (click_step rules release_id dimensions impressions (key, k) st),
    sum_of-click_step impressions (key, k) st,
  )
