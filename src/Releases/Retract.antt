-- ===== src/Releases/Retract.antt =====
-- What a publication adds to the snapshot of a release.
use ad_pulse.Prelude.{String, ◌≡◌, refl, true, ◌||◌, List, [], ◌∷◌, ◌++◌, arith, string_eq, ◌∙◌}
use mathlib.Core.List.{map-append}
use ad_pulse.Prelude.Dict.{Dict}
use ad_pulse.Prelude.Distinct.{member, member-append}
use ad_pulse.Oracle.Event.{Rules}
use ad_pulse.Oracle.Metrics.{Counters, Metric}
use ad_pulse.Oracle.Compare.{Snapshot, metric_map, any_count}
use ad_pulse.Releases.Publish.{metric_keys, retractions, with_retractions}

module _ (release : String) (rules : Rules) (current : List String) where
  retractions-cover :
      (k : String) (baseline : List Metric)
      → member k (metric_keys baseline) ≡ true
      → (member k current || member k (metric_keys (retractions release rules current baseline)))
        ≡ true
  unfolding retractions member
  retractions-cover k [] h = cc
  retractions-cover k (old ∷ baseline) h = ground (arith, retractions-cover k baseline)

  -- Rows of zeros count for nothing in `compare`.
  metric_map-retractions :
      (baseline : List Metric) (d : Dict String Counters)
      → metric_map (retractions release rules current baseline) d ≡ d
  unfolding retractions metric_map any_count
  metric_map-retractions [] d = refl
  metric_map-retractions (old ∷ baseline) d = ground (arith, metric_map-retractions baseline d)

metric_map-append :
    (l r : List Metric) (d : Dict String Counters)
    → metric_map (l ++ r) d ≡ metric_map r (metric_map l d)
unfolding metric_map
metric_map-append [] r d = refl
metric_map-append (m ∷ l) r d = metric_map-append l r _

-- After the loop every row of the baseline has a row with its key in the snapshot, and the facts
-- that `compare` reads are those of before.
pub retraction_lem :
    (release : String) (rules : Rules) (baseline : List Metric) (snapshot : Snapshot)
    → let after = with_retractions release rules baseline snapshot in
      ((k : String)
        → member k (metric_keys baseline) ≡ true
        → member k (metric_keys after.metrics) ≡ true)
      × (metric_map after.metrics [] ≡ metric_map snapshot.metrics [])
      × (after.associations ≡ snapshot.associations)
unfolding with_retractions
retraction_lem release rules baseline snapshot =
    let current : List String = metric_keys snapshot.metrics in
    let zeros : List Metric = retractions release rules current baseline in
    (
      λ k h. rw (map-append, member-append) (retractions-cover release rules current k baseline h),
      metric_map-append snapshot.metrics zeros []
          ∙ metric_map-retractions release rules current baseline (metric_map snapshot.metrics []),
      refl,
    )
