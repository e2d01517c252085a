-- ===== src/Oracle/Metrics/Totals.antt =====
-- The sum of a counter over all metric rows, and what `add` does to it.
use ad_pulse.Prelude.{
  ℕ, ◌+◌, String, ◌≡◌, [], ◌∷◌, List, Option, none, some, arith, string_eq, inl, inr, Option-cases,
}
use ad_pulse.Prelude.Dict.{lookup, insert}
use ad_pulse.Oracle.Event.{Base, Impression, Rules}
use ad_pulse.Oracle.Metrics.{
  Dimension, Dims, Cohort, Counters, no_counts, plus, Metric, Metrics, add_at, add,
}

-- One counter, summed over the rows.
abbrev pub sum_of : (Counters → ℕ) → Metrics → ℕ
sum_of f [] = 0
sum_of f ((_, row) ∷ m) = f row.values + sum_of f m

-- What a field of `Counters` is.
pub record IsCounter (f : Counters → ℕ) : Type 0 where
  pub zero_lem : f no_counts ≡ 0
  pub plus_lem : (a b : Counters) → f (plus a b) ≡ f a + f b

module _ (f : Counters → ℕ) (c : IsCounter f) where
  sum_of-insert_new :
      (k : String) (row : Metric) (m : Metrics)
      → lookup k m ≡ none
      → sum_of f (insert k row m) ≡ sum_of f m + f row.values
  unfolding lookup insert
  sum_of-insert_new k row [] h = omega arith
  sum_of-insert_new k row ((j, r) ∷ m) h = ground (arith, sum_of-insert_new k row m)

  sum_of-insert_old :
      (k : String) (row old : Metric) (m : Metrics)
      → lookup k m ≡ some old
      → sum_of f (insert k row m) + f old.values ≡ sum_of f m + f row.values
  unfolding lookup insert
  sum_of-insert_old k row old [] h = cc
  sum_of-insert_old k row old ((j, r) ∷ m) h = ground (arith, sum_of-insert_old k row old m)

  module _ (rules : Rules) (dimensions : List Dimension) (release_id : String) where
    sum_of-add_at :
        (key : String) (dims : Dims) (delta : Counters) (m : Metrics)
        → sum_of f (add_at rules dimensions release_id key dims delta m) ≡ sum_of f m + f delta
    unfolding add_at
    sum_of-add_at key dims delta m = elim (Option-cases (lookup key m)) [
      | inl fresh ↦
          rw fresh
            (omega (arith, sum_of-insert_new key _ m fresh, c.zero_lem, c.plus_lem no_counts delta))
      | inr (row, found) ↦
          rw found (omega (arith, sum_of-insert_old key _ row m found, c.plus_lem row.values delta))
    ]

    -- `add` raises the sum of each counter by what it is given for it.
    pub sum_of-add :
        (event : Base) (impression : Option Impression) (timestamp : ℕ) (cohort : Cohort)
        (currency : String) (delta : Counters) (m : Metrics)
        → sum_of f
            (add rules dimensions release_id event impression timestamp cohort currency delta m)
          ≡ sum_of f m + f delta
    unfolding add
    sum_of-add event impression timestamp cohort currency delta m = sum_of-add_at _ _ delta m
