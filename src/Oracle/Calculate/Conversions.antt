-- ===== src/Oracle/Calculate/Conversions.antt =====
-- What the loop over the conversions adds to the metric rows, and the associations that it lists.
use ad_pulse.Prelude.{
  ℕ, ◌+◌, String, ◌≡◌, refl, Bool, true, false, List, [], ◌∷◌, Option, none, some, if◌then◌else◌,
  arith, length, string_eq, pair_eq, length-append, inl, inr, Bool-cases,
}
use ad_pulse.Prelude.Dict.{Dict, lookup}
use ad_pulse.Prelude.Distinct.{member}
use ad_pulse.Prelude.Sort.{sum_list, sum_list-append}
use ad_pulse.Oracle.Event.{Impression, Click, Conversion, Rules}
use ad_pulse.Oracle.Metrics.{Dimension, Counters, no_counts}
use ad_pulse.Oracle.Metrics.Totals.{sum_of, IsCounter, sum_of-add}
use ad_pulse.Oracle.Calculate.{
  Key, key_with, Matches, Association, outcome_count, is_matched, association_of, match_reason,
  settle, match_step, conversion_step, match_conversions,
}

-- Whether the conversion is matched to a click.
abbrev pub is_hit : Rules → Dict Key Click → Conversion → Bool
is_hit rules clicks v =
    is_matched (match_reason rules (lookup (key_with v.base v.click_id) clicks) v)

abbrev pub matched_once : Counters
matched_once = record no_counts { matched_conversions = 1 }

abbrev pub matched_value : ℕ → Counters
matched_value n = record no_counts { matched_conversions = 1; value_minor = n }

-- What one conversion adds to a counter that is not `converted_clicks`.
abbrev pub share : (Counters → ℕ) → Rules → Dict Key Click → Conversion → ℕ
share f rules clicks v =
    let hit = is_hit rules clicks v in
    f (outcome_count hit) + (if hit then f matched_once + f (matched_value v.value_minor) else 0)

abbrev pub shares : (Counters → ℕ) → Rules → Dict Key Click → List Conversion → ℕ
shares f rules clicks [] = 0
shares f rules clicks (v ∷ l) = share f rules clicks v + shares f rules clicks l

-- 1 for an association whose status is "matched".
abbrev pub matched_as : Association → ℕ
matched_as a = if a.is_match then 1 else 0

abbrev pub count_hits : Rules → Dict Key Click → List Conversion → ℕ
count_hits rules clicks [] = 0
count_hits rules clicks (v ∷ l) =
    (if is_hit rules clicks v then 1 else 0) + count_hits rules clicks l

-- A counter to which the number of converted clicks is nothing.
abbrev pub IsBlind : (Counters → ℕ) → Type 0
IsBlind f =
    (n : ℕ)
    → f (record no_counts { matched_conversions = 1; converted_clicks = n }) ≡ f matched_once

module _ (rules : Rules) (release_id : String) (dimensions : List Dimension) where
  module _ (f : Counters → ℕ) (c : IsCounter f) (blind : IsBlind f) where
    sum_of-settle :
        (found : Option Click) (v : Conversion) (i : Option Impression) (key : Key) (st : Matches)
        → let hit = is_matched (match_reason rules found v) in
          sum_of f (settle rules release_id dimensions hit found v i key st).metrics
          ≡ sum_of f st.metrics
            + (if hit then f matched_once + f (matched_value v.value_minor) else 0)
    unfolding settle
    sum_of-settle none v i key st = unfold match_reason in omega arith
    sum_of-settle (some k) v i key st =
        elim (Bool-cases (is_matched (match_reason rules (some k) v))) [
          | inl hit ↦ rw hit (
              unfold match_step in
              simp (sum_of-add f c rules dimensions release_id)
                (omega (arith, blind (if member key st.converted then 0 else 1))))
          | inr miss ↦ rw miss (omega arith)
        ]

    sum_of-conversion_step :
        (clicks : Dict Key Click) (joined : Dict Key (Option Impression)) (v : Conversion)
        (st : Matches)
        → sum_of f (conversion_step rules release_id dimensions clicks joined v st).metrics
          ≡ sum_of f st.metrics + share f rules clicks v
    unfolding conversion_step
    sum_of-conversion_step clicks joined v st =
        simp (sum_of-settle, sum_of-add f c rules dimensions release_id) (omega arith)

    pub sum_of-match_conversions :
        (clicks : Dict Key Click) (joined : Dict Key (Option Impression)) (l : List Conversion)
        (st : Matches)
        → sum_of f (match_conversions rules release_id dimensions clicks joined l st).metrics
          ≡ sum_of f st.metrics + shares f rules clicks l
    unfolding match_conversions
    sum_of-match_conversions clicks joined [] st = omega arith
    sum_of-match_conversions clicks joined (v ∷ l) st = omega (
      arith,
      sum_of-match_conversions clicks joined l
          (conversion_step rules release_id dimensions clicks joined v st),
      sum_of-conversion_step clicks joined v st,
    )

  -- Each conversion gets one association.
  associations-settle :
      (hit : Bool) (found : Option Click) (v : Conversion) (i : Option Impression) (key : Key)
      (st : Matches)
      → (settle rules release_id dimensions hit found v i key st).associations ≡ st.associations
  unfolding settle match_step
  associations-settle true (some k) v i key st = refl
  associations-settle true none v i key st = refl
  associations-settle false found v i key st = refl

  -- The body of the loop appends one association, with the status that `is_hit` says.
  associations-conversion_step :
      (clicks : Dict Key Click) (joined : Dict Key (Option Impression)) (v : Conversion)
      (st : Matches)
      → let st' = conversion_step rules release_id dimensions clicks joined v st in
        (length st'.associations ≡ length st.associations + 1)
        × (sum_list matched_as st'.associations
            ≡ sum_list matched_as st.associations + (if is_hit rules clicks v then 1 else 0))
  unfolding conversion_step association_of
  associations-conversion_step clicks joined v st = (
    simp (associations-settle, length-append) (omega arith),
    simp (associations-settle, sum_list-append) (omega arith),
  )

  -- The loop lists one association for each conversion, and as many are matched as there are hits.
  pub associations-match_conversions :
      (clicks : Dict Key Click) (joined : Dict Key (Option Impression)) (l : List Conversion)
      (st : Matches)
      → let st' = match_conversions rules release_id dimensions clicks joined l st in
        (length st'.associations ≡ length st.associations + length l)
        × (sum_list matched_as st'.associations
            ≡ sum_list matched_as st.associations + count_hits rules clicks l)
  unfolding match_conversions
  associations-match_conversions clicks joined [] st = omega arith
  associations-match_conversions clicks joined (v ∷ l) st = omega (
    arith,
    associations-conversion_step clicks joined v st,
    associations-match_conversions clicks joined l
        (conversion_step rules release_id dimensions clicks joined v st),
  )
