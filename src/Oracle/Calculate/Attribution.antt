-- ===== src/Oracle/Calculate/Attribution.antt =====
-- Which conversions `calculate` attributes, and to which clicks.
use ad_pulse.Prelude.{
  IsAmong, ℕ, ◌+◌, ◌≤◌, String, ◌≡◌, refl, sym, ap, ◌∙◌, Bool, true, false, List, [], ◌∷◌, ◌++◌,
  Option, none, some, ◌⊎◌, inl, inr, arith, string_eq, pair_eq, map, Bool-cases, if◌then◌else◌,
  ◌==◌, ◌↔◌,
}
use ad_pulse.Prelude.Dict.{Dict, lookup, insert, insert_all, lookup-insert}
use ad_pulse.Prelude.Sort.{sort_by}
use ad_pulse.Oracle.Event.{Impression, Click, Conversion, Rules, scope}
use ad_pulse.Oracle.Metrics.{Dimension}
use ad_pulse.Oracle.Normalize.{State}
use ad_pulse.Oracle.Calculate.{
  Key, key_with, Matches, Association, is_matched, association_of, match_reason, settle, match_step,
  conversion_step, match_conversions, click_map, click_key, with_key, clicks_of, conversions_of,
  matches_of, joins_of, calculate_from, start_matches, joined_impression,
}

-- The same advertiser, app, user and campaign, and not before the click and within the window.
abbrev pub IsAttributable : Rules → Click → Conversion → Type 0
IsAttributable rules c v =
    (scope c.base ≡ scope v.base)
    × (c.campaign_id ≡ v.campaign_id)
    × (c.event_time ≤ v.event_time)
    × (v.event_time ≤ c.event_time + rules.attribution_window_ms)

module _ (rules : Rules) where
  matched-IsAttributable :
      (c : Click) (v : Conversion)
      → is_matched (match_reason rules (some c) v) ≡ true
      → IsAttributable rules c v
  unfolding match_reason
  matched-IsAttributable c v e = (ground arith, ground arith, ground arith, ground arith)

  IsAttributable-matched :
      (c : Click) (v : Conversion)
      → IsAttributable rules c v
      → is_matched (match_reason rules (some c) v) ≡ true
  unfolding match_reason
  IsAttributable-matched c v (s, k, l, u) = ground arith

  matched_iff :
      (found : Option Click) (v : Conversion)
      → (is_matched (match_reason rules found v) ≡ true)
        ↔ ((c : Click) × (found ≡ some c) × IsAttributable rules c v)
  matched_iff none v = unfold match_reason in (λ e. absurd (cc), λ (c, e, _). absurd (cc))
  matched_iff (some c) v = (
    λ e. (c, refl, matched-IsAttributable c v e),
    λ (d, e, a). rw e (IsAttributable-matched d v a),
  )

lookup-click_map :
    (l : List Click) (d : Dict Key Click) (k : Key) (c : Click)
    → lookup k (insert_all (map (with_key click_key) l) d) ≡ some c
    → (IsAmong c l × (click_key c ≡ k)) ⊎ (lookup k d ≡ some c)
unfolding insert_all
lookup-click_map [] d k c e = inr e
lookup-click_map (x ∷ l) d k c e = elim (lookup-click_map l (insert (click_key x) x d) k c e) [
  | inl (m, q) ↦ inl (inr m, q)
  | inr h ↦ elim (Bool-cases (k == click_key x)) [
    | inl same ↦ inl (
      inl (ground (arith, lookup-insert k (click_key x) x d)),
      ground (arith, lookup-insert k (click_key x) x d),
    )
    | inr other ↦ inr (ground (arith, lookup-insert k (click_key x) x d))
  ]
]

append_one : {A : Type 0} (a : List A) (x : A) (l : List A) → (a ++ x ∷ []) ++ l ≡ a ++ x ∷ l
append_one [] x l = refl
append_one (y ∷ a) x l = ap (λ r. y ∷ r) (append_one a x l)

append_nil : {A : Type 0} (l : List A) → l ++ [] ≡ l
append_nil [] = refl
append_nil (x ∷ l) = ap (λ r. x ∷ r) (append_nil l)

module _ (rules : Rules) (release_id : String) (dimensions : List Dimension) where
  -- The association of a conversion, given the clicks and the impressions that they joined.
  unfoldable pub outcome : Dict Key Click → Dict Key (Option Impression) → Conversion → Association
  unfolding match_reason association_of
  outcome clicks joined v =
      let key = key_with v.base v.click_id in
      let reason = match_reason rules (lookup key clicks) v in
      association_of rules release_id dimensions v reason (
        if is_matched reason
        then joined_impression rules release_id dimensions (lookup key joined)
        else none)

  settle-associations :
      (hit : Bool) (found : Option Click) (v : Conversion) (i : Option Impression) (key : Key)
      (st : Matches)
      → (settle rules release_id dimensions hit found v i key st).associations ≡ st.associations
  unfolding settle match_step
  settle-associations true (some c) v i key st = refl
  settle-associations true none v i key st = refl
  settle-associations false found v i key st = refl

  match_conversions-associations :
      (clicks : Dict Key Click) (joined : Dict Key (Option Impression)) (l : List Conversion)
      (st : Matches)
      → (match_conversions rules release_id dimensions clicks joined l st).associations
        ≡ st.associations ++ map (outcome clicks joined) l
  unfolding match_conversions conversion_step outcome
  match_conversions-associations clicks joined [] st = sym (append_nil st.associations)
  match_conversions-associations clicks joined (v ∷ l) st =
      match_conversions-associations clicks joined l
        (conversion_step rules release_id dimensions clicks joined v st)
      ∙ ap (λ a. a ++ map (outcome clicks joined) l) (settle-associations _ _ v _ _ _)
      ∙ append_one st.associations (outcome clicks joined v) (map (outcome clicks joined) l)

  outcome-matched :
      (clicks : Dict Key Click) (joined : Dict Key (Option Impression)) (v : Conversion)
      → ((outcome clicks joined v).is_match ≡ true) ↔ (
          (c : Click) × (lookup (key_with v.base v.click_id) clicks ≡ some c)
          × IsAttributable rules c v)
  unfolding outcome
  outcome-matched clicks joined v = matched_iff rules (lookup (key_with v.base v.click_id) clicks) v

  -- The associations are those of the conversions among the events, by their keys. One is matched
  -- if and only if the click map has, under the conversion's advertiser, app and click identifier,
  -- a click of the same user and campaign, not after the conversion and with it in the attribution
  -- window; and a click that the map has under a key is a click among the events with that key.
  pub attribution_lem :
      (sha256 : String → String) (n : ℕ) (st : State)
      → let clicks = click_map st.events in
        let joined = (joins_of rules release_id dimensions st.events).joined in
        ((calculate_from rules release_id dimensions sha256 n st).associations
          ≡ sort_by
              (λ (a : Association). a.association_key)
              (map (outcome clicks joined) (conversions_of st.events)))
        × ((v : Conversion)
            → ((outcome clicks joined v).is_match ≡ true) ↔ (
                (c : Click) × (lookup (key_with v.base v.click_id) clicks ≡ some c)
                × IsAttributable rules c v))
        × ((k : Key) (c : Click)
            → lookup k clicks ≡ some c
            → IsAmong c (clicks_of st.events) × (click_key c ≡ k))
  unfolding calculate_from matches_of lookup
  attribution_lem sha256 n st =
      let clicks = click_map st.events in
      let joined = (joins_of rules release_id dimensions st.events).joined in
      (
        ap (sort_by (λ (a : Association). a.association_key)) (
            match_conversions-associations clicks joined (conversions_of st.events)
              (start_matches _)),
        outcome-matched clicks joined,
        λ k c e. elim (lookup-click_map (clicks_of st.events) [] k c e) [
          | inl found ↦ found
          | inr z ↦ absurd (cc)
        ],
      )
