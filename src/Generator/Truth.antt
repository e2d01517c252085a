-- ===== src/Generator/Truth.antt =====
-- The expected associations are true of the generated events.
use ad_pulse.Prelude.{
  IsAmong, IsAmong-left, IsAmong-right, ℕ, zero, suc, ◌+◌, ◌*◌, ◌≤◌, String, ◌≡◌, refl, List, [],
  ◌∷◌, ◌++◌, some, string_eq, String_discrete, arith, All, inl, inr, Bool-cases,
}
use ad_pulse.Json.{Value, str, num, obj, Fields, get_field}
use ad_pulse.Oracle.Event.{Rules, Impression, Click, Conversion, Event, decode, scope}
use ad_pulse.Oracle.Normalize.{all_ok}
use ad_pulse.Oracle.Calculate.{link_reason, matched, match_reason}
use ad_pulse.Generator.{
  Draws, Expected, expected_of, impression_of, click_of, conversion_of, conversions_from,
  expected_from, conversion_count, user_truth, user_expected, truth_from, expected_associations,
}

-- An event of a kind with two ids and a time.
pub record IsEvent (kind id_key id : String) (time : ℕ) (e : Fields) : Type 0 where
  has_kind : get_field "event_type" e ≡ some (str kind)
  has_id : get_field id_key e ≡ some (str id)
  has_time : get_field "event_time" e ≡ some (num time)

-- The batch oracle reads the three events, joins the click to the impression and matches the
-- conversion to the click.
abbrev pub IsMatchedBy : Rules → Value → Fields → Fields → Fields → Type 0
IsMatchedBy rules receipt seen hit won =
    (i : Impression) × (k : Click) × (v : Conversion) × (decode receipt (obj seen)
      ≡ some (Event.impression i))
    × (decode receipt (obj hit) ≡ some (Event.click k))
    × (decode receipt (obj won) ≡ some (Event.conversion v))
    × (link_reason rules (some i) k ≡ all_ok)
    × (match_reason rules (some k) v ≡ matched)

link_reason-all_ok :
    (rules : Rules) (i : Impression) (k : Click)
    → scope i.base ≡ scope k.base
    → i.campaign_id ≡ k.campaign_id
    → i.event_time ≤ k.event_time
    → k.event_time ≤ i.event_time + rules.attribution_window_ms
    → link_reason rules (some i) k ≡ all_ok
unfolding link_reason
link_reason-all_ok rules i k s c low high = ground (arith, s, c, low, high)

match_reason-matched :
    (rules : Rules) (k : Click) (v : Conversion)
    → scope k.base ≡ scope v.base
    → k.campaign_id ≡ v.campaign_id
    → k.event_time ≤ v.event_time
    → v.event_time ≤ k.event_time + rules.attribution_window_ms
    → match_reason rules (some k) v ≡ matched
unfolding match_reason
match_reason-matched rules k v s c low high = ground (arith, s, c, low, high)

-- The conversion, its click and its impression are among the events, by their ids; the entry says
-- that the conversion is matched, and so says the batch oracle of the three events by any rules with
-- a window of 4.5 seconds or more.
pub record IsTrue (truth : List Fields) (x : Expected) : Type 0 where
  shown : ℕ
  clicked : ℕ
  converted : ℕ
  impression : Fields
  click : Fields
  conversion : Fields
  are_among : IsAmong impression truth × (IsAmong click truth × IsAmong conversion truth)
  is_impression : IsEvent "impression" "impression_id" x.impression_id shown impression
  is_click : IsEvent "click" "click_id" x.click_id clicked click
  names_impression : get_field "impression_id" click ≡ some (str x.impression_id)
  is_conversion : IsEvent "conversion" "conversion_id" x.conversion_id converted conversion
  names_click : get_field "click_id" conversion ≡ some (str x.click_id)
  says_matched : (x.status ≡ "matched") × (x.reason ≡ "MATCHED")
  is_matched_by :
      (rules : Rules) (receipt : Value)
      → 4500 ≤ rules.attribution_window_ms
      → IsMatchedBy rules receipt impression click conversion
  in_order : (shown ≤ clicked) × (clicked ≤ converted)

module _ (draws : Draws) (seed start_ms : ℕ) (scenario : String) where
  expected_of-IsTrue :
      (truth : List Fields) (i j : ℕ)
      → j ≤ 1
      → IsAmong (impression_of draws seed start_ms scenario i) truth
      → IsAmong (click_of draws seed start_ms scenario i) truth
      → IsAmong (conversion_of draws seed start_ms scenario i j) truth
      → IsTrue truth (expected_of draws seed start_ms scenario i j)
  unfolding impression_of click_of conversion_of get_field String_discrete decode scope
  expected_of-IsTrue truth i j small m c v = record {
    shown = start_ms + i * 1000;
    clicked = start_ms + i * 1000 + 1500;
    converted = start_ms + i * 1000 + 5000 + j * 1000;
    impression = impression_of draws seed start_ms scenario i;
    click = click_of draws seed start_ms scenario i;
    conversion = conversion_of draws seed start_ms scenario i j;
    are_among = (m, (c, v));
    is_impression = record { has_kind = refl; has_id = refl; has_time = refl };
    is_click = record { has_kind = refl; has_id = refl; has_time = refl };
    names_impression = refl;
    is_conversion = record { has_kind = refl; has_id = refl; has_time = refl };
    names_click = refl;
    says_matched = (refl, refl);
    is_matched_by = λ rules receipt w. (
      _,
      _,
      _,
      refl,
      refl,
      refl,
      link_reason-all_ok rules _ _ refl refl (omega arith) (omega (arith, w)),
      match_reason-matched rules _ _ refl refl (omega arith) (omega (arith, w, small)),
    );
    in_order = (omega arith, omega arith);
  }

  expected_from-IsTrue :
      (truth : List Fields) (i j n : ℕ)
      → j + n ≤ 2
      → IsAmong (impression_of draws seed start_ms scenario i) truth
      → IsAmong (click_of draws seed start_ms scenario i) truth
      → ((e : Fields)
          → IsAmong e (conversions_from draws seed start_ms scenario i j n)
          → IsAmong e truth)
      → All (IsTrue truth) (expected_from draws seed start_ms scenario i j n)
  unfolding expected_from conversions_from
  expected_from-IsTrue truth i j zero few m c v = tt
  expected_from-IsTrue truth i j (suc n) few m c v = (
    expected_of-IsTrue truth i j (omega (arith, few)) m c (v _ (inl refl)),
    expected_from-IsTrue truth i (suc j) n (omega (arith, few)) m c (λ e h. v e (inr h)),
  )

  All-weaken :
      (l m : List Fields) (xs : List Expected)
      → ((e : Fields) → IsAmong e l → IsAmong e m)
      → All (IsTrue l) xs
      → All (IsTrue m) xs
  All-weaken l m [] w h = tt
  All-weaken l m (x ∷ xs) w (h, t) = (
    record {
      shown = h.shown;
      clicked = h.clicked;
      converted = h.converted;
      impression = h.impression;
      click = h.click;
      conversion = h.conversion;
      are_among = (
        w h.impression h.are_among.0,
        (w h.click h.are_among.1.0, w h.conversion h.are_among.1.1),
      );
      is_impression = h.is_impression;
      is_click = h.is_click;
      names_impression = h.names_impression;
      is_conversion = h.is_conversion;
      names_click = h.names_click;
      says_matched = h.says_matched;
      is_matched_by = h.is_matched_by;
      in_order = h.in_order;
    },
    All-weaken l m xs w t,
  )

  All-append :
      (l : List Fields) (xs ys : List Expected)
      → All (IsTrue l) xs
      → All (IsTrue l) ys
      → All (IsTrue l) (xs ++ ys)
  All-append l [] ys h k = k
  All-append l (x ∷ xs) ys h k = (h.0, All-append l xs ys h.1 k)

  few_conversions : (i : ℕ) → 0 + conversion_count draws seed start_ms scenario i ≤ 2
  few_conversions i = ground arith

  user_expected-IsTrue :
      (i : ℕ)
      → All
          (IsTrue (user_truth draws seed start_ms scenario i))
          (user_expected draws seed start_ms scenario i)
  unfolding user_expected user_truth
  user_expected-IsTrue i = elim (Bool-cases (draws.clicks i)) [
    | inl c ↦ elim (Bool-cases (draws.converts i)) [
      | inl v ↦
          rw (c, v)
            (expected_from-IsTrue _ i 0 (conversion_count draws seed start_ms scenario i)
              (few_conversions i) (inl refl) (inr (inl refl)) (λ e h. inr (inr h)))
      | inr v ↦ rw (c, v) tt
    ]
    | inr c ↦ rw c tt
  ]

  -- Every expected association is true of the generated events: its conversion, click and impression
  -- are among them, and the batch oracle joins and matches the three, as the entry says, by any rules
  -- with a window of 4.5 seconds or more.
  pub expected_associations_lem :
      (i users : ℕ)
      → All
          (IsTrue (truth_from draws seed start_ms scenario i users))
          (expected_associations draws seed start_ms scenario i users)
  unfolding truth_from expected_associations
  expected_associations_lem i zero = tt
  expected_associations_lem i (suc users) =
      let first = user_truth draws seed start_ms scenario i in
      let rest = truth_from draws seed start_ms scenario (suc i) users in
      All-append (first ++ rest) (user_expected draws seed start_ms scenario i) _
        (All-weaken first (first ++ rest) _ (λ e. IsAmong-left e first rest)
          (user_expected-IsTrue i))
        (All-weaken rest (first ++ rest) _ (λ e. IsAmong-right e first rest)
          (expected_associations_lem (suc i) users))
