-- ===== src/Oracle/Calculate/Kinds.antt =====
-- The events of one kind, and the dictionaries that `calculate` builds of them.
use mathlib.Core.List.{map-map}
use ad_pulse.Prelude.{
  ◌≡◌, refl, sym, ap, true, List, [], ◌∷◌, map, arith, length, string_eq, pair_eq, ◌∙◌,
}
use ad_pulse.Prelude.Distinct.{member, IsDistinct}
use ad_pulse.Prelude.Dict.{values, length-values, insert_all_distinct}
use ad_pulse.Oracle.Event.{Event, impression, click, conversion, BusinessKey, business_key}
use ad_pulse.Oracle.Normalize.Dedup.{business_keys}
use ad_pulse.Oracle.Calculate.{
  Key, impressions_of, clicks_of, impression_key, click_key, impression_map, click_map, with_key,
}

impression_business : Key → BusinessKey
impression_business k = (k.0, (k.1.0, ("impression", k.1.1)))

click_business : Key → BusinessKey
click_business k = (k.0, (k.1.0, ("click", k.1.1)))

member-impressions :
    (k : Key) (l : List Event)
    → member k (map impression_key (impressions_of l)) ≡ true
    → member (impression_business k) (business_keys l) ≡ true
unfolding impressions_of member impression_business business_key
member-impressions k [] h = h
member-impressions k (impression i ∷ l) h = ground (arith, member-impressions k l)
member-impressions k (click c ∷ l) h = ground (arith, member-impressions k l h)
member-impressions k (conversion v ∷ l) h = ground (arith, member-impressions k l h)

member-clicks :
    (k : Key) (l : List Event)
    → member k (map click_key (clicks_of l)) ≡ true
    → member (click_business k) (business_keys l) ≡ true
unfolding clicks_of member click_business business_key
member-clicks k [] h = h
member-clicks k (click c ∷ l) h = ground (arith, member-clicks k l)
member-clicks k (impression i ∷ l) h = ground (arith, member-clicks k l h)
member-clicks k (conversion v ∷ l) h = ground (arith, member-clicks k l h)

impressions-IsDistinct :
    (l : List Event)
    → IsDistinct (business_keys l)
    → IsDistinct (map impression_key (impressions_of l))
unfolding impressions_of
impressions-IsDistinct [] h = tt
impressions-IsDistinct (impression i ∷ l) h = (
  unfold impression_business business_key in
      ground (arith, member-impressions (impression_key i) l),
  impressions-IsDistinct l h.1,
)
impressions-IsDistinct (click c ∷ l) h = impressions-IsDistinct l h.1
impressions-IsDistinct (conversion v ∷ l) h = impressions-IsDistinct l h.1

clicks-IsDistinct :
    (l : List Event) → IsDistinct (business_keys l) → IsDistinct (map click_key (clicks_of l))
unfolding clicks_of
clicks-IsDistinct [] h = tt
clicks-IsDistinct (click c ∷ l) h = (
  unfold click_business business_key in ground (arith, member-clicks (click_key c) l),
  clicks-IsDistinct l h.1,
)
clicks-IsDistinct (impression i ∷ l) h = clicks-IsDistinct l h.1
clicks-IsDistinct (conversion v ∷ l) h = clicks-IsDistinct l h.1

values-with_key : {A : Type 0} (key : A → Key) (l : List A) → values (map (with_key key) l) ≡ l
values-with_key key [] = refl
values-with_key key (x ∷ l) = ap (λ r. x ∷ r) (values-with_key key l)

-- The dictionary holds the impressions in their order, since no business key stands twice.
pub values-impression_map :
    (l : List Event) → IsDistinct (business_keys l) → values (impression_map l) ≡ impressions_of l
values-impression_map l h =
    ap values (
      insert_all_distinct (map (with_key impression_key) (impressions_of l))
        (rw map-map (impressions-IsDistinct l h)))
    ∙ values-with_key impression_key (impressions_of l)

pub values-click_map :
    (l : List Event) → IsDistinct (business_keys l) → values (click_map l) ≡ clicks_of l
values-click_map l h =
    ap values (
      insert_all_distinct (map (with_key click_key) (clicks_of l))
        (rw map-map (clicks-IsDistinct l h)))
    ∙ values-with_key click_key (clicks_of l)

pub length-impression_map :
    (l : List Event)
    → IsDistinct (business_keys l)
    → length (impression_map l) ≡ length (impressions_of l)
length-impression_map l h =
    sym (length-values (impression_map l)) ∙ ap length (values-impression_map l h)

pub length-click_map :
    (l : List Event) → IsDistinct (business_keys l) → length (click_map l) ≡ length (clicks_of l)
length-click_map l h = sym (length-values (click_map l)) ∙ ap length (values-click_map l h)
