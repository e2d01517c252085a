-- ===== src/Oracle/Compare/Sound.antt =====
-- `compare` passes exactly on snapshots with the same business facts.
use ad_pulse.Prelude.{
  String, ◌≡◌, refl, ◌↔◌, true, ◌||◌, List, [], ◌∷◌, ◌++◌, Eq, string_eq, option_eq, arith,
  Bool-cases, inl, inr, pair_eq,
}
use mathlib.Core.Bool.{false≢true}
use ad_pulse.Prelude.Dict.{Dict, lookup, keys, contains, member-keys}
use ad_pulse.Prelude.Distinct.{member, member-append}
use ad_pulse.Prelude.Sort.{sort_by, place}
use ad_pulse.Oracle.Compare.{
  Snapshot, Kind, metric, association, is_empty, missing_keys, all_keys, diff_at, differences,
  compare, metric_map, association_map, counters_eq, reason_eq, bool_eq,
}

member-place :
    (k x : String) (l : List String) → member k (place (λ (s : String). s) x l) ≡ member k (x ∷ l)
unfolding place member
member-place k x [] = refl
member-place k x (y ∷ l) = ground (arith, member-place k x l)

member-sort_by :
    (k : String) (l : List String) → member k (sort_by (λ (s : String). s) l) ≡ member k l
unfolding sort_by member
member-sort_by k [] = refl
member-sort_by k (x ∷ l) =
    ground (arith, member-place k x (sort_by (λ (s : String). s) l), member-sort_by k l)

module _ {V : Type 0} ⦃e : Eq V⦄ (left right : Dict String V) where
  member-missing_keys :
      (k : String) (l : List String)
      → member k l ≡ true
      → (contains k left || member k (missing_keys left right l)) ≡ true
  unfolding missing_keys member
  member-missing_keys k [] h = cc
  member-missing_keys k (j ∷ l) h = ground (arith, member-missing_keys k l)

  -- A key of either side is looked at.
  member-all_keys :
      (k : String)
      → (contains k left || contains k right) ≡ true
      → member k (all_keys left right) ≡ true
  unfolding all_keys
  member-all_keys k h =
      rw (member-sort_by, member-append, member-keys)
        (ground (arith, member-keys k right, member-missing_keys k (keys right)))

  diff_at-nil :
      (kind : Kind) (k : String) (l : List String)
      → diff_at left right kind l ≡ []
      → member k l ≡ true
      → lookup k left ≡ lookup k right
  unfolding diff_at member
  diff_at-nil kind k [] h m = cc
  diff_at-nil kind k (j ∷ l) h m = ground (arith, diff_at-nil kind k l)

  same-diff_at :
      (kind : Kind) (l : List String)
      → ((k : String) → lookup k left ≡ lookup k right)
      → diff_at left right kind l ≡ []
  unfolding diff_at
  same-diff_at kind [] h = refl
  same-diff_at kind (j ∷ l) h = ground (arith, h j, same-diff_at kind l h)

  differences-nil_iff :
      (kind : Kind)
      → (differences left right kind ≡ []) ↔ ((k : String) → lookup k left ≡ lookup k right)
  unfolding differences
  differences-nil_iff kind = (
    λ h k. elim (Bool-cases (contains k left || contains k right)) [
      | inl known ↦ diff_at-nil kind k (all_keys left right) h (member-all_keys k known)
      | inr unknown ↦ ground arith
    ],
    same-diff_at kind (all_keys left right),
  )

is_empty-append : {A : Type 0} (l r : List A) → (is_empty (l ++ r) ≡ true) ↔ ((l ≡ []) × (r ≡ []))
is_empty-append [] [] = (λ h. (refl, refl), λ h. refl)
is_empty-append [] (x ∷ r) = (λ h. absurd (false≢true h), λ h. cc (h.1))
is_empty-append (x ∷ l) r = (λ h. absurd (false≢true h), λ h. cc (h.0))

-- The report passes exactly if, under every key, both sides have the same non-zero counters, or
-- none, and the same association facts, or none.
pub compare_iff :
    (expected actual : Snapshot)
    → ((compare expected actual).passed ≡ true) ↔ (
        ((k : String)
          → lookup k (metric_map expected.metrics []) ≡ lookup k (metric_map actual.metrics []))
        × ((k : String)
            → lookup k (association_map expected.associations [])
              ≡ lookup k (association_map actual.associations [])))
unfolding compare
compare_iff expected actual =
    let (m, m') =
      differences-nil_iff (metric_map expected.metrics []) (metric_map actual.metrics []) metric in
    let (a, a') =
      differences-nil_iff (association_map expected.associations [])
        (association_map actual.associations []) association in
    let (f, f') =
      is_empty-append
        (differences (metric_map expected.metrics []) (metric_map actual.metrics []) metric) _ in
    (λ h. let (p, q) = f h in (m p, a q), λ h. f' (m' h.0, a' h.1))
