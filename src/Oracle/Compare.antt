-- ===== src/Oracle/Compare.antt =====
-- adpulse/oracle.py, `compare`: the differences between two sets of business results.
pub mod Sound
use ad_pulse.Prelude.{
  ℕ, String, Bool, true, false, ◌&&◌, ◌||◌, not, List, [], ◌∷◌, ◌++◌, map, Option, none, some,
  if◌then◌else◌, ◌==◌, Eq, string_eq, nat_eq, ltb, pair_eq, ℕ_discrete, option_eq, is_some,
}
use ad_pulse.Prelude.Dict.{Dict, lookup, insert, keys, contains}
use ad_pulse.Prelude.Sort.{sort_by}
use ad_pulse.Oracle.Metrics.{Counters, Metric}
use ad_pulse.Oracle.Calculate.{Association, Reason}

-- The rows that `compare` reads of a result of `calculate` or of a store.
pub record Snapshot : Type 0 where
  pub metrics : List Metric
  pub associations : List Association

pub Counters_discrete : Discrete Counters
Counters_discrete = hlevel ℕ_discrete

instance abbrev pub counters_eq : Eq Counters
counters_eq = record { dec = Counters_discrete }

pub Reason_discrete : Discrete Reason
Reason_discrete = hlevel

instance abbrev pub reason_eq : Eq Reason
reason_eq = record { dec = Reason_discrete }

pub Bool_discrete : Discrete Bool
Bool_discrete = hlevel

instance abbrev pub bool_eq : Eq Bool
bool_eq = record { dec = Bool_discrete }

-- `any(m["values"].values())`
unfoldable pub any_count : Counters → Bool
any_count c =
    ltb 0 c.impressions
    || (ltb 0 c.clicks
        || (ltb 0 c.matched_conversions
            || (ltb 0 c.unmatched_conversions
                || (ltb 0 c.converted_clicks || ltb 0 c.value_minor))))

unfoldable pub metric_map : List Metric → Dict String Counters → Dict String Counters
metric_map [] d = d
metric_map (m ∷ l) d =
    metric_map l (if any_count m.values then insert m.metric_key m.values d else d)

-- status, reason, experiment and variant
abbrev pub Facts : Type 0
Facts = Bool × (Reason × (String × String))

unfoldable pub association_map : List Association → Dict String Facts → Dict String Facts
association_map [] d = d
association_map (a ∷ l) d =
    association_map l
      (insert a.association_key (a.is_match, (a.reason, (a.experiment_id, a.variant))) d)

pub data Kind : Type 0 where
  metric association : Kind

-- A difference: its kind, its key, and whether each side has a value.
pub record Difference : Type 0 where
  pub kind : Kind
  pub key : String
  pub expected : Bool
  pub actual : Bool

module _ {V : Type 0} ⦃e : Eq V⦄ (left right : Dict String V) where
  -- `left.keys() | right.keys()`
  unfoldable pub missing_keys : List String → List String
  missing_keys [] = []
  missing_keys (k ∷ l) = let rest = missing_keys l in if contains k left then rest else k ∷ rest

  unfoldable pub all_keys : List String
  unfolding missing_keys
  all_keys = sort_by (λ (k : String). k) (keys left ++ missing_keys (keys right))

  unfoldable pub diff_at : Kind → List String → List Difference
  diff_at kind [] = []
  diff_at kind (k ∷ l) =
      let rest = diff_at kind l in
      if lookup k left == lookup k right
      then rest
      else record {
        kind = kind;
        key = k;
        expected = is_some (lookup k left);
        actual = is_some (lookup k right);
      }
        ∷ rest

  unfoldable pub differences : Kind → List Difference
  unfolding all_keys diff_at
  differences kind = diff_at kind all_keys

pub record Report : Type 0 where
  pub passed : Bool
  pub differences : List Difference

abbrev is_empty : {A : Type 0} → List A → Bool
is_empty [] = true
is_empty (x ∷ l) = false

unfoldable pub compare : Snapshot → Snapshot → Report
unfolding differences metric_map association_map
compare expected actual =
    let found =
      differences (metric_map expected.metrics []) (metric_map actual.metrics []) metric
      ++ differences (association_map expected.associations [])
          (association_map actual.associations []) association in
    record { passed = is_empty found; differences = found }
