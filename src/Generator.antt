-- ===== src/Generator.antt =====
-- adpulse/generator.py: synthetic events, their receipts and their batches. What the random number
-- generator draws is a parameter: for a user `i`, whether the campaign is the hot one, whether there
-- is a click and a conversion, and the value of its conversion `j`; and the shuffled order.
pub mod Transport
pub mod Send
pub mod Truth
use Prim.Native.String.{◌++◌ as str_append}
use Prim.Native.Nat.{◌%◌}
use ad_pulse.Prelude.{
  ℕ, zero, suc, ◌+◌, ◌*◌, String, Bool, true, false, ◌||◌, List, [], ◌∷◌, ◌++◌, Option, none, some,
  if◌then◌else◌, ◌==◌, string_eq, nat_eq, option_eq, leb, length, Result, ok, ◌>>=◌,
}
use ad_pulse.Json.{
  Value, str, num, obj, Fields, end, field, decimal, set_field, get_field, value_eq,
}

infixr 6 ◌<>◌
abbrev ◌<>◌ : String → String → String
s <> t = str_append s t

-- The fields of `dict(base, ...)`, where no key is in both.
unfoldable pub with_fields : Fields → Fields → Fields
with_fields end rest = rest
with_fields (field k v fs) rest = field k v (with_fields fs rest)

pub record Draws : Type 0 where
  pub is_hot : ℕ → Bool
  pub clicks : ℕ → Bool
  pub converts : ℕ → Bool
  pub value_minor : ℕ → ℕ → ℕ

-- The ids of an event
abbrev pub event_name : String → ℕ → ℕ → String
event_name kind seed i = kind <> "-" <> decimal seed <> "-" <> decimal i

abbrev pub conversion_name : String → ℕ → ℕ → ℕ → String
conversion_name kind seed i j = event_name kind seed i <> "-" <> decimal j

-- An entry of the expected associations
pub record Expected : Type 0 where
  pub conversion_id : String
  pub click_id : String
  pub impression_id : String
  pub status : String
  pub reason : String

module _ (draws : Draws) (seed start_ms : ℕ) (scenario : String) where
  abbrev campaign_of : ℕ → String
  campaign_of i =
      if scenario == "hotspot"
      then (if draws.is_hot i then "campaign-0" else "campaign-1")
      else "campaign-" <> decimal (i % 4)

  unfoldable pub base_of : ℕ → Fields
  base_of i = field "schema_version" (num 1) (
      field "app_id" (str "short-video") (
        field "app_version" (str "1.4.0") (
          field "advertiser_id" (str ("advertiser-" <> decimal (i % 3))) (
            field "user_id" (str (event_name "synthetic-user" seed i)) (
              field "campaign_id" (str (campaign_of i))
                (field "trace_id" (str (event_name "trace" seed i)) end))))))

  abbrev region_of : ℕ → String
  region_of i = if i % 3 == 0 then "US" else if i % 3 == 1 then "JP" else "GB"

  unfoldable pub impression_of : ℕ → Fields
  unfolding base_of with_fields
  impression_of i = with_fields (base_of i) (
      field "event_type" (str "impression") (
        field "event_id" (str (event_name "ev-i" seed i)) (
          field "impression_id" (str (event_name "imp" seed i)) (
            field "ad_id" (str ("ad-" <> decimal (i % 8))) (
              field "event_time" (num (start_ms + i * 1000)) (
                field "region" (str (region_of i)) (
                  field "experiment_id" (str "creative-test") (
                    field "variant" (str (if i % 2 == 0 then "control" else "treatment"))
                      end))))))))

  unfoldable pub click_of : ℕ → Fields
  unfolding base_of with_fields
  click_of i = with_fields (base_of i) (
      field "event_type" (str "click") (
        field "event_id" (str (event_name "ev-c" seed i)) (
          field "click_id" (str (event_name "click" seed i)) (
            field "impression_id" (str (event_name "imp" seed i))
              (field "event_time" (num (start_ms + i * 1000 + 1500)) end)))))

  unfoldable pub conversion_of : ℕ → ℕ → Fields
  unfolding base_of with_fields
  conversion_of i j = with_fields (base_of i) (
      field "event_type" (str "conversion") (
        field "event_id" (str (conversion_name "ev-v" seed i j)) (
          field "conversion_id" (str (conversion_name "conv" seed i j)) (
            field "click_id" (str (event_name "click" seed i)) (
              field "event_time" (num (start_ms + i * 1000 + 5000 + j * 1000)) (
                field "conversion_type" (str "purchase") (
                  field "value_minor" (num (draws.value_minor i j))
                    (field "currency" (str "USD") end))))))))

  abbrev pub expected_of : ℕ → ℕ → Expected
  expected_of i j = record {
    conversion_id = conversion_name "conv" seed i j;
    click_id = event_name "click" seed i;
    impression_id = event_name "imp" seed i;
    status = "matched";
    reason = "MATCHED";
  }

  abbrev pub conversion_count : ℕ → ℕ
  conversion_count i = if i % 7 == 0 then 2 else 1

  -- `for j in range(...)`, from `j`
  unfoldable pub conversions_from : ℕ → ℕ → ℕ → List Fields
  unfolding conversion_of
  conversions_from i j zero = []
  conversions_from i j (suc n) = conversion_of i j ∷ conversions_from i (suc j) n

  unfoldable pub expected_from : ℕ → ℕ → ℕ → List Expected
  expected_from i j zero = []
  expected_from i j (suc n) = expected_of i j ∷ expected_from i (suc j) n

  -- The body of the loop over the users.
  unfoldable pub user_truth : ℕ → List Fields
  unfolding impression_of click_of conversions_from
  user_truth i =
      impression_of i
      ∷ (if draws.clicks i
          then click_of i
            ∷ (if draws.converts i then conversions_from i 0 (conversion_count i) else [])
          else [])

  unfoldable pub user_expected : ℕ → List Expected
  unfolding expected_from
  user_expected i =
      if draws.clicks i
      then (if draws.converts i then expected_from i 0 (conversion_count i) else [])
      else []

  -- `users` users from `i`
  unfoldable pub truth_from : ℕ → ℕ → List Fields
  unfolding user_truth
  truth_from i zero = []
  truth_from i (suc users) = user_truth i ++ truth_from (suc i) users

  unfoldable pub expected_associations : ℕ → ℕ → List Expected
  unfolding user_expected
  expected_associations i zero = []
  expected_associations i (suc users) = user_expected i ++ expected_associations (suc i) users
