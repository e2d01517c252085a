-- ===== src/Tests/Dimensions.antt =====
-- adpulse/cli.py, `archived_dimensions` at two deliveries of one version and a deletion of another.
use ad_pulse.Prelude.{
  ℕ, String, ◌≡◌, refl, List, [], ◌∷◌, Result, ok, raise, length, pair_eq, ℕ_discrete,
  String_discrete, pair_dec, option_dec,
}
use ad_pulse.Prelude.Dict.{Dict, IsDict, values, insert}
use ad_pulse.Json.{
  Value, num, str, obj, Fields, end, field, get_field, set_field, value_eq, Value_discrete,
}
use ad_pulse.Archive.Reconcile.{Archived}
use ad_pulse.Dimensions.{VersionKey, archived_dimensions}
use ad_pulse.Dimensions.Versions.{archived_dimensions_distinct, AreKeyed}

abbrev loads : String → Result Value
loads s = ok (obj end)

abbrev version : String → ℕ → Fields
version campaign number = field "campaign_id" (str campaign) (
    field "effective_from" (num 0)
      (field "source_version" (num number) (field "attributes" (str "{}") end)))

abbrev delivery : ℕ → Value → Archived
delivery n v = record {
  topic = "adpulse.cdc.public.campaign_versions";
  partition = 0;
  offset = n;
  value = v;
}

abbrev rows : List Archived
rows =
    delivery 0 (obj (version "c" 1))
    ∷ delivery 1 (obj (version "c" 1))
    ∷ delivery 2 (obj (field "op" (str "d") (field "before" (obj (version "e" 2)) end)))
    ∷ []

abbrev rows_of : Result (List Fields) → List Fields
rows_of (ok l) = l
rows_of (raise e) = []

unfoldable found : List Fields
unfolding archived_dimensions
found = rows_of (archived_dimensions loads rows)

found_run : archived_dimensions loads rows ≡ ok found
unfolding found archived_dimensions get_field set_field insert Value_discrete String_discrete
    ℕ_discrete pair_dec option_dec
found_run = refl

archived_dimensions_distinct_run :
    (d : Dict VersionKey Fields) × (values d ≡ found) × IsDict d × AreKeyed loads d
archived_dimensions_distinct_run = archived_dimensions_distinct loads rows found_run

two_versions : length found ≡ 2
unfolding found archived_dimensions get_field set_field insert Value_discrete String_discrete
    ℕ_discrete pair_dec option_dec
two_versions = refl
