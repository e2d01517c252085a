-- ===== src/Dimensions.antt =====
-- adpulse/cli.py, `archived_dimensions`: the campaign versions among the archived rows. `loads` is
-- `json.loads` on the attributes of a row.
pub mod Versions
use ad_pulse.Prelude.{
  String, Bool, true, false, ◌&&◌, ◌||◌, not, List, [], ◌∷◌, Option, none, some, if◌then◌else◌,
  ◌==◌, string_eq, nat_eq, pair_eq, option_eq, Result, ok, raise, ◌>>=◌, type_error,
}
use ad_pulse.Prelude.Dict.{Dict, insert, values}
use ad_pulse.Json.{
  Value, null, bool, num, str, arr, obj, nil, cons, Fields, end, field, get_field, set_field,
  has_field, value_eq,
}
use ad_pulse.Storage.Payload.{value_at, value_or}
use ad_pulse.Archive.Reconcile.{Archived, ends_with, object}

-- `bool(v)`
unfoldable pub truthy : Value → Bool
truthy null = false
truthy (bool b) = b
truthy (num n) = not (n == 0)
truthy (str s) = not (s == "")
truthy (obj end) = false
truthy (obj (field _ _ _)) = true
truthy (arr nil) = false
truthy (arr (cons _ _)) = true

-- campaign, start and source version
abbrev pub VersionKey : Type 0
VersionKey = Value × (Value × Value)

-- `envelope.get("op") == "d"`
unfoldable pub is_delete : Fields → Bool
unfolding get_field
is_delete envelope = get_field "op" envelope == some (str "d")

-- The row of an envelope, or the envelope itself where it is the row.
unfoldable pub row_in : Fields → Value
unfolding is_delete get_field value_or
row_in envelope =
    if has_field "op" envelope
    then value_or (if is_delete envelope then "before" else "after") null envelope
    else obj envelope

module _ (loads : String → Result Value) where
  unfoldable pub loaded : Value → Result Value
  loaded (str s) = loads s
  loaded v = ok v

  -- The row with its flag and its attributes.
  unfoldable pub version_row : Bool → Fields → Result Fields
  unfolding value_or value_at set_field loaded truthy
  version_row deleted row =
      let flag = if deleted then bool true else value_or "deleted" (bool false) row in
      let flagged = set_field "deleted" flag row in
      value_at "attributes" flagged >>= λ attributes.
      loaded attributes >>= λ v. ok (set_field "attributes" v flagged)

  unfoldable pub version_key : Fields → Result VersionKey
  unfolding value_at
  version_key row = do
    campaign_id ← value_at "campaign_id" row
    effective_from ← value_at "effective_from" row
    source_version ← value_at "source_version" row
    ok (campaign_id, (effective_from, source_version))

  -- A row that is not empty, put under its key.
  unfoldable pub put_version : Fields → Dict VersionKey Fields → Result (Dict VersionKey Fields)
  unfolding row_in is_delete truthy object version_row version_key insert
  put_version envelope versions =
      if not (truthy (row_in envelope))
      then ok versions
      else (object (row_in envelope) >>= λ row. version_row (is_delete envelope) row >>= λ r.
          version_key r >>= λ key. ok (insert key r versions))

  -- The body of the loop.
  unfoldable pub version_step : Archived → Dict VersionKey Fields → Result (Dict VersionKey Fields)
  unfolding ends_with value_or put_version object
  version_step record_row versions =
      if not (ends_with "campaign_versions" record_row.topic) || record_row.value == null
      then ok versions
      else (object record_row.value >>= λ value.
          if value_or "payload" record_row.value value == null
          then ok versions
          else (object (value_or "payload" record_row.value value) >>= λ envelope.
              put_version envelope versions))

  unfoldable pub versions_from :
      List Archived → Dict VersionKey Fields → Result (Dict VersionKey Fields)
  unfolding version_step
  versions_from [] versions = ok versions
  versions_from (r ∷ l) versions = do versions' ← version_step r versions; versions_from l versions'

  unfoldable pub archived_dimensions : List Archived → Result (List Fields)
  unfolding versions_from
  archived_dimensions rows = do versions ← versions_from rows []; ok (values versions)
