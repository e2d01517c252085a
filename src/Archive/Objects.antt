-- ===== src/Archive/Objects.antt =====
-- adpulse/archive.py, `LocalObjects` and `archive_batch`. An object is the text of its file, and the
-- directory is a dictionary by the keys.
pub mod Commit
use Prim.Native.String.{◌++◌ as str_append}
use ad_pulse.Prelude.{
  ℕ, zero, suc, String, Bool, true, false, List, [], ◌∷◌, Option, none, some, if◌then◌else◌, ◌==◌,
  string_eq, Result, ok, raise, ◌>>=◌, value_error, key_error, or_raise, length,
}
use ad_pulse.Prelude.Dict.{Dict, lookup, insert}
use ad_pulse.Json.{
  Value, str, num, arr, obj, Items, nil, cons, Fields, end, field, array, canonical, digest,
}
use ad_pulse.Archive.Reconcile.{Archived}

abbrev pub Objects : Type 0
Objects = Dict String String

-- `LocalObjects.put`
unfoldable pub put : String → String → Objects → Result Objects
unfolding lookup insert
put key content objects = elim (lookup key objects) [
  | some old ↦
      if old == content then ok objects else raise (value_error "Immutable archive object conflict")
  | none ↦ ok (insert key content objects)
]

-- `LocalObjects.get`
unfoldable pub get : String → Objects → Result String
unfolding lookup
get key objects = or_raise (lookup key objects) (key_error key)

-- A record as the JSON object that it is.
unfoldable pub record_value : Archived → Value
record_value r = obj (
    field "topic" (str r.topic) (
      field "partition" (num r.partition)
        (field "offset" (num r.offset) (field "value" r.value end))))

-- `"\n".join(canonical(r) for r in records)`
unfoldable pub join_lines : List Archived → String
unfolding record_value
join_lines [] = ""
join_lines (r ∷ []) = canonical (record_value r)
join_lines (r ∷ q ∷ l) =
    str_append (canonical (record_value r)) (str_append "\n" (join_lines (q ∷ l)))

module _ (sha256 : String → String) where
  unfoldable pub references_of : List Archived → List Value
  references_of [] = []
  references_of (r ∷ l) =
      obj (
        field "topic" (str r.topic) (
          field "partition" (num r.partition)
            (field "offset" (num r.offset) (field "sha256" (str (digest sha256 r.value)) end))))
      ∷ references_of l

  unfoldable pub body_of : List Archived → String
  unfolding join_lines
  body_of records = str_append (join_lines records) "\n"

  unfoldable pub data_key : List Archived → String
  unfolding body_of
  data_key records = str_append "data/" (str_append (sha256 (body_of records)) ".jsonl")

  unfoldable pub manifest_key : List Archived → String
  unfolding body_of
  manifest_key records = str_append "manifests/" (str_append (sha256 (body_of records)) ".json")

  unfoldable pub batch_manifest : List Archived → Value
  unfolding data_key references_of
  batch_manifest records = obj (
      field "format_version" (num 1) (
        field "data_key" (str (data_key records)) (
          field "sha256" (str (sha256 (body_of records))) (
            field "record_count" (num (length records))
              (field "records" (arr (array (references_of records))) end)))))

  -- The two calls of `put`, in their order.
  unfoldable pub puts_of : List Archived → List (String × String)
  unfolding manifest_key batch_manifest
  puts_of records =
      (data_key records, body_of records)
      ∷ (manifest_key records, canonical (batch_manifest records))
      ∷ []

  -- The first `n` calls; a crash leaves the effect of a number of them.
  unfoldable pub put_first : ℕ → List (String × String) → Objects → Result Objects
  unfolding put
  put_first zero l objects = ok objects
  put_first (suc n) [] objects = ok objects
  put_first (suc n) ((key, content) ∷ l) objects = do
    objects' ← put key content objects
    put_first n l objects'

  unfoldable pub archive_batch : List Archived → Objects → Result (Value × Objects)
  unfolding put_first puts_of
  archive_batch records objects = do
    objects' ← put_first 2 (puts_of records) objects
    ok (batch_manifest records, objects')
