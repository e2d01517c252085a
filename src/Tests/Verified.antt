-- ===== src/Tests/Verified.antt =====
-- adpulse/archive.py: an archive with one manifest of one record.
use ad_pulse.Prelude.{
  String, ◌≡◌, refl, false, List, [], ◌∷◌, if◌then◌else◌, ◌==◌, string_eq, Result, ok, raise,
  value_error, All, IsAmong, String_discrete, ℕ_discrete,
}
use ad_pulse.Json.{Value, str, num, obj, arr, nil, cons, Fields, end, field, digest, Value_discrete}
use ad_pulse.Archive.Reconcile.{Archived}
use ad_pulse.Archive.Objects.{Objects}
use ad_pulse.Archive.Verified.{identity_of, keys_of, lines_from, verified_records}
use ad_pulse.Archive.Verified.Covers.{Refers, Lists, IsCommitted, verified_records_lem}

abbrev hash : String → String
hash s = "h"

abbrev record_of : Archived
record_of = record { topic = "a.raw"; partition = 0; offset = 9; value = num 5 }

abbrev reference : Fields
reference =
    field "topic" (str "a.raw")
      (field "partition" (num 0) (field "offset" (num 9) (field "sha256" (str "h") end)))

abbrev manifest : Fields
manifest = field "data_key" (str "data/h.jsonl") (
    field "sha256" (str "h")
      (field "record_count" (num 1) (field "records" (arr (cons (obj reference) nil)) end)))

abbrev loads : String → Result Value
loads s =
    if s == "manifest"
    then ok (obj manifest)
    else if s == "row"
    then ok (
        obj (
          field "topic" (str "a.raw")
            (field "partition" (num 0) (field "offset" (num 9) (field "value" (num 5) end)))))
    else raise (value_error "JSONDecodeError")

abbrev store : Objects
store = ("manifests/h.json", "manifest") ∷ ("data/h.jsonl", "row\n") ∷ []

lines_run : lines_from false "a\r\n\nb" ≡ "a" ∷ "" ∷ "b" ∷ []
unfolding lines_from ℕ_discrete
lines_run = refl

verified_run : verified_records hash loads store ≡ ok (record_of ∷ [])
unfolding verified_records String_discrete ℕ_discrete Value_discrete digest
verified_run = refl

verified_records_lem_example :
    All
      (λ (key : String).
        (refs : List Fields) × (Lists hash loads store key refs
          × All
              (λ (ref : Fields).
                (row : Archived) × (IsAmong row (record_of ∷ []) × Refers hash loads row ref))
              refs))
      (keys_of "manifests/" store)
    × (All (IsCommitted hash loads store (keys_of "manifests/" store)) (record_of ∷ [])
        × ((a b : Archived)
            → IsAmong a (record_of ∷ [])
            → IsAmong b (record_of ∷ [])
            → identity_of a ≡ identity_of b
            → a ≡ b))
verified_records_lem_example = verified_records_lem hash loads store verified_run
