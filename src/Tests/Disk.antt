-- ===== src/Tests/Disk.antt =====
-- The theorems on the containers on disk at concrete inputs.
use ad_pulse.Prelude.{
  String, ◌≡◌, refl, true, false, List, [], ◌∷◌, if◌then◌else◌, ◌==◌, string_eq, String_discrete,
  ℕ_discrete, Result, ok, raise, value_error,
}
use ad_pulse.Prelude.Dict.{insert_all}
use ad_pulse.Json.{Value, str, bool, canonical, value_eq}
use ad_pulse.Disk
use ad_pulse.Disk.{Workspace, mapping_rows, sequence_rows, mapping, sequence, append, each}
use ad_pulse.Disk.Operations.{
  Operation, has, set, set_or, get_at, all_items, sorted_values, count, run, disk_step, dict_step,
}
use ad_pulse.Disk.Refines.{disk_refines_dict}
use ad_pulse.Disk.Sequence.{append_all, sequence_lem}

-- `json.loads` on two texts
abbrev loads : String → Result Value
loads t =
    if t == "true"
    then ok (bool true)
    else if t == "\"k\""
    then ok (str "k")
    else raise (value_error "JSONDecodeError")

abbrev empty : Workspace
empty = record { tables = []; durable = []; is_open = false; writes = 0 }

abbrev clicks : Workspace
clicks = record {
  tables = ("clicks", mapping_rows (("\"k\"", "true") ∷ [])) ∷ [];
  durable = ("clicks", mapping_rows []) ∷ [];
  is_open = true;
  writes = 1;
}

abbrev operations : List Operation
operations =
    has (str "k")
    ∷ set_or (str "k") (bool true)
    ∷ get_at (bool true)
    ∷ set (bool true) (str "k")
    ∷ all_items
    ∷ sorted_values
    ∷ count
    ∷ []

clicks_made : mapping "clicks" ((str "k", bool true) ∷ []) empty ≡ ok clicks
unfolding mapping String_discrete ℕ_discrete canonical
clicks_made = refl

disk_refines_dict_example :
    run (disk_step loads "clicks") operations clicks
    ≡ run (dict_step loads) operations (insert_all ((str "k", bool true) ∷ []) [])
unfolding String_discrete canonical ℕ_discrete
disk_refines_dict_example =
    disk_refines_dict loads "clicks" ((str "k", bool true) ∷ []) operations empty clicks
      ((refl, refl), tt) (refl, ((refl, refl), (refl, ((refl, refl), (tt, (tt, (tt, tt)))))))
      clicks_made

abbrev rows : Workspace
rows = record {
  tables = ("rows", sequence_rows []) ∷ [];
  durable = ("rows", sequence_rows []) ∷ [];
  is_open = false;
  writes = 0;
}

abbrev filled : Workspace
filled = record {
  tables = ("rows", sequence_rows ("true" ∷ "\"k\"" ∷ [])) ∷ [];
  durable = ("rows", sequence_rows []) ∷ [];
  is_open = true;
  writes = 2;
}

rows_made : sequence "rows" empty ≡ ok rows
unfolding sequence String_discrete ℕ_discrete
rows_made = refl

rows_filled : append_all "rows" (bool true ∷ str "k" ∷ []) rows ≡ ok filled
unfolding append_all append String_discrete ℕ_discrete canonical
rows_filled = refl

sequence_lem_example :
    (each loads "rows" filled ≡ ok (bool true ∷ str "k" ∷ [])) × (Disk.count "rows" filled ≡ ok 2)
unfolding String_discrete canonical ℕ_discrete
sequence_lem_example =
    sequence_lem loads "rows" (bool true ∷ str "k" ∷ []) empty rows filled (refl, (refl, tt))
      rows_made rows_filled
