-- ===== src/Tests/Refresh.antt =====
-- The theorems on the refresh of the archive index and on what is read of it, at concrete inputs.
use ad_pulse.Prelude.{
  String, ◌≡◌, refl, true, false, ◌&&◌, not, List, [], ◌∷◌, map, none, some, if◌then◌else◌, ◌==◌,
  string_eq, nat_eq, pair_eq, String_discrete, ℕ_discrete, option_dec, ap, leb, length, Result, ok,
  raise, value_error,
}
use ad_pulse.Prelude.Dict.{Dict, lookup, contains, values}
use ad_pulse.Prelude.Distinct.{member}
use ad_pulse.Prelude.Sort.{sort_by}
use ad_pulse.Json.{
  Value, num, str, obj, arr, nil, cons, end, field, canonical, digest, Value_discrete,
}
use ad_pulse.Archive.Chunks.{Bytes}
use ad_pulse.Archive.Index.{is_raw_for}
use ad_pulse.Archive.Refresh.{Entry, Index, Report, refresh, iter_keys}
use ad_pulse.Archive.Refresh.Atomic.{IsAtomic, Extends, refresh-IsAtomic}
use ad_pulse.Archive.Refresh.Stored.{IsVerified}
use ad_pulse.Archive.Refresh.Verified.{refresh-IsVerified}
use ad_pulse.Archive.Readers.{where_rows, payloads_for, decode_rows, trace, quality}
use ad_pulse.Archive.Readers.Budget.{trace_lem}

abbrev hex : String
hex = "0123456789abcdef0123456789abcdef0123456789abcdef0123456789abcdef"

abbrev data_name : String
data_name = "data/0123456789abcdef0123456789abcdef0123456789abcdef0123456789abcdef.jsonl"

-- The hashes of this archive.
abbrev text_hash : String → String
text_hash s = "h"

abbrev bytes_hash : Bytes → String
bytes_hash b = hex

abbrev packet : Value
packet = obj (field "receipt_id" (str "r") (field "index" (num 4) end))

abbrev manifest : Value
manifest = obj (
    field "format_version" (num 1) (
      field "data_key" (str data_name) (
        field "sha256" (str hex) (
          field "record_count" (num 1) (
            field "records"
              (arr (
                cons
                  (obj (
                    field "topic" (str "a.raw") (
                      field "partition" (num 0)
                        (field "offset" (num 9) (field "sha256" (str "h") end)))))
                  nil))
              end)))))

abbrev row : Value
row = obj (
    field "topic" (str "a.raw")
      (field "partition" (num 0) (field "offset" (num 9) (field "value" packet end))))

-- `json.loads` on the bytes of the manifest, which start with 1, and of the row
abbrev loads : Bytes → Result Value
loads [] = raise (value_error "JSONDecodeError")
loads (n ∷ b) = if n == 1 then ok manifest else ok row

abbrev store : Dict String (List Bytes)
store = ("manifests/m.json", (1 ∷ []) ∷ []) ∷ (data_name, (2 ∷ 3 ∷ []) ∷ (4 ∷ 10 ∷ []) ∷ []) ∷ []

abbrev no_index : Index
no_index = record { manifests = []; records = []; ack_refs = [] }

abbrev entry : Entry
entry = record {
  row = record {
    ref = record { topic = "a.raw"; part = 0; off = 9; hash = "h" };
    receipt = some "r";
    is_raw = true;
  };
  row_json = canonical row;
  received_at = none;
  batch = "";
  batch_index = 4;
  is_receipt = false;
  manifest = "manifests/m.json";
  ordinal = 0;
}

abbrev indexed : Index
indexed = record {
  manifests = ("manifests/m.json", hex) ∷ [];
  records = (("a.raw", (0, 9)), entry) ∷ [];
  ack_refs = [];
}

refresh_run : refresh text_hash bytes_hash loads false store no_index ≡ (
  ok (record { listed_manifests = 1; verified_manifests = 1; verified_rows = 1; audit = false }),
  indexed,
)
unfolding refresh String_discrete ℕ_discrete Value_discrete option_dec digest
refresh_run = refl

abbrev left : Index
left = (refresh text_hash bytes_hash loads false store no_index).1

refresh-IsAtomic_example : IsAtomic left × Extends no_index left
unfolding lookup
refresh-IsAtomic_example =
    refresh-IsAtomic text_hash bytes_hash loads false store no_index (λ id e h. absurd (cc))

refresh-IsVerified_example :
    ((key : String) → contains key left.manifests ≡ member key (iter_keys "manifests/" store))
    × ((key : String)
        → member key (iter_keys "manifests/" store) ≡ true
        → (contains key no_index.manifests && not false) ≡ false
        → IsVerified text_hash bytes_hash loads store key left)
refresh-IsVerified_example =
    refresh-IsVerified text_hash bytes_hash loads false store no_index
      (ap (λ (p : Result Report × Index). p.0) refresh_run)

-- `json.loads` on the texts of this index
abbrev text_loads : String → Result Value
text_loads t = ok (str t)

trace_lem_example :
    let rows = where_rows (λ e. is_raw_for "r" e.row) (values indexed.records) in
    let payloads =
      sort_by (λ (p : String × String). p.0) (payloads_for "r" ((("r", "h"), "{}") ∷ [])) in
    (trace text_loads "r" 10 indexed ≡ (
      if leb (length rows) 10
      then decode_rows text_loads (map (λ (e : Entry). e.row_json) rows)
      else raise (value_error "Trace exceeds source identity budget")))
    × (quality text_loads "r" 100 ((("r", "h"), "{}") ∷ []) ≡ (
        if leb (length payloads) 100
        then decode_rows text_loads (map (λ (p : String × String). p.1) payloads)
        else raise (value_error "Trace exceeds quality record budget")))
trace_lem_example = trace_lem text_loads "r" 10 100 indexed ((("r", "h"), "{}") ∷ [])
