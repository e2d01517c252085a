-- ===== src/Archive/Verified.antt =====
-- adpulse/archive.py, `LocalObjects.keys` and `verified_records`. An object is the text of its file;
-- a row of the archive has the four fields that `archive_batch` writes, and two rows are the same if
-- their places are and their values have the same canonical text. `loads` is `json.loads` on a text.
pub mod Covers
use Prim.Native.Char.{Char, code}
use ad_pulse.Prelude.{
  ℕ, ◌+◌, String, Bool, true, false, ◌&&◌, ◌||◌, not, List, [], ◌∷◌, Option, none, some,
  if◌then◌else◌, ◌==◌, string_eq, nat_eq, pair_eq, ltb, length, Result, ok, raise, ◌>>=◌, ◌>>◌,
  raise_if, value_error, is_some,
}
use ad_pulse.Prelude.Dict.{Dict, lookup, insert, keys, values}
use ad_pulse.Prelude.Sort.{sort_by, text_le}
use ad_pulse.Json.{Value, str, num, Items, Fields, canonical, digest, value_eq}
use ad_pulse.Storage.Payload.{text_at, value_at}
use ad_pulse.Archive.Reconcile.{Archived, object, items, objects}
use ad_pulse.Archive.Objects.{Objects, get}
use ad_pulse.Archive.Refresh.{Identity, strip_prefix, read_row, is_at}
use ad_pulse.Archive.Readers.{decode_rows}

-- The first line gets the character.
unfoldable pub put_first_char : Char → List String → List String
put_first_char c [] = String.◌∷◌ c "" ∷ []
put_first_char c (line ∷ l) = String.◌∷◌ c line ∷ l

-- `body.splitlines()`; `after_return` says that the character before was a carriage return.
unfoldable pub lines_from : Bool → String → List String
unfolding put_first_char
lines_from after_return String.[] = []
lines_from after_return (String.◌∷◌ c s) =
    let rest = lines_from (code c == 13) s in
    if after_return && code c == 10
    then rest
    else if code c == 10 || code c == 13
    then "" ∷ rest
    else put_first_char c rest

unfoldable pub with_prefix : String → List String → List String
unfolding strip_prefix
with_prefix prefix [] = []
with_prefix prefix (key ∷ l) =
    let rest = with_prefix prefix l in
    if is_some (strip_prefix prefix key) then key ∷ rest else rest

-- `LocalObjects.keys`
unfoldable pub keys_of : String → Objects → List String
unfolding with_prefix sort_by
keys_of prefix d = sort_by (λ (k : String). k) (with_prefix prefix (keys d))

abbrev pub identity_of : Archived → Identity
identity_of row = (row.topic, (row.partition, row.offset))

abbrev pub Unique : Type 0
Unique = Dict Identity Archived

-- `unique[identity] != row`
abbrev pub clashes : Option Archived → Archived → Bool
clashes none row = false
clashes (some old) row = not (
    old.topic == row.topic
    && (old.partition == row.partition
        && (old.offset == row.offset && canonical old.value == canonical row.value)))

-- `sorted(unique)`, and the rows
abbrev pub identity_le : Identity → Identity → Bool
identity_le (topic, (part, off)) (topic', (part', off')) =
    if topic == topic'
    then (if part == part' then not (ltb off' off) else ltb part part')
    else text_le topic topic'

unfoldable pub place_entry : Identity × Archived → Unique → Unique
place_entry e [] = e ∷ []
place_entry e (f ∷ l) = if identity_le e.0 f.0 then e ∷ f ∷ l else f ∷ place_entry e l

unfoldable pub sort_entries : Unique → Unique
unfolding place_entry
sort_entries [] = []
sort_entries (e ∷ l) = place_entry e (sort_entries l)

module _ (sha256 : String → String) (loads : String → Result Value) where
  -- `digest(row["value"]) == ref["sha256"]`
  unfoldable pub matches : Archived → Fields → Result Bool
  unfolding value_at
  matches row ref = do hash ← value_at "sha256" ref; ok (str (digest sha256 row.value) == hash)

  -- The body of the loop over the rows and their references.
  unfoldable pub add_record : Value → Fields → Unique → Result Unique
  unfolding read_row is_at matches lookup insert
  add_record parsed ref unique = do
    row ← read_row parsed
    placed ← is_at row ref
    raise_if (not placed) (value_error "Archive offset/content mismatch")
    hashed ← matches row ref
    raise_if (not hashed) (value_error "Archive offset/content mismatch")
    raise_if (clashes (lookup (identity_of row) unique) row)
        (value_error "Conflicting archived offset")
    ok (insert (identity_of row) row unique)

  -- `zip(rows, manifest["records"], strict=True)`
  unfoldable pub add_records : List Value → List Fields → Unique → Result Unique
  unfolding add_record
  add_records [] [] unique = ok unique
  add_records (parsed ∷ l) (ref ∷ refs) unique = do
    unique' ← add_record parsed ref unique
    add_records l refs unique'
  add_records [] (ref ∷ refs) unique = raise (value_error "zip")
  add_records (parsed ∷ l) [] unique = raise (value_error "zip")

  -- The references of a manifest that was parsed.
  unfoldable pub refs_of : Fields → Result (List Fields)
  unfolding value_at items objects
  refs_of manifest = do
    records ← value_at "records" manifest
    record_items ← items records
    objects record_items

  unfoldable pub read_manifest : String → Objects → Result Fields
  unfolding get object
  read_manifest key d = do text ← get key d; parsed ← loads text; object parsed

  -- The body of the loop over the manifests.
  unfoldable pub add_manifest : String → Objects → Unique → Result Unique
  unfolding read_manifest refs_of get lines_from decode_rows value_at text_at add_records
  add_manifest key d unique = do
    manifest ← read_manifest key d
    data_key ← text_at "data_key" manifest
    body ← get data_key d
    expected ← value_at "sha256" manifest
    raise_if (not (str (sha256 body) == expected)) (value_error "Archive checksum mismatch")
    rows ← decode_rows loads (lines_from false body)
    record_count ← value_at "record_count" manifest
    refs ← refs_of manifest
    raise_if (not (num (length rows) == record_count) || not (length rows == length refs))
        (value_error "Archive count mismatch")
    add_records rows refs unique

  unfoldable pub add_manifests : List String → Objects → Unique → Result Unique
  unfolding add_manifest
  add_manifests [] d unique = ok unique
  add_manifests (key ∷ l) d unique = do
    unique' ← add_manifest key d unique
    add_manifests l d unique'

  unfoldable pub verified_records : Objects → Result (List Archived)
  unfolding keys_of add_manifests sort_entries
  verified_records d = do
    unique ← add_manifests (keys_of "manifests/" d) d []
    ok (values (sort_entries unique))
