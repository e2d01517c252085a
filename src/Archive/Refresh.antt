-- ===== src/Archive/Refresh.antt =====
-- adpulse/archive_index.py, `ArchiveIndex.refresh`. An object is the list of the blocks that its
-- reads answer. `sha256` is the hash of a text and `sha256_bytes` that of bytes; `loads` is
-- `json.loads` on bytes. The times of the checks are left out.
pub mod Grows
pub mod Accepted
pub mod Atomic
pub mod Stored
pub mod Verified
use Prim.Native.Char.{code}
use ad_pulse.Prelude.{
  ℕ, zero, suc, ◌+◌, String, Bool, true, false, ◌&&◌, ◌||◌, not, List, [], ◌∷◌, ◌++◌, Option, none,
  some, if◌then◌else◌, ◌==◌, string_eq, nat_eq, option_eq, pair_eq, ℕ_discrete, ltb, leb, length,
  Result, ok, raise, ◌>>=◌, ◌>>◌, raise_if, or_raise, value_error, key_error, type_error,
  database_error, is_some,
}
use ad_pulse.Prelude.Dict.{Dict, lookup, insert, contains, keys}
use ad_pulse.Prelude.Distinct.{member}
use ad_pulse.Json.{Value, str, num, Fields, get_field, canonical, digest, value_eq}
use ad_pulse.Names.{codes}
use ad_pulse.Storage.Payload.{text_at, number_at, value_at, text_or}
use ad_pulse.Archive.Chunks.{Bytes, Yielded, chunks}
use ad_pulse.Archive.Reconcile.{Archived, object, items, objects, ends_with}
use ad_pulse.Archive.Index.{AckRef, IndexRow, acknowledgements, insert_or_ignore}

abbrev pub max_manifest : ℕ
max_manifest = 8388608

abbrev pub max_line : ℕ
max_line = 2097152

abbrev pub max_object : ℕ
max_object = 67108864

-- topic, partition and offset
abbrev pub Identity : Type 0
Identity = String × (ℕ × ℕ)

-- A row of `records`; its `row_json` is the text of the archived row.
pub record Entry : Type 0 where
  pub row : IndexRow
  pub row_json : String
  pub received_at : Option ℕ
  pub batch : String
  pub batch_index : ℕ
  pub is_receipt : Bool
  pub manifest : String
  pub ordinal : ℕ

-- The tables of the index that `refresh` writes.
pub record Index : Type 0 where
  pub manifests : Dict String String
  pub records : Dict Identity Entry
  pub ack_refs : Dict String AckRef

unfoldable pub is_hex : ℕ → Bool
unfolding ℕ_discrete
is_hex n = (leb b'0' n && leb n b'9') || (leb b'a' n && leb n b'f')

-- As many characters of `[0-9a-f]` as `more`, and then `\.jsonl`.
unfoldable pub hex_then : ℕ → String → Bool
unfolding is_hex
hex_then zero s = s == ".jsonl"
hex_then (suc more) String.[] = false
hex_then (suc more) (String.◌∷◌ c s) = is_hex (code c) && hex_then more s

-- What follows `prefix` in a text.
unfoldable pub strip_prefix : String → String → Option String
unfolding ℕ_discrete
strip_prefix String.[] s = some s
strip_prefix (String.◌∷◌ c p) String.[] = none
strip_prefix (String.◌∷◌ c p) (String.◌∷◌ d s) =
    let rest = strip_prefix p s in if code c == code d then rest else none

-- `re.fullmatch(r"data/[0-9a-f]{64}\.jsonl", key)`
unfoldable pub hex_name : Option String → Bool
unfolding hex_then
hex_name none = false
hex_name (some name) = hex_then 64 name

unfoldable pub valid_data_key : String → Bool
unfolding hex_name strip_prefix
valid_data_key key = hex_name (strip_prefix "data/" key)

-- The bytes of all blocks.
unfoldable pub join : List Bytes → Bytes
join [] = []
join (b ∷ l) = b ++ join l

-- `packet.get(k)` of a raw packet where a text or a number is wanted, and what SQLite stores
unfoldable pub optional_text : String → Option Value → Result (Option String)
optional_text k none = ok none
optional_text k (some (str s)) = ok (some s)
optional_text k (some _) = raise (type_error k)

unfoldable pub optional_number : String → Option Value → Result (Option ℕ)
optional_number k none = ok none
optional_number k (some (num n)) = ok (some n)
optional_number k (some _) = raise (type_error k)

unfoldable pub text_in : String → Fields → Result (Option String)
unfolding get_field optional_text
text_in k fs = optional_text k (get_field k fs)

unfoldable pub number_in : String → Fields → Result (Option ℕ)
unfolding get_field optional_number
number_in k fs = optional_number k (get_field k fs)

abbrev pub or_else : Option ℕ → ℕ → ℕ
or_else (some n) default = n
or_else none default = default

-- The columns of a row of `records` that come from its packet; `{}` if the row is not raw.
unfoldable pub columns : Bool → Value → Result Fields
unfolding object
columns true v = object v
columns false v = ok Fields.end

-- `INSERT OR IGNORE INTO records`
unfoldable pub insert_entry : Identity → Entry → Dict Identity Entry → Dict Identity Entry
unfolding insert lookup
insert_entry id e records = if contains id records then records else insert id e records

-- `if kind == "receipt": self._acknowledgements(value)`
unfoldable pub acknowledge_if : Bool → Value → Dict String AckRef → Result (Dict String AckRef)
unfolding object acknowledgements
acknowledge_if false value refs = ok refs
acknowledge_if true value refs = do manifest ← object value; acknowledgements manifest refs

-- `old and old[0] != ...`
abbrev pub has_changed : Option String → String → Bool
has_changed none hash = false
has_changed (some old) hash = not (old == hash)

-- `existing and existing[0] != serialized`
unfoldable pub conflicts : Option Entry → String → Bool
conflicts none serialized = false
conflicts (some e) serialized = not (e.row_json == serialized)

-- What the loop over the manifests has: the keys that it has seen, its counts and the index.
pub record Progress : Type 0 where
  pub scanned : List String
  pub verified : ℕ
  pub rows : ℕ
  pub index : Index

pub record Report : Type 0 where
  pub listed_manifests : ℕ
  pub verified_manifests : ℕ
  pub verified_rows : ℕ
  pub audit : Bool

-- `objects.iter_keys(prefix)` of `LocalObjects`
unfoldable pub iter_keys : String → Dict String (List Bytes) → List String
unfolding strip_prefix
iter_keys prefix [] = []
iter_keys prefix ((key, _) ∷ l) =
    let rest = iter_keys prefix l in if is_some (strip_prefix prefix key) then key ∷ rest else rest

-- A manifest of the index that the loop has not seen.
unfoldable pub has_lost : List String → List String → Bool
unfolding member
has_lost [] scanned = false
has_lost (key ∷ l) scanned = not (member key scanned) || has_lost l scanned

-- `row["value"]` and the fields of its identity
unfoldable pub read_row : Value → Result Archived
unfolding object value_at text_at number_at
read_row parsed = do
  row ← object parsed
  topic ← text_at "topic" row
  part ← number_at "partition" row
  off ← number_at "offset" row
  value ← value_at "value" row
  ok (record { topic = topic; partition = part; offset = off; value = value })

-- `identity == (ref["topic"], ref["partition"], ref["offset"])`
unfoldable pub is_at : Archived → Fields → Result Bool
unfolding value_at
is_at row ref = do
  topic ← value_at "topic" ref
  part ← value_at "partition" ref
  off ← value_at "offset" ref
  ok (str row.topic == topic && (num row.partition == part && num row.offset == off))

-- The counts of a manifest that was indexed.
unfoldable pub verify : Progress → Result (ℕ × Index) → Result Progress
verify p (raise e) = raise e
verify p (ok (count, index)) =
    ok (record p { verified = p.verified + 1; rows = p.rows + count; index = index })

-- An iteration and then the rest of the loop; beside the result is the index that is left.
unfoldable pub and_then :
    Result Progress → Progress → (Progress → Result Progress × Index) → Result Progress × Index
and_then (raise e) p k = (raise e, p.index)
and_then (ok p') p k = k p'

-- The check after the loop.
unfoldable pub conclude : Bool → Result Progress → Result Report
unfolding has_lost
conclude audit (raise e) = raise e
conclude audit (ok p) =
    raise_if (has_lost (keys p.index.manifests) p.scanned)
      (value_error "Previously indexed commit manifest is missing")
    >> ok (record {
      listed_manifests = length p.scanned;
      verified_manifests = p.verified;
      verified_rows = p.rows;
      audit = audit;
    })

abbrev pub start : Index → Progress
start index = record { scanned = []; verified = 0; rows = 0; index = index }

module _ (sha256 : String → String) (sha256_bytes : Bytes → String)
    (loads : Bytes → Result Value) where
  -- The end of the loop's body: the row is stored, and a receipt's references are too.
  unfoldable pub store_row :
      String → ℕ → String → ℕ → ℕ → String → Value → String → Index → Result Index
  unfolding columns text_in number_in text_or insert_entry acknowledge_if ends_with
  store_row key ordinal topic part off serialized value hash index = do
    let is_raw : Bool = ends_with ".raw" topic
    let is_receipt : Bool = not is_raw && ends_with ".receipts" topic
    packet ← columns is_raw value
    receipt ← text_in "receipt_id" packet
    received_at ← number_in "received_at" packet
    batch ← text_or "batch_id" "" packet
    batch_index ← number_in "index" packet
    let entry : Entry = record {
      row = record {
        ref = record { topic = topic; part = part; off = off; hash = hash };
        receipt = receipt;
        is_raw = is_raw;
      };
      row_json = serialized;
      received_at = received_at;
      batch = batch;
      batch_index = or_else batch_index ordinal;
      is_receipt = is_receipt;
      manifest = key;
      ordinal = ordinal;
    }
    let records : Dict Identity Entry = insert_entry (topic, (part, off)) entry index.records
    refs ← acknowledge_if is_receipt value index.ack_refs
    ok (record index { records = records; ack_refs = refs })

  -- `value_hash == ref["sha256"]`
  unfoldable pub has_hash : Archived → Fields → Result Bool
  unfolding value_at
  has_hash row ref = do hash ← value_at "sha256" ref; ok (str (digest sha256 row.value) == hash)

  -- The body of the loop over the lines, at a line with its reference.
  unfoldable pub index_line : String → ℕ → Bytes → Fields → Index → Result Index
  unfolding read_row is_at has_hash store_row conflicts lookup
  index_line key ordinal line ref index = do
    parsed ← loads line
    row ← read_row parsed
    placed ← is_at row ref
    raise_if (not placed) (value_error "Archive offset/content mismatch")
    hashed ← has_hash row ref
    raise_if (not hashed) (value_error "Archive offset/content mismatch")
    raise_if
        (conflicts (lookup (row.topic, (row.partition, row.offset)) index.records)
          (canonical parsed))
        (value_error "Conflicting archived offset")
    store_row key ordinal row.topic row.partition row.offset (canonical parsed) row.value
        (digest sha256 row.value) index

  -- The loop over the lines; `refs` are the references that are left, and the count is answered.
  unfoldable pub index_lines : String → ℕ → List Bytes → List Fields → Index → Result (ℕ × Index)
  unfolding index_line
  index_lines key ordinal [] refs index = ok (ordinal, index)
  index_lines key ordinal (line ∷ l) [] index = raise (value_error "Archive count mismatch")
  index_lines key ordinal (line ∷ l) (ref ∷ refs) index = do
    index' ← index_line key ordinal line ref index
    index_lines key (ordinal + 1) l refs index'

  -- The transaction of a manifest: what it commits, and the number of its rows.
  unfoldable pub index_object :
      String → Bytes → Fields → List Fields → List Bytes → Index → Result (ℕ × Index)
  unfolding index_lines text_at value_at join chunks insert
  index_object key raw_manifest manifest refs blocks index = do
    let stream : Yielded (Unit {0}) = chunks max_line max_object blocks
    (count, index') ← index_lines key 0 stream.pieces refs index
    ended ← stream.outcome
    record_count ← value_at "record_count" manifest
    expected ← value_at "sha256" manifest
    raise_if (not (num count == record_count) || not (str (sha256_bytes (join blocks)) == expected))
        (value_error "Archive checksum/count mismatch")
    ok (
      count,
      record index' { manifests = insert key (sha256_bytes raw_manifest) index'.manifests },
    )

  -- A manifest that is not skipped: its checks, and then the transaction.
  unfoldable pub index_manifest :
      Dict String (List Bytes) → String → Option String → Index → Result (ℕ × Index)
  unfolding lookup join object items objects value_at text_at get_field valid_data_key index_object
  index_manifest store key old index = do
    raw_blocks ← or_raise (lookup key store) (key_error key)
    let raw_manifest : Bytes = join raw_blocks
    raise_if (ltb max_manifest (length raw_manifest))
        (value_error "Archive manifest exceeds byte budget")
    raise_if (has_changed old (sha256_bytes raw_manifest))
        (value_error "Immutable manifest changed")
    parsed ← loads raw_manifest
    manifest ← object parsed
    data_key ← text_at "data_key" manifest
    raise_if (not (valid_data_key data_key)) (value_error "Invalid content-addressed data key")
    raise_if (not (get_field "format_version" manifest == some (num 1)))
        (value_error "Archive manifest count/version mismatch")
    records ← value_at "records" manifest
    record_items ← items records
    record_count ← value_at "record_count" manifest
    refs ← objects record_items
    raise_if (not (num (length refs) == record_count))
        (value_error "Archive manifest count/version mismatch")
    blocks ← or_raise (lookup data_key store) (key_error data_key)
    index_object key raw_manifest manifest refs blocks index

  -- The body of the loop over the manifests. Whatever it raises, the index is the one before.
  unfoldable pub refresh_key : Bool → Dict String (List Bytes) → String → Progress → Result Progress
  unfolding index_manifest verify member lookup
  refresh_key audit store key p = do
    raise_if (member key p.scanned) (database_error "UNIQUE constraint failed")
    let scanned : Progress = record p { scanned = key ∷ p.scanned }
    if contains key p.index.manifests && not audit
        then ok scanned
        else verify scanned (index_manifest store key (lookup key p.index.manifests) p.index)

  unfoldable pub refresh_from :
      Bool → Dict String (List Bytes) → List String → Progress → Result Progress × Index
  unfolding refresh_key and_then
  refresh_from audit store [] p = (ok p, p.index)
  refresh_from audit store (key ∷ l) p =
      and_then (refresh_key audit store key p) p (refresh_from audit store l)

  -- `refresh`: the report or an error, and the index that is left.
  unfoldable pub refresh : Bool → Dict String (List Bytes) → Index → Result Report × Index
  unfolding refresh_from conclude iter_keys
  refresh audit store index =
      let run = refresh_from audit store (iter_keys "manifests/" store) (start index) in
      (conclude audit run.0, run.1)
