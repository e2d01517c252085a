-- ===== src/Storage/Local.antt =====
-- adpulse/storage.py, `LocalSnapshotStore`: the durable harness, with its two tables by their
-- primary keys. `with self.db` rolls back on an exception.
pub mod Latest
use Prim.Native.String.{◌++◌ as str_append}
use ad_pulse.Prelude.{
  ℕ, String, Bool, true, false, ◌&&◌, not, List, [], ◌∷◌, Option, none, some, if◌then◌else◌, ◌==◌,
  string_eq, nat_eq, pair_eq, ltb, Result, ok, raise, ◌>>=◌, ◌>>◌, raise_if, value_error,
}
use ad_pulse.Prelude.Dict.{Dict, lookup, insert, contains}
use ad_pulse.Json.{Value, obj, Fields, has_field, get_field, canonical, digest}
use ad_pulse.Storage.Payload.{text_at, text_or}

-- topic, partition and offset
abbrev pub Identity : Type 0
Identity = String × (ℕ × ℕ)

-- release and key
abbrev pub RowKey : Type 0
RowKey = String × String

pub record Row : Type 0 where
  pub topic : String
  pub partition_id : ℕ
  pub offset_id : ℕ
  pub payload : String

pub record Store : Type 0 where
  pub deliveries : Dict Identity String
  pub snapshots : Dict RowKey Row

abbrev pub empty_store : Store
empty_store = record { deliveries = []; snapshots = [] }

-- The default of `payload.get("output_key", ...)` is computed whether or not it is needed.
unfoldable pub default_key : Fields → Result String
unfolding text_at get_field
default_key payload =
    if has_field "metric_key" payload
    then (do k ← text_at "metric_key" payload; ok (str_append "m:" k))
    else (do k ← text_at "association_key" payload; ok (str_append "a:" k))

unfoldable pub output_key : Fields → Result String
unfolding default_key text_or
output_key payload = do k ← default_key payload; text_or "output_key" k payload

-- `existing and existing[0] != digest(payload)`
abbrev pub conflicts : Option String → String → Bool
conflicts none h = false
conflicts (some old) h = not (old == h)

-- `route and route[:2] != (topic, partition)`
abbrev pub has_moved : Option Row → String → ℕ → Bool
has_moved none topic partition = false
has_moved (some r) topic partition = not (r.topic == topic && r.partition_id == partition)

-- `not route or offset > route[2]`
abbrev pub is_newer : Option Row → ℕ → Bool
is_newer none offset = true
is_newer (some r) offset = ltb r.offset_id offset

abbrev pub insert_or_ignore : Identity → String → Dict Identity String → Dict Identity String
insert_or_ignore k h d = if contains k d then d else insert k h d

unfoldable pub row_key : Fields → Result RowKey
unfolding text_at output_key
row_key payload = do
  release ← text_at "release_id" payload
  key ← output_key payload
  ok (release, key)

-- The arguments of one call of `insert`.
pub record Delivery : Type 0 where
  pub topic : String
  pub partition : ℕ
  pub offset : ℕ
  pub payload : Fields

abbrev pub row_of : Delivery → Row
row_of d = record {
  topic = d.topic;
  partition_id = d.partition;
  offset_id = d.offset;
  payload = canonical (obj d.payload);
}

module _ (sha256 : String → String) where
  -- The transaction of `insert`, once the release and the key are known.
  unfoldable pub insert_row : RowKey → String → ℕ → ℕ → Fields → Store → Result Store
  insert_row key topic partition offset payload db = do
    let identity : Identity = (topic, (partition, offset))
    let h : String = digest sha256 (obj payload)
    raise_if (conflicts (lookup identity db.deliveries) h)
        (value_error "Same Kafka offset has conflicting content")
    let route : Option Row = lookup key db.snapshots
    raise_if (has_moved route topic partition)
        (value_error "Key moved across topics/partitions; use a new release")
    let row : Row = record {
      topic = topic;
      partition_id = partition;
      offset_id = offset;
      payload = canonical (obj payload);
    }
    ok (record {
      deliveries = insert_or_ignore identity h db.deliveries;
      snapshots = if is_newer route offset then insert key row db.snapshots else db.snapshots;
    })

  -- `insert`
  unfoldable pub insert_payload : String → ℕ → ℕ → Fields → Store → Result Store
  unfolding insert_row row_key
  insert_payload topic partition offset payload db = do
    key ← row_key payload
    insert_row key topic partition offset payload db

  -- A sequence of calls, which stops at the first exception.
  unfoldable pub insert_deliveries : List Delivery → Store → Result Store
  unfolding insert_payload
  insert_deliveries [] db = ok db
  insert_deliveries (d ∷ l) db = do
    db' ← insert_payload d.topic d.partition d.offset d.payload db
    insert_deliveries l db'
