-- ===== src/Storage/Sink.antt =====
-- adpulse/storage.py, `ClickHouse.write_batch` and `ClickHouse.insert`. A message's value is its
-- parsed object. The tables are those of deployment/clickhouse: `deliveries` by its sorting key,
-- the others as the rows inserted so far. An insert either takes effect or raises, so a crash
-- leaves the effect of the first inserts of the plan.
pub mod Safety
pub mod Shown
use Prim.Native.String.{◌++◌ as str_append}
use ad_pulse.Prelude.{
  ℕ, zero, suc, String, Bool, true, false, ◌&&◌, ◌||◌, not, List, [], ◌∷◌, ◌++◌, Option, none, some,
  if◌then◌else◌, ◌==◌, string_eq, nat_eq, pair_eq, Result, ok, raise, ◌>>=◌, ◌>>◌, raise_if,
  or_raise, value_error, key_error, type_error,
}
use ad_pulse.Prelude.Dict.{Dict, lookup, insert, insert_all}
use ad_pulse.Json.{
  Value, str, num, arr, obj, Items, nil, cons, Fields, get_field, canonical, digest,
}
use ad_pulse.Releases.{topic_of}
use ad_pulse.Storage.Payload.{text_at, value_at, value_or}
use ad_pulse.Storage.Local.{Identity, RowKey}

pub record Message : Type 0 where
  pub topic : String
  pub partition : ℕ
  pub offset : ℕ
  pub payload : Fields

abbrev pub identity_of : Message → Identity
identity_of m = (m.topic, (m.partition, m.offset))

abbrev pub Route : Type 0
Route = String × ℕ

pub record ResultRow : Type 0 where
  pub release_id : String
  pub output_key : String
  pub record_type : String
  pub output_topic : String
  pub output_partition : ℕ
  pub output_offset : ℕ
  pub payload : String
  pub hash : String
  pub received_at : Value

pub record VisibilityRow : Type 0 where
  pub release_id : String
  pub receipt_id : Value
  pub received_at : Value
  pub event_time : Value
  pub output_topic : String
  pub output_partition : ℕ
  pub output_offset : ℕ

pub record QualityEntry : Type 0 where
  pub output_topic : String
  pub output_partition : ℕ
  pub output_offset : ℕ
  pub receipt_id : Value
  pub disposition : Value
  pub error_code : Value
  pub rule_version : Value
  pub payload : String

pub record ReceiptEntry : Type 0 where
  pub batch_id : Value
  pub received_at : Value
  pub receipt_ids : Value
  pub payload : String

pub record Tables : Type 0 where
  pub deliveries : Dict Identity String
  pub results : List ResultRow
  pub quality : List QualityEntry
  pub receipts : List ReceiptEntry
  pub visibility : List VisibilityRow

-- What the loop over the messages has collected.
pub record Batch : Type 0 where
  pub results : List ResultRow
  pub quality : List QualityEntry
  pub receipts : List ReceiptEntry
  pub visibility : List VisibilityRow
  pub deliveries : List (Identity × String)
  pub batch_offsets : Dict Identity String
  pub routes : Dict RowKey Route

abbrev pub empty_batch : Batch
empty_batch = record {
  results = [];
  quality = [];
  receipts = [];
  visibility = [];
  deliveries = [];
  batch_offsets = [];
  routes = [];
}

-- The route of a key that the results table has.
unfoldable pub route_at : RowKey → List ResultRow → Option Route
route_at key [] = none
route_at key (r ∷ l) =
    if key == (r.release_id, r.output_key)
    then some (r.output_topic, r.output_partition)
    else route_at key l

-- `k in d and d[k] != v`
abbrev pub differs : Option String → String → Bool
differs none h = false
differs (some old) h = not (old == h)

abbrev pub differs_route : Option Route → Route → Bool
differs_route none r = false
differs_route (some old) r = not (old == r)

-- The loop over `payload.get("receipt_updates", [])`.
unfoldable pub visibility_rows : Message → String → Items → Result (List VisibilityRow)
unfolding value_at
visibility_rows m release nil = ok []
visibility_rows m release (cons (obj receipt) l) = do
  receipt_id ← value_at "receipt_id" receipt
  received_at ← value_at "received_at" receipt
  event_time ← value_at "event_time" receipt
  rest ← visibility_rows m release l
  ok (
      record {
        release_id = release;
        receipt_id = receipt_id;
        received_at = received_at;
        event_time = event_time;
        output_topic = m.topic;
        output_partition = m.partition;
        output_offset = m.offset;
      }
      ∷ rest)
visibility_rows m release (cons _ l) = raise (type_error "receipt")

updates_of : Value → Result Items
updates_of (arr l) = ok l
updates_of _ = raise (type_error "receipt_updates")

module _ (sha256 : String → String) (prefix : String) (tables : Tables) where
  abbrev pub hash_of : Message → String
  hash_of m = digest sha256 (obj m.payload)

  -- `kind in {"metric", "association"}`
  unfoldable pub collect_result : String → Message → Batch → Result Batch
  unfolding text_at topic_of route_at value_or visibility_rows updates_of
  collect_result kind m b = do
    release ← text_at "release_id" m.payload
    key ← text_at "output_key" m.payload
    raise_if (not (m.topic == topic_of prefix release))
        (value_error "Result release/topic mismatch")
    raise_if (differs_route (lookup (release, key) b.routes) (m.topic, m.partition))
        (value_error "Key changed partition within batch")
    raise_if (differs_route (route_at (release, key) tables.results) (m.topic, m.partition))
        (value_error "Key changed partition; create new release")
    updates ← updates_of (value_or "receipt_updates" (arr nil) m.payload)
    seen ← visibility_rows m release updates
    ok (record b {
      routes = insert (release, key) (m.topic, m.partition) b.routes;
      results =
          b.results
          ++ record {
            release_id = release;
            output_key = key;
            record_type = kind;
            output_topic = m.topic;
            output_partition = m.partition;
            output_offset = m.offset;
            payload = canonical (obj m.payload);
            hash = hash_of m;
            received_at = value_or "received_at" (num 0) m.payload;
          }
            ∷ [];
      visibility = b.visibility ++ seen;
    })

  unfoldable pub collect_quality : Message → Batch → Result Batch
  unfolding value_at value_or
  collect_quality m b = do
    disposition ← value_at "disposition" m.payload
    error_code ← value_at "error_code" m.payload
    rule_version ← value_at "rule_version" m.payload
    ok (record b {
      quality =
          b.quality
          ++ record {
            output_topic = m.topic;
            output_partition = m.partition;
            output_offset = m.offset;
            receipt_id = value_or "receipt_id" (str "") m.payload;
            disposition = disposition;
            error_code = error_code;
            rule_version = rule_version;
            payload = canonical (obj m.payload);
          }
            ∷ [];
    })

  unfoldable pub collect_receipt : Message → Batch → Result Batch
  unfolding value_at
  collect_receipt m b = do
    batch_id ← value_at "batch_id" m.payload
    received_at ← value_at "received_at" m.payload
    receipt_ids ← value_at "receipt_ids" m.payload
    ok (record b {
      receipts =
          b.receipts
          ++ record {
            batch_id = batch_id;
            received_at = received_at;
            receipt_ids = receipt_ids;
            payload = canonical (obj m.payload);
          }
            ∷ [];
    })

  -- The `if` chain on `payload.get("record_type")`.
  unfoldable pub collect : Message → Batch → Result Batch
  unfolding collect_result collect_quality collect_receipt get_field
  collect m b = elim (get_field "record_type" m.payload) [
    | some v ↦ elim v [
      | str kind ↦
          if kind == "metric" || kind == "association"
          then collect_result kind m b
          else if kind == "quality"
          then collect_quality m b
          else if kind == "receipt"
          then collect_receipt m b
          else raise (value_error "Unrecognized sink record")
      | _ ↦ raise (value_error "Unrecognized sink record")
    ]
    | none ↦ raise (value_error "Unrecognized sink record")
  ]

  -- The line at the end of the loop's body.
  abbrev pub deliver : Message → Batch → Batch
  deliver m b = record b { deliveries = b.deliveries ++ (identity_of m, hash_of m) ∷ [] }

  -- The body of the loop.
  unfoldable pub batch_step : Message → Batch → Result Batch
  unfolding collect
  batch_step m b = do
    raise_if (differs (lookup (identity_of m) b.batch_offsets) (hash_of m))
        (value_error "Conflicting content in batch")
    raise_if (differs (lookup (identity_of m) tables.deliveries) (hash_of m))
        (value_error "Same Kafka offset has conflicting content")
    b' ← collect m (record b { batch_offsets = insert (identity_of m) (hash_of m) b.batch_offsets })
    ok (deliver m b')

  unfoldable pub batch_from : List Message → Batch → Result Batch
  unfolding batch_step
  batch_from [] b = ok b
  batch_from (m ∷ l) b = do b' ← batch_step m b; batch_from l b'

-- One `INSERT`.
pub data Write : Type 0 where
  deliveries : List (Identity × String) → Write
  results : List ResultRow → Write
  quality : List QualityEntry → Write
  receipts : List ReceiptEntry → Write
  visibility : List VisibilityRow → Write

unfoldable pub apply_write : Write → Tables → Tables
apply_write (deliveries l) t = record t { deliveries = insert_all l t.deliveries }
apply_write (results l) t = record t { results = t.results ++ l }
apply_write (quality l) t = record t { quality = t.quality ++ l }
apply_write (receipts l) t = record t { receipts = t.receipts ++ l }
apply_write (visibility l) t = record t { visibility = t.visibility ++ l }

-- The inserts of a batch, in their order; one of no rows does nothing.
unfoldable pub writes_of : Batch → List Write
writes_of b =
    deliveries b.deliveries
    ∷ results b.results
    ∷ quality b.quality
    ∷ receipts b.receipts
    ∷ visibility b.visibility
    ∷ []

-- The tables after the first `n` inserts.
unfoldable pub after : ℕ → List Write → Tables → Tables
unfolding apply_write
after zero l t = t
after (suc n) [] t = t
after (suc n) (w ∷ l) t = after n l (apply_write w t)

-- The plan of `write_batch` on the tables that its two lookups read.
unfoldable pub write_batch :
    (String → String) → String → Tables → List Message → Result (List Write)
unfolding batch_from writes_of
write_batch sha256 prefix tables messages = do
  b ← batch_from sha256 prefix tables messages empty_batch
  ok (writes_of b)
