-- ===== src/Tests/Storage.antt =====
-- adpulse/storage.py: two deliveries of a row and a later one of the same key; a batch of the
-- sink; and the keys of a lookup.
use ad_pulse.Prelude.{
  ℕ, suc, ◌≤◌, String, ◌≡◌, refl, false, List, [], ◌∷◌, some, Result, ok, raise, map, All, arith,
  string_eq, nat_eq, pair_eq, ℕ_discrete, String_discrete, pair_dec,
}
use ad_pulse.Prelude.Dict.{lookup, insert}
use ad_pulse.Prelude.Distinct.{member, IsDistinct}
use ad_pulse.Json.{
  Value, str, num, Fields, end, field, canonical, digest, value_eq, Value_discrete, get_field,
}
use ad_pulse.Releases.{topic_of}
use ad_pulse.Storage.Local.{
  Delivery, Store, RowKey, Row, empty_store, insert_payload, insert_deliveries,
}
use ad_pulse.Storage.Local.Latest.{deliveries_latest, insert_retry, IsShown, IsFrom}
use ad_pulse.Storage.Sink.{
  Message, Tables, Write, identity_of, hash_of, differs, after, write_batch,
}
use ad_pulse.Prelude.{length, true}
use ad_pulse.Json.{pop_field}
use ad_pulse.Names.{codes, valid_release}
use ad_pulse.Storage.Page.{passes, Entry, codes_below, select, public_rows, query_valid, walk}
use ad_pulse.Storage.Page.Traversal.{traversal_lem, IsAscending, AreKeys}
use ad_pulse.Storage.Sink.Safety.{write_batch_safety}
use Prim.Native.String.{len}
use mathlib.Core.List.{flatten}
use ad_pulse.Storage.Lookup.{lookup_parameters, unique_from, parameter}
use ad_pulse.Storage.Lookup.{lookup_parameters_lem}

abbrev hash : String → String
hash s = s

abbrev row : ℕ → Fields
row clicks = field "record_type" (str "metric") (
    field "release_id" (str "r1") (
      field "output_key" (str "m:k")
        (field "metric_key" (str "k") (field "clicks" (num clicks) end))))

abbrev at : ℕ → ℕ → Delivery
at offset clicks = record {
  topic = "adpulse.results.r1";
  partition = 0;
  offset = offset;
  payload = row clicks;
}

abbrev deliveries : List Delivery
deliveries = at 7 1 ∷ at 7 1 ∷ at 8 2 ∷ []

abbrev store_of : Result Store → Store
store_of (ok s) = s
store_of (raise e) = empty_store

unfoldable stored : Store
unfolding insert_deliveries
stored = store_of (insert_deliveries hash deliveries empty_store)

stored_run : insert_deliveries hash deliveries empty_store ≡ ok stored
unfolding stored insert_deliveries lookup insert digest canonical get_field String_discrete
    ℕ_discrete pair_dec
stored_run = refl

deliveries_latest_example :
    All (IsShown stored) deliveries
    × ((k : RowKey) (r : Row) → lookup k stored.snapshots ≡ some r → IsFrom deliveries k r)
deliveries_latest_example = deliveries_latest hash deliveries stored_run

unfoldable once : Store
unfolding insert_payload
once = store_of (insert_payload hash "adpulse.results.r1" 0 9 (row 3) stored)

once_run : insert_payload hash "adpulse.results.r1" 0 9 (row 3) stored ≡ ok once
unfolding once stored insert_payload insert_deliveries lookup insert digest canonical get_field
    String_discrete ℕ_discrete pair_dec
once_run = refl

retry_run : insert_payload hash "adpulse.results.r1" 0 9 (row 3) once ≡ ok once
retry_run = insert_retry hash "adpulse.results.r1" 0 9 (row 3) stored once_run

abbrev message : ℕ → ℕ → Message
message offset clicks = record {
  topic = "adpulse.results.r1";
  partition = 0;
  offset = offset;
  payload = row clicks;
}

abbrev messages : List Message
messages = message 7 1 ∷ message 8 2 ∷ message 7 1 ∷ []

abbrev no_tables : Tables
no_tables = record { deliveries = []; results = []; quality = []; receipts = []; visibility = [] }

abbrev writes_in : Result (List Write) → List Write
writes_in (ok w) = w
writes_in (raise e) = []

unfoldable writes : List Write
unfolding write_batch
writes = writes_in (write_batch hash "adpulse" no_tables messages)

writes_run : write_batch hash "adpulse" no_tables messages ≡ ok writes
unfolding writes write_batch lookup insert topic_of digest canonical get_field String_discrete
    ℕ_discrete pair_dec
writes_run = refl

write_batch_safety_example :
    All
      (λ m.
        differs (lookup (identity_of m) no_tables.deliveries) (hash_of hash "adpulse" no_tables m)
        ≡ false)
      messages
    × All
        (λ m.
          lookup (identity_of m) (after (suc 0) writes no_tables).deliveries
          ≡ some (hash_of hash "adpulse" no_tables m))
        messages
write_batch_safety_example = write_batch_safety hash "adpulse" no_tables messages 0 writes_run

abbrev keys : List Value
keys = str "r1" ∷ num 12 ∷ str "r1" ∷ []

abbrev parts_of : Result (List (List String)) → List (List String)
parts_of (ok l) = l
parts_of (raise e) = []

unfoldable parts : List (List String)
unfolding lookup_parameters
parts = parts_of (lookup_parameters 9 keys)

parts_run : lookup_parameters 9 keys ≡ ok parts
unfolding parts lookup_parameters unique_from member canonical Value_discrete String_discrete
    ℕ_discrete
parts_run = refl

lookup_parameters_lem_example :
    All (λ b. len (parameter b) ≤ 9) parts
    × (flatten parts ≡ map canonical (unique_from [] keys))
    × IsDistinct (unique_from [] keys)
    × ((k : Value) → member k (unique_from [] keys) ≡ member k keys)
lookup_parameters_lem_example = lookup_parameters_lem 9 keys (omega arith) parts_run

abbrev metric_of : String → Fields
metric_of region = field "region" (str region) (field "receipt_updates" (num 0) end)

abbrev table : List Entry
table = ("m:a", metric_of "EU") ∷ ("m:b", metric_of "US") ∷ ("m:c", metric_of "EU") ∷ []

abbrev in_europe : List (String × String)
in_europe = ("region", "EU") ∷ []

query_fine : query_valid "r1" "metric" 1 in_europe ≡ true
unfolding query_valid valid_release codes String_discrete ℕ_discrete
query_fine = refl

table-IsAscending : IsAscending table
unfolding codes_below codes ℕ_discrete
table-IsAscending = ((refl, (refl, tt)), ((refl, tt), (tt, tt)))

table-AreKeys : AreKeys table
unfolding codes_below codes ℕ_discrete
table-AreKeys = ((refl, refl), ((refl, refl), ((refl, refl), tt)))

traversal_lem_example :
    walk "r1" "metric" 1 in_europe table (suc (length (select "metric" in_europe table))) ""
    ≡ ok (public_rows (select "metric" in_europe table))
traversal_lem_example =
    traversal_lem "r1" "metric" 0 in_europe table query_fine table-IsAscending table-AreKeys

europe_rows :
    public_rows (select "metric" in_europe table)
    ≡ field "region" (str "EU") end ∷ field "region" (str "EU") end ∷ []
unfolding select passes public_rows get_field pop_field String_discrete
europe_rows = refl
