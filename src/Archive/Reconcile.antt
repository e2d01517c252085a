-- ===== src/Archive/Reconcile.antt =====
-- adpulse/archive.py, `reconcile`. Receipt identifiers are texts.
pub mod Complete
use Prim.Native.Char.{Char}
use ad_pulse.Prelude.{
  ℕ, zero, suc, String, ◌≡◌, Bool, true, false, ◌&&◌, ◌||◌, not, List, [], ◌∷◌, ◌++◌, Option, none,
  some, if◌then◌else◌, ◌==◌, string_eq, nat_eq, option_eq, Result, ok, raise, ◌>>=◌, ◌>>◌, raise_if,
  value_error, type_error, ltb, length, is_some,
}
use ad_pulse.Prelude.Dict.{Dict, lookup, insert, contains}
use ad_pulse.Prelude.Distinct.{member, add}
use ad_pulse.Prelude.Sort.{sort_by}
use ad_pulse.Json.{
  null, bool, Value, str, num, arr, obj, Items, nil, cons, Fields, get_field, digest, value_eq,
}
use ad_pulse.Storage.Payload.{text_at, value_at}

-- A row of the archive.
pub record Archived : Type 0 where
  pub topic : String
  pub partition : ℕ
  pub offset : ℕ
  pub value : Value

-- `s.endswith(suffix)`
unfoldable pub ends_with : String → String → Bool
ends_with suffix String.[] = suffix == ""
ends_with suffix (String.◌∷◌ c s) = suffix == String.◌∷◌ c s || ends_with suffix s

-- The members of a JSON object, or an error.
unfoldable pub object : Value → Result Fields
object (obj fs) = ok fs
object _ = raise (type_error "object")

pub object-eq-ok : (v : Value) {row : Fields} → object v ≡ ok row → v ≡ obj row
unfolding object
object-eq-ok null h = cc
object-eq-ok (bool b) h = cc
object-eq-ok (num n) h = cc
object-eq-ok (str s) h = cc
object-eq-ok (obj fs) h = cc
object-eq-ok (arr l) h = cc

unfoldable pub items : Value → Result Items
items (arr l) = ok l
items _ = raise (type_error "array")

-- The texts of an array.
unfoldable pub texts : Items → Result (List String)
texts nil = ok []
texts (cons (str s) l) = do rest ← texts l; ok (s ∷ rest)
texts (cons _ l) = raise (type_error "str")

unfoldable pub objects : Items → Result (List Fields)
unfolding object
objects nil = ok []
objects (cons v l) = do fs ← object v; rest ← objects l; ok (fs ∷ rest)

-- `raw`
unfoldable pub raw_from : List Archived → Dict String Archived → Result (Dict String Archived)
unfolding ends_with text_at object
raw_from [] raw = ok raw
raw_from (r ∷ l) raw =
    if ends_with ".raw" r.topic
    then (object r.value >>= λ packet.
        text_at "receipt_id" packet >>= λ receipt. raw_from l (insert receipt r raw))
    else raw_from l raw

-- `manifests`
unfoldable pub manifests_of : List Archived → List Value
unfolding ends_with
manifests_of [] = []
manifests_of (r ∷ l) =
    let rest = manifests_of l in if ends_with ".receipts" r.topic then r.value ∷ rest else rest

-- `acknowledged.update(ids)`
unfoldable pub add_all : List String → List String → List String
add_all [] s = s
add_all (x ∷ l) s = add_all l (add x s)

-- `{r["receipt_id"] for r in refs}`, as a list
unfoldable pub receipts_of : List Fields → Result (List String)
unfolding text_at
receipts_of [] = ok []
receipts_of (ref ∷ l) = do
  receipt ← text_at "receipt_id" ref
  rest ← receipts_of l
  ok (receipt ∷ rest)

-- All of the first list is in the second.
unfoldable pub subset : List String → List String → Bool
subset [] s = true
subset (x ∷ l) s = member x s && subset l s

module _ (sha256 : String → String) where
  -- The row and the reference name the same record with the same content.
  unfoldable pub agrees : Archived → Fields → Result Bool
  unfolding value_at
  agrees row ref = do
    topic ← value_at "topic" ref
    partition ← value_at "partition" ref
    offset ← value_at "offset" ref
    hash ← value_at "sha256" ref
    ok (
        str row.topic == topic
        && (num row.partition == partition
            && (num row.offset == offset && str (digest sha256 row.value) == hash)))

  -- The loop over the references of a manifest.
  unfoldable pub check_refs : Dict String Archived → List Fields → Result (Unit {0})
  unfolding agrees text_at
  check_refs raw [] = ok tt
  check_refs raw (ref ∷ l) = do
    receipt ← text_at "receipt_id" ref
    same ← elim (lookup receipt raw) [ none ↦ ok true | some row ↦ agrees row ref ]
    raise_if (not same) (value_error "Acknowledgement and archive disagree")
    check_refs raw l

  -- The body of the loop over the manifests; it answers the receipts to add.
  unfoldable pub check_manifest : Dict String Archived → Value → Result (List String)
  unfolding object items texts objects value_at check_refs receipts_of subset
  check_manifest raw v = do
    manifest ← object v
    ids ← value_at "receipt_ids" manifest
    id_items ← items ids
    receipt_ids ← texts id_items
    count ← value_at "count" manifest
    records ← value_at "records" manifest
    record_items ← items records
    refs ← objects record_items
    receipts ← receipts_of refs
    raise_if
        (not (count == num (length refs))
          || not (subset receipt_ids receipts && subset receipts receipt_ids))
        (value_error "Receipt manifest count/identity mismatch")
    check_refs raw refs
    ok receipt_ids

  unfoldable pub acknowledge :
      Dict String Archived → List Value → List String → Result (List String)
  unfolding check_manifest add_all
  acknowledge raw [] acknowledged = ok acknowledged
  acknowledge raw (v ∷ l) acknowledged = do
    ids ← check_manifest raw v
    acknowledge raw l (add_all ids acknowledged)

-- The loop over the quality rows.
unfoldable pub dispositions_from : List Fields → Dict String Value → Result (Dict String Value)
unfolding get_field text_at value_at
dispositions_from [] seen = ok seen
dispositions_from (row ∷ l) seen =
    if get_field "disposition" row == some (str "signal") then dispositions_from l seen else do
      receipt ← text_at "receipt_id" row
      disposition ← value_at "disposition" row
      raise_if (elim (lookup receipt seen) [ none ↦ false | some old ↦ not (old == disposition) ])
          (value_error "Receipt has conflicting lineage dispositions")
      dispositions_from l (insert receipt disposition seen)

-- The receipts of the list that the map has, and those that it has not.
unfoldable pub found : {V : Type 0} → Dict String V → List String → List String
found d [] = []
found d (x ∷ l) = let rest = found d l in if contains x d then x ∷ rest else rest

unfoldable pub missing : {V : Type 0} → Dict String V → List String → List String
missing d [] = []
missing d (x ∷ l) = let rest = missing d l in if contains x d then rest else x ∷ rest

pub record Coverage : Type 0 where
  pub acknowledged : ℕ
  pub archived : ℕ
  pub archive_missing : List String
  pub classified : ℕ
  pub processing_pending : List String
  pub archive_complete : Bool
  pub lineage_complete : Bool

unfoldable pub no_text : List String → Bool
no_text [] = true
no_text (_ ∷ _) = false

-- The return expression.
unfoldable pub coverage : List String → Dict String Archived → Dict String Value → Coverage
unfolding found missing no_text sort_by
coverage acknowledged raw seen = record {
  acknowledged = length acknowledged;
  archived = length (found raw acknowledged);
  archive_missing = sort_by (λ s. s) (missing raw acknowledged);
  classified = length (found seen acknowledged);
  processing_pending = sort_by (λ s. s) (missing seen acknowledged);
  archive_complete = not (no_text acknowledged) && no_text (missing raw acknowledged);
  lineage_complete = not (no_text acknowledged) && no_text (missing seen acknowledged);
}

unfoldable pub reconcile :
    (String → String) → List Archived → List Fields → List String → Result Coverage
unfolding raw_from manifests_of acknowledge add_all dispositions_from coverage
reconcile sha256 records quality expected_receipts = do
  raw ← raw_from records []
  acknowledged ← acknowledge sha256 raw (manifests_of records) (add_all expected_receipts [])
  seen ← dispositions_from quality []
  ok (coverage acknowledged raw seen)
