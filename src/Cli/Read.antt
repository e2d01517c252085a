-- ===== src/Cli/Read.antt =====
-- adpulse/cli.py: what `replay` computes from, the archive or the rows of a file.
use ad_pulse.Prelude.{
  ℕ, String, Bool, true, false, ◌||◌, not, List, [], ◌∷◌, map, none, some, if◌then◌else◌, ◌==◌,
  string_eq, nat_eq, ltb, Result, ok, ◌>>=◌, ◌>>◌, raise_if, value_error,
}
use ad_pulse.Prelude.Distinct.{member}
use ad_pulse.Prelude.Sort.{sort_by, text_le}
use ad_pulse.Json.{Value, str, arr, obj, array, Fields, end, field, canonical, digest}
use ad_pulse.Storage.Payload.{text_at, number_at}
use ad_pulse.Archive.Reconcile.{Archived, object, ends_with, add_all, reconcile}
use ad_pulse.Archive.Objects.{Objects, put}
use ad_pulse.Archive.Verified.{keys_of, verified_records}
use ad_pulse.Dimensions.{archived_dimensions}
use ad_pulse.Oracle.Event.{Rules}
use ad_pulse.Reconciliation.Run.{receipt_ids}
use Prim.Native.String.{◌++◌ as str_append}
use ad_pulse.Cli.State.{Arguments, Services, Source}

-- `r["topic"].endswith(".raw") and r["value"]["receipt_id"] in expected_ids`
unfoldable pub packets_of : List String → List Archived → Result (List Fields)
unfolding ends_with object text_at member
packets_of expected [] = ok []
packets_of expected (r ∷ l) =
    let rest = packets_of expected l in
    if ends_with ".raw" r.topic
    then (object r.value >>= λ packet. text_at "receipt_id" packet >>= λ receipt.
        rest >>= λ others. ok (if member receipt expected then packet ∷ others else others))
    else rest

-- `received_at`, `batch_id` and `index`
abbrev pub PacketKey : Type 0
PacketKey = ℕ × (String × ℕ)

abbrev pub comes_first : PacketKey → PacketKey → Bool
comes_first (time, (batch, index)) (time', (batch', index')) =
    if time == time'
    then (if batch == batch' then not (ltb index' index) else text_le batch batch')
    else ltb time time'

unfoldable pub keyed_packets : List Fields → Result (List (PacketKey × Fields))
unfolding number_at text_at
keyed_packets [] = ok []
keyed_packets (p ∷ l) = do
  time ← number_at "received_at" p
  batch ← text_at "batch_id" p
  index ← number_at "index" p
  rest ← keyed_packets l
  ok (((time, (batch, index)), p) ∷ rest)

unfoldable pub place_packet :
    PacketKey × Fields → List (PacketKey × Fields) → List (PacketKey × Fields)
place_packet p [] = p ∷ []
place_packet p (q ∷ l) = if comes_first p.0 q.0 then p ∷ q ∷ l else q ∷ place_packet p l

unfoldable pub order_packets : List (PacketKey × Fields) → List (PacketKey × Fields)
unfolding place_packet
order_packets [] = []
order_packets (p ∷ l) = place_packet p (order_packets l)

abbrev pub is_empty : List Fields → Bool
is_empty [] = true
is_empty (p ∷ l) = false

unfoldable pub text_values : List String → List Value
text_values [] = []
text_values (s ∷ l) = str s ∷ text_values l

unfoldable pub packet_values : List Fields → List Value
packet_values [] = []
packet_values (p ∷ l) = obj p ∷ packet_values l

module _ (sha256 : String → String) (loads : String → Result Value) where
  -- The branch of `--from-s3`: what is read, and the archive with the rules.
  unfoldable pub read_archive : Rules → Services → Objects → Result (Source × Objects)
  unfolding verified_records receipt_ids add_all reconcile packets_of keyed_packets order_packets
      archived_dimensions keys_of sort_by text_values put
  read_archive rules services objects = do
    rows ← verified_records sha256 loads objects
    acknowledged ← services.acknowledged
    raise_if (is_empty acknowledged) (value_error "No acknowledged source scope to replay")
    ids ← receipt_ids acknowledged
    let expected : List String = add_all ids []
    lineage ← services.lineage
    coverage ← reconcile sha256 rows lineage expected
    raise_if (not coverage.archive_complete || not coverage.lineage_complete)
        (value_error "Archive or source lineage incomplete")
    selected ← packets_of expected rows
    packets ← keyed_packets selected
    dimensions ← archived_dimensions loads rows
    let hash : String = digest sha256 (
        obj (
          field "archive_manifests" (arr (array (text_values (keys_of "manifests/" objects)))) (
            field "receipt_ids" (arr (array (text_values (sort_by (λ (s : String). s) expected))))
              end)))
    objects' ←
        put (str_append "rules/" (str_append (digest sha256 rules.document) ".json"))
          (canonical rules.document) objects
    ok (
      record {
        packets = map (λ (p : PacketKey × Fields). p.1) (order_packets packets);
        dimensions = dimensions;
        manifest_hash = hash;
        coverage = some coverage;
      },
      objects',
    )

  abbrev pub input_source : List Fields → Source
  input_source rows = record {
    packets = rows;
    dimensions = [];
    manifest_hash = digest sha256 (arr (array (packet_values rows)));
    coverage = none;
  }

  unfoldable pub read_source : Arguments → Rules → Services → Objects → Result (Source × Objects)
  unfolding read_archive packet_values
  read_source args rules services objects =
      if args.from_s3
      then read_archive rules services objects
      else (services.input_rows >>= λ rows. ok (input_source rows, objects))
