-- ===== src/Collector/Writer.antt =====
-- adpulse/collector.py, `KafkaReceiptWriter.accept`. The Kafka producer is a parameter: its calls
-- act on a broker of any type. The batch identifier and the time of the call are arguments.
use Prim.Native.String.{◌++◌}
use ad_pulse.Prelude.{
  ℕ, zero, suc, ◌+◌, String, Bool, true, false, ◌||◌, not, List, [], ◌∷◌, Option, none, some,
  if◌then◌else◌, ◌==◌, nat_eq, length, Result, ok, raise, runtime_error,
}
use ad_pulse.Prelude.Sort.{sort_by}
use ad_pulse.Json.{
  Value, str, num, obj, arr, end, field, array, canonical, decimal, digest, get_field,
}

pub record Delivery : Type 0 where
  pub receipt_id : String
  pub topic : String
  pub partition : ℕ
  pub offset : ℕ
  pub sha256 : String

-- A delivery report: the produced message that it is about, by its place, and an error or where the
-- message stands.
pub record Report : Type 0 where
  pub message : ℕ
  pub error : Option String
  pub topic : String
  pub partition : ℕ
  pub offset : ℕ

-- What `flush` leaves: the number of messages in the queue, and the reports it passed to callbacks.
pub record Flushed : Type 0 where
  pub remaining : ℕ
  pub reports : List Report

-- A call: the broker after it, and what it returned or raised.
abbrev pub Call : Type 0 → Type 0 → Type 0
Call B A = B → B × Result A

pub record Producer (B : Type 0) : Type 0 where
  pub begin_transaction : Call B (Unit {0})
  pub produce : String → String → String → Call B (Unit {0})
  pub flush : Call B Flushed
  pub commit_transaction : Call B (Unit {0})
  pub abort_transaction : Call B (Unit {0})

pub record Packet : Type 0 where
  pub batch_id : String
  pub client_batch_id : String
  pub receipt_id : String
  pub index : ℕ
  pub received_at : ℕ
  pub event : Value

-- The packet as the JSON object that it is.
unfoldable pub packet_value : Packet → Value
packet_value p = obj (
    field "batch_id" (str p.batch_id) (
      field "client_batch_id" (str p.client_batch_id) (
        field "receipt_id" (str p.receipt_id) (
          field "index" (num p.index)
            (field "received_at" (num p.received_at) (field "event" p.event end))))))

-- `[... for i, e in enumerate(events)]`, from `i` on
unfoldable pub packets_from : String → String → ℕ → ℕ → List Value → List Packet
unfolding decimal
packets_from batch_id client_batch_id received_at i [] = []
packets_from batch_id client_batch_id received_at i (e ∷ l) =
    record {
      batch_id = batch_id;
      client_batch_id = client_batch_id;
      receipt_id = batch_id ++ (":" ++ decimal i);
      index = i;
      received_at = received_at;
      event = e;
    }
    ∷ packets_from batch_id client_batch_id received_at (suc i) l

unfoldable pub packet_at : ℕ → List Packet → Option Packet
packet_at i [] = none
packet_at zero (p ∷ l) = some p
packet_at (suc i) (p ∷ l) = packet_at i l

-- `errors` and `delivery` after the callbacks: each message's closure holds its packet.
unfoldable pub errors_of : List Report → List String
errors_of [] = []
errors_of (r ∷ l) = let rest = errors_of l in elim r.error [ some e ↦ e ∷ rest | none ↦ rest ]

unfoldable pub delivery_of : (String → String) → List Packet → List Report → List Delivery
unfolding packet_at packet_value
delivery_of sha256 packets [] = []
delivery_of sha256 packets (r ∷ l) =
    let rest = delivery_of sha256 packets l in
    elim r.error [
      | some e ↦ rest
      | none ↦ elim (packet_at r.message packets) [
        | none ↦ rest
        | some p ↦
            record {
              receipt_id = p.receipt_id;
              topic = r.topic;
              partition = r.partition;
              offset = r.offset;
              sha256 = digest sha256 (packet_value p);
            }
            ∷ rest
      ]
    ]

unfoldable pub receipt_ids : List Packet → List Value
receipt_ids [] = []
receipt_ids (p ∷ l) = str p.receipt_id ∷ receipt_ids l

unfoldable pub delivery_values : List Delivery → List Value
delivery_values [] = []
delivery_values (d ∷ l) =
    obj (
      field "receipt_id" (str d.receipt_id) (
        field "topic" (str d.topic) (
          field "partition" (num d.partition)
            (field "offset" (num d.offset) (field "sha256" (str d.sha256) end)))))
    ∷ delivery_values l

unfoldable pub manifest_of : String → String → ℕ → List Packet → List Delivery → Value
unfolding delivery_values receipt_ids
manifest_of batch_id client_batch_id received_at packets delivery = obj (
    field "record_type" (str "receipt") (
      field "batch_id" (str batch_id) (
        field "client_batch_id" (str client_batch_id) (
          field "received_at" (num received_at) (
            field "count" (num (length packets)) (
              field "records"
                (arr (array (delivery_values (sort_by (λ (d : Delivery). d.receipt_id) delivery))))
                (field "receipt_ids" (arr (array (receipt_ids packets))) end)))))))

pub record Acknowledgement : Type 0 where
  pub batch_id : String
  pub client_batch_id : String
  pub accepted : ℕ
  pub received_at : ℕ
  pub manifest_sha256 : String
  pub receipt_ids : List Value

-- The broker and the two counters.
pub record World (B : Type 0) : Type 0 where
  pub broker : B
  pub accepted : ℕ
  pub failed : ℕ

abbrev pub has_text : List String → Bool
has_text [] = false
has_text (_ ∷ _) = true

module _ {B : Type 0} where
  abbrev pub then_call : {A C : Type 0} → B × Result A → (A → Call B C) → B × Result C
  then_call (b, ok a) k = k a b
  then_call (b, raise e) k = (b, raise e)

  abbrev pub return : {A : Type 0} → A → Call B A
  return a b = (b, ok a)

  abbrev pub throw : {A : Type 0} → String → Call B A
  throw message b = (b, raise (runtime_error message))

module _ {B : Type 0} (producer : Producer B) (sha256 : String → String) (text_of : Value → String)
    (prefix : String) where
  -- `str(event.get("event_id", receipt_id)) if isinstance(event, dict) else receipt_id`
  unfoldable pub key_of_packet : Packet → String
  unfolding get_field
  key_of_packet p = elim p.event [
    | obj fs ↦ elim (get_field "event_id" fs) [ some v ↦ text_of v | none ↦ p.receipt_id ]
    | _ ↦ p.receipt_id
  ]

  -- The loop over the packets.
  unfoldable pub produce_all : List Packet → Call B (Unit {0})
  unfolding key_of_packet packet_value
  produce_all [] b = return tt b
  produce_all (p ∷ l) b =
      then_call
        (producer.produce (prefix ++ ".raw") (key_of_packet p) (canonical (packet_value p)) b)
        (λ _. produce_all l)

  -- The body of the `try`; it returns the manifest.
  unfoldable pub transaction : String → String → ℕ → List Packet → Call B Value
  unfolding produce_all manifest_of errors_of delivery_of
  transaction batch_id client_batch_id received_at packets b =
      then_call (producer.begin_transaction b) (λ _ b. then_call (produce_all packets b) (λ _ b.
        then_call (producer.flush b) (λ (f : Flushed) b.
          let delivery = delivery_of sha256 packets f.reports in
          let manifest = manifest_of batch_id client_batch_id received_at packets delivery in
          if not (f.remaining == 0)
            || (has_text (errors_of f.reports) || not (length delivery == length packets))
          then throw "Raw delivery failed" b
          else then_call (producer.produce (prefix ++ ".receipts") batch_id (canonical manifest) b)
              (λ _ b. then_call (producer.commit_transaction b) (λ _. return manifest)))))

  -- The `except` clause, and what follows the `try`.
  unfoldable pub conclude :
      String
      → ℕ
      → List Packet
      → String
      → World B
      → B × Result Value
      → World B × Result Acknowledgement
  unfolding receipt_ids
  conclude batch_id received_at packets client_batch_id w (b, ok manifest) = (
    record w { broker = b; accepted = w.accepted + length packets },
    ok (record {
      batch_id = batch_id;
      client_batch_id = client_batch_id;
      accepted = length packets;
      received_at = received_at;
      manifest_sha256 = digest sha256 manifest;
      receipt_ids = receipt_ids packets;
    }),
  )
  conclude batch_id received_at packets client_batch_id w (b, raise e) =
      (record w { broker = (producer.abort_transaction b).0; failed = w.failed + 1 }, raise e)

  unfoldable pub accept :
      String → ℕ → List Value → String → World B → World B × Result Acknowledgement
  unfolding transaction packets_from conclude
  accept batch_id received_at events client_batch_id w =
      let packets = packets_from batch_id client_batch_id received_at 0 events in
      conclude batch_id received_at packets client_batch_id w
        (transaction batch_id client_batch_id received_at packets w.broker)
