-- ===== src/Tests/Worker.antt =====
-- adpulse/worker.py in the archive role: a process whose first commit fails and that stops after the
-- second, whose answer is lost, and one that goes on from the committed offset.
use ad_pulse.Prelude.{
  ℕ, String, ◌≡◌, refl, true, List, [], ◌∷◌, none, some, pair_eq, string_eq, nat_eq, ℕ_discrete,
  String_discrete, pair_dec, inl, inr, arith, ◌<◌, ◌≤◌, ltb, ap, sym, ◌∙◌,
}
use mathlib.Core.Path.{subst}
use ad_pulse.Prelude.Dict.{lookup, insert, insert_all}
use ad_pulse.Json.{str, obj, field, end, num, canonical, digest}
use ad_pulse.Archive.Objects.{Objects, put, manifest_key, data_key, batch_manifest}
use ad_pulse.Worker.{
  Message, Round, Polled, delivered, refused, lost, answered, messages_of, State, run, place_of,
}
use ad_pulse.Worker.Archiver.{archiver, archive_rows, IsArchivedIn}
use ad_pulse.Worker.Sink.{sink, write_rows}
use ad_pulse.Storage.Sink.{Tables, after}
use ad_pulse.Worker.Committed.{worker_committed, AreCommitted, consumed}
use ad_pulse.Worker.Delivery.{
  Delivers, History, begins, continues, worker_delivery, start_at, start_of,
}

abbrev hash : String → String
hash s = s

abbrev at : ℕ → Message
at n = record { topic = "adpulse.raw"; partition = 0; offset = n; value = num n }

abbrev sent : List Message
sent = at 0 ∷ at 1 ∷ at 2 ∷ []

abbrev first_polls : List (List Polled × List Round)
first_polls =
    (
      delivered (at 0) ∷ delivered (at 1) ∷ [],
      record { fault = some 1; commit = answered }
          ∷ record { fault = none; commit = refused }
          ∷ record { fault = none; commit = lost }
          ∷ [],
    )
    ∷ []

abbrev second_polls : List (List Polled × List Round)
second_polls =
    ([], []) ∷ (delivered (at 2) ∷ [], record { fault = none; commit = answered } ∷ []) ∷ []

abbrev empty_state : State Objects
empty_state = record { stored = []; committed = [] }

abbrev after_first : State Objects
after_first = run (archiver hash) first_polls empty_state

abbrev after_second : State Objects
after_second = run (archiver hash) second_polls after_first

worker_committed_run : AreCommitted (archiver hash) after_first
worker_committed_run = worker_committed (archiver hash) first_polls []

first_offset : lookup ("adpulse.raw", 0) after_first.committed ≡ some 2
unfolding run archive_rows put manifest_key data_key batch_manifest lookup insert canonical digest
    String_discrete ℕ_discrete pair_dec messages_of
first_offset = refl

second_offset : lookup ("adpulse.raw", 0) after_second.committed ≡ some 3
unfolding run archive_rows put manifest_key data_key batch_manifest lookup insert canonical digest
    String_discrete ℕ_discrete pair_dec messages_of
second_offset = refl

abbrev offset_of : Message → ℕ
offset_of m = m.offset

-- A message below the offset that the first process has committed is not delivered again.
early :
    (m : Message) (o : ℕ)
    → place_of m ≡ ("adpulse.raw", 0)
    → m.offset ≡ o
    → ltb o 2 ≡ true
    → start_at (place_of m) after_first.committed ≤ m.offset
    → ⊥
early m o place same small start =
    let two = ap (λ place. start_at place after_first.committed) place ∙ ap start_of first_offset in
    ground (arith, two, same, small, start)

first_polls-Delivers : Delivers sent [] (consumed first_polls)
unfolding messages_of lookup
first_polls-Delivers = record {
  ordered = (((λ e. (omega arith)), tt), (tt, tt));
  gapless = λ m n among polled same le start. elim among [
    | inl p ↦ inl p
    | inr (inl p) ↦ inr (inl p)
    | inr (inr (inl p)) ↦ elim polled [
      | inl q ↦ absurd (omega (arith, le, ap offset_of p, ap offset_of q))
      | inr (inl q) ↦ absurd (omega (arith, le, ap offset_of p, ap offset_of q))
      | inr (inr none_left) ↦ absurd none_left
    ]
    | inr (inr (inr none_left)) ↦ absurd none_left
  ];
}

second_polls-Delivers : Delivers sent after_first.committed (consumed second_polls)
unfolding messages_of
second_polls-Delivers = record {
  ordered = (tt, tt);
  gapless = λ m n among polled same le start. elim among [
    | inl p ↦ absurd (early m 0 (ap place_of p) (ap offset_of p) refl start)
    | inr (inl p) ↦ absurd (early m 1 (ap place_of p) (ap offset_of p) refl start)
    | inr (inr (inl p)) ↦ inl p
    | inr (inr (inr none_left)) ↦ absurd none_left
  ];
}

history : History (archiver hash) sent after_second
history =
    continues second_polls (continues first_polls (begins []) first_polls-Delivers)
      second_polls-Delivers

start_second : start_at ("adpulse.raw", 0) after_second.committed ≡ 3
start_second = ap start_of second_offset

worker_delivery_example : IsArchivedIn hash (at 1) after_second.stored
worker_delivery_example =
    worker_delivery (archiver hash) sent after_second history (at 1) (inr (inl refl))
      (subst (λ (n : ℕ). 1 < n) (sym start_second) (omega arith))

-- The sink role: the first call stops after its first insert.
abbrev quality_message : Message
quality_message = record {
  topic = "adpulse.quality";
  partition = 1;
  offset = 0;
  value = obj (
      field "record_type" (str "quality") (
        field "disposition" (str "cleaned")
          (field "error_code" (str "") (field "rule_version" (str "rules-v1") end))));
}

abbrev sink_polls : List (List Polled × List Round)
sink_polls =
    (
      delivered quality_message ∷ [],
      record { fault = some 1; commit = answered }
          ∷ record { fault = none; commit = answered }
          ∷ [],
    )
    ∷ []

abbrev sink_state : State Tables
sink_state = run (sink hash "adpulse") sink_polls (record {
  stored = record { deliveries = []; results = []; quality = []; receipts = []; visibility = [] };
  committed = [];
})

sink_offset : lookup ("adpulse.quality", 1) sink_state.committed ≡ some 1
unfolding run write_rows lookup insert String_discrete ℕ_discrete pair_dec messages_of after
    insert_all digest canonical
sink_offset = refl
