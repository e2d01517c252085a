-- ===== src/Api/Inspected/Fresh.antt =====
-- The endpoints answer from a coverage snapshot that is fresh, or with an error.
use Prim.Native.String.{len}
use ad_pulse.Prelude.{
  ℕ, ◌+◌, ◌≤◌, ◌<◌, String, ◌≡◌, refl, sym, ap, ◌∙◌, false, ◌||◌, not, List, [], ◌∷◌, some, ◌==◌,
  string_eq, String_discrete, ltb, length, Result, ok, raise, >>=-eq-ok, raise_if-eq-ok,
  ok-injective, value_error, key_error, runtime_error, type_error, timeout_error, os_error,
  database_error, snapshot_unavailable, page_error, http_error, or_raise, or_raise-eq-ok, arith,
}
use mathlib.Core.Path.{subst}
use ad_pulse.Prelude.Dict.{lookup}
use ad_pulse.Json.{
  Value, num, str, arr, nil, obj, array, Fields, end, field, get_field, set_field, value_eq,
}
use ad_pulse.Storage.Payload.{number_at, value_at, value_or}
use ad_pulse.Archive.Reconcile.{object, object-eq-ok}
use ad_pulse.Archive.Readers
use ad_pulse.Inspection.{
  Files, target_of, max_snapshot_bytes, unavailable, is_stale, check_snapshot, read_snapshot,
}
use ad_pulse.Api.Inspected.{
  Opened, or_503, trace_error, trace_answer, inspection_snapshot, quality, completeness, trace_rows,
  trace,
}

-- The file of the kind has a snapshot of a successful inspection, made at a time that is at most
-- five seconds ahead of the clock and at most `max_age` behind it.
pub record IsFresh (loads : String → Result Value) (kind : String) (max_age clock : ℕ)
    (files : Files) (snapshot : Fields) : Type 0 where
  pub text : String
  pub generated_at : ℕ
  pub is_text : lookup (target_of kind) files ≡ some text
  pub is_snapshot : loads text ≡ ok (obj snapshot)
  pub is_kind : value_at "kind" snapshot ≡ ok (str kind)
  pub is_status : value_at "status" snapshot ≡ ok (str "ok")
  pub is_time : number_at "generated_at" snapshot ≡ ok generated_at
  pub not_ahead : generated_at ≤ clock + 5
  pub not_stale : clock ≤ generated_at + max_age

unavailable-eq-ok : (r : Result Fields) {a : Fields} → unavailable r ≡ ok a → r ≡ ok a
unfolding unavailable
unavailable-eq-ok (ok b) h = h
unavailable-eq-ok (raise (value_error s)) h = absurd (cc)
unavailable-eq-ok (raise (key_error s)) h = absurd (cc)
unavailable-eq-ok (raise (runtime_error s)) h = absurd (cc)
unavailable-eq-ok (raise (type_error s)) h = absurd (cc)
unavailable-eq-ok (raise (timeout_error s)) h = absurd (cc)
unavailable-eq-ok (raise (os_error s)) h = absurd (cc)
unavailable-eq-ok (raise (database_error s)) h = absurd (cc)
unavailable-eq-ok (raise (snapshot_unavailable s)) h = absurd (cc)
unavailable-eq-ok (raise (page_error s)) h = absurd (cc)
unavailable-eq-ok (raise (http_error n s)) h = absurd (cc)

or_503-eq-ok : (r : Result Fields) {a : Fields} → or_503 r ≡ ok a → r ≡ ok a
unfolding or_503
or_503-eq-ok (ok b) h = h
or_503-eq-ok (raise (value_error s)) h = absurd (cc)
or_503-eq-ok (raise (key_error s)) h = absurd (cc)
or_503-eq-ok (raise (runtime_error s)) h = absurd (cc)
or_503-eq-ok (raise (type_error s)) h = absurd (cc)
or_503-eq-ok (raise (timeout_error s)) h = absurd (cc)
or_503-eq-ok (raise (os_error s)) h = absurd (cc)
or_503-eq-ok (raise (database_error s)) h = absurd (cc)
or_503-eq-ok (raise (snapshot_unavailable s)) h = absurd (cc)
or_503-eq-ok (raise (page_error s)) h = absurd (cc)
or_503-eq-ok (raise (http_error n s)) h = absurd (cc)

trace_error-eq-ok : {A : Type 0} (r : Result A) {a : A} → trace_error r ≡ ok a → r ≡ ok a
unfolding trace_error
trace_error-eq-ok (ok b) h = h
trace_error-eq-ok (raise (value_error s)) h = absurd (cc)
trace_error-eq-ok (raise (key_error s)) h = absurd (cc)
trace_error-eq-ok (raise (runtime_error s)) h = absurd (cc)
trace_error-eq-ok (raise (type_error s)) h = absurd (cc)
trace_error-eq-ok (raise (timeout_error s)) h = absurd (cc)
trace_error-eq-ok (raise (os_error s)) h = absurd (cc)
trace_error-eq-ok (raise (database_error s)) h = absurd (cc)
trace_error-eq-ok (raise (snapshot_unavailable s)) h = absurd (cc)
trace_error-eq-ok (raise (page_error s)) h = absurd (cc)
trace_error-eq-ok (raise (http_error n s)) h = absurd (cc)

same_values :
    (a b c d : Value) (v : Value)
    → (not (v == num 1) || (not (a == b) || not (c == d))) ≡ false
    → (a ≡ b) × (c ≡ d)
same_values a b c d v h = (ground arith, ground arith)

fresh_bounds :
    (max_age clock generated_at : ℕ)
    → is_stale max_age clock generated_at ≡ false
    → (generated_at ≤ clock + 5) × (clock ≤ generated_at + max_age)
unfolding is_stale
fresh_bounds max_age clock generated_at h = (ground arith, ground arith)

get_field-same : (k : String) (v : Value) (fs : Fields) → get_field k (set_field k v fs) ≡ some v
unfolding get_field set_field
get_field-same k v end = ground arith
get_field-same k v (field j w fs) = ground (arith, get_field-same k v fs)

get_field-other :
    (k j : String) (v : Value) (fs : Fields)
    → (k == j) ≡ false
    → get_field k (set_field j v fs) ≡ get_field k fs
unfolding get_field set_field
get_field-other k j v end h = ground (arith, h)
get_field-other k j v (field i w fs) h = ground (arith, h, get_field-other k j v fs h)

found_at : (k : String) {v : Value} (fs : Fields) → get_field k fs ≡ some v → value_at k fs ≡ ok v
unfolding value_at
found_at k fs h = ground (arith, h)

module _ (loads : String → Result Value) (clock : ℕ) (files : Files) where
  pub read_snapshot-IsFresh :
      (kind : String) (max_age : ℕ) {snapshot : Fields}
      → read_snapshot loads kind max_age clock files ≡ ok snapshot
      → IsFresh loads kind max_age clock files snapshot
  unfolding read_snapshot check_snapshot
  read_snapshot-IsFresh kind max_age {snapshot} h =
      let (_, r₀) = raise_if-eq-ok (not (kind == "coverage" || kind == "metrics")) _ _ h in
      let r₁ = unavailable-eq-ok _ r₀ in
      let (text, e₁, r₂) =
        >>=-eq-ok (or_raise (lookup (target_of kind) files) (os_error (target_of kind))) _ r₁ in
      let (_, r₃) = raise_if-eq-ok (ltb max_snapshot_bytes (len text)) _ _ r₂ in
      let (parsed, e₃, r₄) = >>=-eq-ok (loads text) _ r₃ in
      let (result, e₄, r₅) = >>=-eq-ok (object parsed) _ r₄ in
      let (generated_at, e₅, r₆) = >>=-eq-ok (number_at "generated_at" result) _ r₅ in
      let (version, _, r₇) = >>=-eq-ok (value_at "schema_version" result) _ r₆ in
      let (found_kind, e₇, r₈) = >>=-eq-ok (value_at "kind" result) _ r₇ in
      let (status, e₈, r₉) = >>=-eq-ok (value_at "status" result) _ r₈ in
      let (same, r₁₀) =
        raise_if-eq-ok
          (not (version == num 1) || (not (found_kind == str kind) || not (status == str "ok"))) _ _
          r₉ in
      let (young, r₁₁) = raise_if-eq-ok (is_stale max_age clock generated_at) _ _ r₁₀ in
      let (k, s) = same_values found_kind (str kind) status (str "ok") version same in
      let (ahead, behind) = fresh_bounds max_age clock generated_at young in
      subst (IsFresh loads kind max_age clock files) (ok-injective r₁₁) (record {
        text = text;
        generated_at = generated_at;
        is_text =
            or_raise-eq-ok (lookup (target_of kind) files) (os_error (target_of kind)) {a = text}
              e₁;
        is_snapshot = e₃ ∙ ap ok (object-eq-ok parsed e₄);
        is_kind = e₇ ∙ ap ok k;
        is_status = e₈ ∙ ap ok s;
        is_time = e₅;
        not_ahead = ahead;
        not_stale = behind;
      })

  inspection_snapshot-IsFresh :
      (snapshot : Fields)
      → inspection_snapshot loads clock files "coverage" ≡ ok snapshot
      → IsFresh loads "coverage" 600 clock files snapshot
  unfolding inspection_snapshot String_discrete
  inspection_snapshot-IsFresh snapshot h =
      read_snapshot-IsFresh "coverage" 600
        (or_503-eq-ok (read_snapshot loads "coverage" 600 clock files) h)

  -- A coverage snapshot that is fresh, and the answer that is made of it.
  abbrev pub FromFresh : (Fields → Value → Type 0) → Value → Type 0
  FromFresh Answers v =
      (snapshot : Fields) × IsFresh loads "coverage" 600 clock files snapshot × Answers snapshot v

  -- What `quality` answers: the summary and the samples of the snapshot's payload, and its time.
  pub record IsQuality (snapshot : Fields) (v : Value) : Type 0 where
    pub payload : Fields
    pub answer : Fields
    pub is_payload : value_at "payload" snapshot ≡ ok (obj payload)
    pub is_answer : v ≡ obj answer
    pub is_summary : value_at "summary" answer ≡ ok (value_or "quality_summary" (arr nil) payload)
    pub are_samples : value_at "samples" answer ≡ ok (value_or "quality_samples" (arr nil) payload)
    pub is_checked : value_at "checked_at_epoch" answer ≡ value_at "generated_at" snapshot

  -- What `completeness` answers: the snapshot's payload, with the times of the snapshot.
  pub record IsCompleteness (snapshot : Fields) (v : Value) : Type 0 where
    pub payload : Fields
    pub answer : Fields
    pub is_payload : value_at "payload" snapshot ≡ ok (obj payload)
    pub is_answer : v ≡ obj answer
    pub keeps :
        (k : String)
        → (k == "checked_at_epoch") ≡ false
        → (k == "check_started_at_epoch") ≡ false
        → (k == "consistency") ≡ false
        → get_field k answer ≡ get_field k payload
    pub is_checked : value_at "checked_at_epoch" answer ≡ value_at "generated_at" snapshot
    pub is_started : value_at "check_started_at_epoch" answer ≡ value_at "started_at" snapshot

  -- What `trace` has read and answers.
  pub record IsTraced (receipt : String) (opened : Result Opened) (snapshot : Fields) (v : Value)
      : Type 0 where
    pub index : Opened
    pub raw : List Value
    pub found : List Value
    pub answer : Fields
    pub is_open : opened ≡ ok index
    pub is_raw : Readers.trace loads receipt 10 index.0 ≡ ok raw
    pub is_quality : Readers.quality loads receipt 100 index.1 ≡ ok found
    pub not_empty : 0 < length raw
    pub is_answer : v ≡ obj answer
    pub has_receipt : value_at "receipt_id" answer ≡ ok (str receipt)
    pub has_raw : value_at "raw" answer ≡ ok (arr (array raw))
    pub has_quality : value_at "quality" answer ≡ ok (arr (array found))
    pub is_checked : value_at "checked_at_epoch" answer ≡ value_at "generated_at" snapshot

  trace_answer-IsTraced :
      (receipt : String) (opened : Result Opened) (snapshot : Fields) (index : Opened)
      (raw found : List Value) (checked_at : Value) {v : Value}
      → opened ≡ ok index
      → Readers.trace loads receipt 10 index.0 ≡ ok raw
      → Readers.quality loads receipt 100 index.1 ≡ ok found
      → value_at "generated_at" snapshot ≡ ok checked_at
      → trace_answer receipt raw found checked_at ≡ ok v
      → IsTraced receipt opened snapshot v
  unfolding trace_answer get_field value_at String_discrete
  trace_answer-IsTraced receipt opened snapshot index [] found checked_at o r q c h = absurd (cc)
  trace_answer-IsTraced receipt opened snapshot index (x ∷ l) found checked_at o r q c h = record {
    index = index;
    raw = x ∷ l;
    found = found;
    answer = _;
    is_open = o;
    is_raw = r;
    is_quality = q;
    not_empty = omega arith;
    is_answer = sym (ok-injective h);
    has_receipt = refl;
    has_raw = refl;
    has_quality = refl;
    is_checked = sym c;
  }

  quality-FromFresh : (v : Value) → quality loads clock files ≡ ok v → FromFresh IsQuality v
  unfolding quality get_field value_at String_discrete
  quality-FromFresh v h =
      let (snapshot, e, r) = >>=-eq-ok (inspection_snapshot loads clock files "coverage") _ h in
      let (given, e₁, r₁) = >>=-eq-ok (value_at "payload" snapshot) _ r in
      let (payload, e₂, r₂) = >>=-eq-ok (object given) _ r₁ in
      let (checked_at, e₃, r₃) = >>=-eq-ok (value_at "generated_at" snapshot) _ r₂ in
      (
        snapshot,
        inspection_snapshot-IsFresh snapshot e,
        record {
          payload = payload;
          answer = _;
          is_payload = e₁ ∙ ap ok (object-eq-ok given e₂);
          is_answer = sym (ok-injective r₃);
          is_summary = refl;
          are_samples = refl;
          is_checked = sym e₃;
        },
      )

  completed-IsCompleteness :
      (snapshot payload : Fields) (checked_at started_at : Value)
      → value_at "payload" snapshot ≡ ok (obj payload)
      → value_at "generated_at" snapshot ≡ ok checked_at
      → value_at "started_at" snapshot ≡ ok started_at
      → IsCompleteness snapshot (
          obj (
            set_field "consistency" (str "inspection_snapshot") (
              set_field "check_started_at_epoch" started_at
                (set_field "checked_at_epoch" checked_at payload))))
  unfolding String_discrete
  completed-IsCompleteness snapshot payload checked_at started_at p c s =
      let mark : Value = str "inspection_snapshot" in
      let first = set_field "checked_at_epoch" checked_at payload in
      let second = set_field "check_started_at_epoch" started_at first in
      record {
        payload = payload;
        answer = set_field "consistency" mark second;
        is_payload = p;
        is_answer = refl;
        keeps = λ k a b d.
            get_field-other k "consistency" mark second d
            ∙ get_field-other k "check_started_at_epoch" started_at first b
            ∙ get_field-other k "checked_at_epoch" checked_at payload a;
        is_checked =
            found_at "checked_at_epoch" (set_field "consistency" mark second) (
              get_field-other "checked_at_epoch" "consistency" mark second refl
              ∙ get_field-other "checked_at_epoch" "check_started_at_epoch" started_at first refl
              ∙ get_field-same "checked_at_epoch" checked_at payload)
            ∙ sym c;
        is_started =
            found_at "check_started_at_epoch" (set_field "consistency" mark second) (
              get_field-other "check_started_at_epoch" "consistency" mark second refl
              ∙ get_field-same "check_started_at_epoch" started_at first)
            ∙ sym s;
      }

  completeness-FromFresh :
      (v : Value) → completeness loads clock files ≡ ok v → FromFresh IsCompleteness v
  unfolding completeness
  completeness-FromFresh v h =
      let (snapshot, e, r) = >>=-eq-ok (inspection_snapshot loads clock files "coverage") _ h in
      let (given, e₁, r₁) = >>=-eq-ok (value_at "payload" snapshot) _ r in
      let (payload, e₂, r₂) = >>=-eq-ok (object given) _ r₁ in
      let (checked_at, e₃, r₃) = >>=-eq-ok (value_at "generated_at" snapshot) _ r₂ in
      let (started_at, e₄, r₄) = >>=-eq-ok (value_at "started_at" snapshot) _ r₃ in
      (
        snapshot,
        inspection_snapshot-IsFresh snapshot e,
        subst (IsCompleteness snapshot) (ok-injective r₄) (
            completed-IsCompleteness snapshot payload checked_at started_at
              (e₁ ∙ ap ok (object-eq-ok given e₂)) e₃ e₄),
      )

  trace-FromFresh :
      (receipt : String) (opened : Result Opened) (v : Value)
      → trace loads clock files receipt opened ≡ ok v
      → FromFresh (IsTraced receipt opened) v
  unfolding trace trace_rows
  trace-FromFresh receipt opened v h =
      let (snapshot, e, r) = >>=-eq-ok (inspection_snapshot loads clock files "coverage") _ h in
      let (rows, e₁, r₁) =
        >>=-eq-ok (trace_error (trace_rows loads clock files receipt opened)) _ r in
      let (checked_at, e₂, r₂) = >>=-eq-ok (value_at "generated_at" snapshot) _ r₁ in
      let (index, e₃, r₃) =
        >>=-eq-ok opened _ (trace_error-eq-ok (trace_rows loads clock files receipt opened) e₁) in
      let (raw, e₄, r₄) = >>=-eq-ok (Readers.trace loads receipt 10 index.0) _ r₃ in
      let (found, e₅, r₅) = >>=-eq-ok (Readers.quality loads receipt 100 index.1) _ r₄ in
      (
        snapshot,
        inspection_snapshot-IsFresh snapshot e,
        trace_answer-IsTraced receipt opened snapshot index raw found checked_at e₃ e₄ e₅ e₂ (
            subst (λ (q : List Value × List Value). trace_answer receipt q.0 q.1 checked_at ≡ ok v)
              (sym (ok-injective r₅)) r₂),
      )

  -- `quality`, `completeness` and `trace` answer only from a snapshot of a successful coverage
  -- inspection that is at most ten minutes old: `quality` with the summary and the samples of its
  -- payload, `completeness` with its payload, and each with the time of the snapshot; and `trace` only
  -- if the index opens and has a raw record with the receipt, and then with exactly the raw and the
  -- quality rows that the index has for it within the limits of ten and a hundred.
  pub answers_fresh :
      (receipt : String) (opened : Result Opened)
      → ((v : Value) → quality loads clock files ≡ ok v → FromFresh IsQuality v)
        × ((v : Value) → completeness loads clock files ≡ ok v → FromFresh IsCompleteness v)
        × ((v : Value)
            → trace loads clock files receipt opened ≡ ok v
            → FromFresh (IsTraced receipt opened) v)
  answers_fresh receipt opened =
      (quality-FromFresh, completeness-FromFresh, trace-FromFresh receipt opened)
