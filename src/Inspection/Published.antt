-- ===== src/Inspection/Published.antt =====
-- What a published snapshot is to its reader, and what a crash leaves of one.
use Prim.Native.String.{len}
use ad_pulse.Prelude.{
  ℕ, zero, suc, String, ◌≡◌, refl, sym, ◌∙◌, true, false, ◌||◌, List, [], ◌∷◌, Option, none, some,
  if◌then◌else◌, ◌==◌, string_eq, nat_eq, ltb, Result, ok, raise, Exception, value_error,
  snapshot_unavailable, arith, ◌⊎◌, inl, inr, Bool-cases, ok-injective, String_discrete,
}
use mathlib.Core.Path.{subst}
use ad_pulse.Prelude.Dict.{lookup, insert, lookup-insert, lookup-insert_self}
use ad_pulse.Json.{Value, str, obj, Fields, get_field, value_eq, Value_discrete}
use ad_pulse.Storage.Payload.{number_at, value_at}
use ad_pulse.Archive.Reconcile.{object}
use ad_pulse.Inspection.{
  Files, Times, target_of, unavailable, is_stale, check_snapshot, read_snapshot, max_snapshot_bytes,
  result_of, text_of, Call, remove, move, create_file, perform, perform_all, calls_of, finish,
  publish,
}

lookup-remove :
    (j k : String) (d : Files) → lookup j (remove k d) ≡ (if j == k then none else lookup j d)
unfolding lookup remove
lookup-remove j k [] = ground arith
lookup-remove j k ((n, t) ∷ l) = ground (arith, lookup-remove j k l)

-- The first `n` calls.
unfoldable pub first_calls : ℕ → List Call → List Call
first_calls zero l = []
first_calls (suc n) [] = []
first_calls (suc n) (c ∷ l) = c ∷ first_calls n l

-- The files after each call of `publish`.
abbrev opened : String → Files → Files
opened temp files = insert temp "" files

abbrev begun : String → String → Files → Files
begun temp partial files = insert temp partial (opened temp files)

abbrev written : String → String → String → Files → Files
written temp partial text files = insert temp text (begun temp partial files)

abbrev moved : String → String → String → String → Files → Files
moved temp target partial text files =
    insert target text (remove temp (written temp partial text files))

raise-ne-ok : {e : Exception} {r : Fields} → ◌≡◌ {A = Result Fields} (raise e) (ok r) → ⊥
raise-ne-ok h = cc

first_calls_nil : (n : ℕ) → first_calls n [] ≡ []
unfolding first_calls
first_calls_nil zero = refl
first_calls_nil (suc n) = refl

stage : ℕ → String → String → String → String → Files → Files
stage zero temp target partial text files = files
stage (suc zero) temp target partial text files = opened temp files
stage (suc (suc zero)) temp target partial text files = begun temp partial files
stage (suc (suc (suc zero))) temp target partial text files = written temp partial text files
stage (suc (suc (suc (suc zero)))) temp target partial text files =
    moved temp target partial text files
stage (suc (suc (suc (suc (suc n))))) temp target partial text files =
    remove temp (moved temp target partial text files)

calls_lem :
    (n : ℕ) (temp target partial text : String) (files : Files)
    → lookup temp files ≡ none
    → perform_all (first_calls n (calls_of temp target partial text)) files
      ≡ ok (stage n temp target partial text files)
unfolding first_calls calls_of perform_all perform create_file move stage
calls_lem zero temp target partial text files fresh = refl
calls_lem (suc zero) temp target partial text files fresh = rw fresh refl
calls_lem (suc (suc zero)) temp target partial text files fresh = rw fresh refl
calls_lem (suc (suc (suc zero))) temp target partial text files fresh = rw fresh refl
calls_lem (suc (suc (suc (suc zero)))) temp target partial text files fresh =
    rw fresh (rw (lookup-insert_self temp text (begun temp partial files)) refl)
calls_lem (suc (suc (suc (suc (suc n))))) temp target partial text files fresh =
    rw fresh (rw (lookup-insert_self temp text (begun temp partial files), first_calls_nil n) refl)

-- The snapshot is the old or the new one, and the other files are as they were.
abbrev pub IsWhole : String → String → String → Files → Files → Type 0
IsWhole temp target text files after =
    ((lookup target after ≡ lookup target files) ⊎ (lookup target after ≡ some text))
    × ((name : String)
        → (name == temp) ≡ false
        → (name == target) ≡ false
        → lookup name after ≡ lookup name files)

module _ (temp target partial text : String) (files : Files)
    (apart : (target == temp) ≡ false) where
  insert-IsWhole :
      (t : String) (after : Files)
      → IsWhole temp target text files after
      → IsWhole temp target text files (insert temp t after)
  insert-IsWhole t after h = (
    elim h.0 [
      | inl old ↦ inl (rw (lookup-insert target temp t after, apart) old)
      | inr new ↦ inr (rw (lookup-insert target temp t after, apart) new)
    ],
    λ name other away. rw (lookup-insert name temp t after, other) (h.1 name other away),
  )

  remove-IsWhole :
      (after : Files)
      → IsWhole temp target text files after
      → IsWhole temp target text files (remove temp after)
  remove-IsWhole after h = (
    elim h.0 [
      | inl old ↦ inl (rw (lookup-remove target temp after, apart) old)
      | inr new ↦ inr (rw (lookup-remove target temp after, apart) new)
    ],
    λ name other away. rw (lookup-remove name temp after, other) (h.1 name other away),
  )

  moved-IsWhole : IsWhole temp target text files (moved temp target partial text files)
  moved-IsWhole = (
    inr (lookup-insert_self target text (remove temp (written temp partial text files))),
    λ name other away.
        rw
          (
            lookup-insert name target text (remove temp (written temp partial text files)),
            away,
            lookup-remove name temp (written temp partial text files),
            other,
            lookup-insert name temp text (begun temp partial files),
            lookup-insert name temp partial (opened temp files),
            lookup-insert name temp "" files,
          )
          (rw other refl),
  )

  opened-IsWhole : IsWhole temp target text files (opened temp files)
  opened-IsWhole = insert-IsWhole "" files (inl refl, λ name other away. refl)

  begun-IsWhole : IsWhole temp target text files (begun temp partial files)
  begun-IsWhole = insert-IsWhole partial (opened temp files) opened-IsWhole

  written-IsWhole : IsWhole temp target text files (written temp partial text files)
  written-IsWhole = insert-IsWhole text (begun temp partial files) begun-IsWhole

  stage-IsWhole : (n : ℕ) → IsWhole temp target text files (stage n temp target partial text files)
  unfolding stage
  stage-IsWhole zero = (inl refl, λ name other away. refl)
  stage-IsWhole (suc zero) = opened-IsWhole
  stage-IsWhole (suc (suc zero)) = begun-IsWhole
  stage-IsWhole (suc (suc (suc zero))) = written-IsWhole
  stage-IsWhole (suc (suc (suc (suc zero)))) = moved-IsWhole
  stage-IsWhole (suc (suc (suc (suc (suc n))))) =
      remove-IsWhole (moved temp target partial text files) moved-IsWhole

-- Whatever number of the calls of `publish` a crash lets happen, and whatever part of the text the
-- write reaches before it, the snapshot of the kind is the one that was there, if any, or the whole
-- new text, and no file but it and the temporary one changes. The temporary file must be new.
pub publish_crash :
    (temp target partial text : String) (files after : Files) (n : ℕ)
    → (target == temp) ≡ false
    → lookup temp files ≡ none
    → perform_all (first_calls n (calls_of temp target partial text)) files ≡ ok after
    → IsWhole temp target text files after
publish_crash temp target partial text files after n apart fresh done =
    subst (IsWhole temp target text files)
      (ok-injective (sym (calls_lem n temp target partial text files fresh) ∙ done))
      (stage-IsWhole temp target partial text files apart n)

-- What a reader gets: the result of an inspection that succeeded, if it is not stale.
abbrev pub reading : ℕ → ℕ → Times → Option Exception → Fields → Result Fields
reading max_age clock times none result =
    if is_stale max_age clock times.generated_at
    then raise (snapshot_unavailable "Inspection unavailable or expired")
    else ok result
reading max_age clock times (some e) result =
    raise (snapshot_unavailable "Inspection unavailable or expired")

error-ne-ok : (str "error" == str "ok") ≡ false
unfolding Value_discrete String_discrete
error-ne-ok = refl

module _ (loads : String → Result Value) where
  check_snapshot_lem :
      (kind : String) (payload : Value) (times : Times) (error : Option Exception)
      (max_age clock : ℕ)
      → let result = result_of kind payload times error in
        ltb max_snapshot_bytes (len (text_of result)) ≡ false
        → loads (text_of result) ≡ ok (obj result)
        → unavailable (check_snapshot loads kind max_age clock (text_of result))
          ≡ reading max_age clock times error result
  unfolding check_snapshot object result_of number_at value_at get_field unavailable String_discrete
  check_snapshot_lem kind payload times none max_age clock fits decoded =
      rw (fits, decoded) (ground arith)
  check_snapshot_lem kind payload times (some e) max_age clock fits decoded =
      rw (fits, decoded) (ground (arith, error-ne-ok))

  all_calls :
      (temp target text : String) (files : Files)
      → lookup temp files ≡ none
      → perform_all (calls_of temp target text text) files
        ≡ ok (remove temp (moved temp target text text files))
  unfolding first_calls calls_of stage
  all_calls temp target text files fresh = calls_lem 5 temp target text text files fresh

  -- What `publish` leaves when it writes.
  pub publish_lem :
      (temp kind : String) (payload : Value) (times : Times) (error : Option Exception)
      (files : Files)
      → let text = text_of (result_of kind payload times error) in
        ltb max_snapshot_bytes (len text) ≡ false
        → lookup temp files ≡ none
        → publish temp kind payload times error files ≡ (
          ok (result_of kind payload times error),
          remove temp (remove temp (moved temp (target_of kind) text text files)),
        )
  unfolding publish finish
  publish_lem temp kind payload times error files fits fresh =
      let text = text_of (result_of kind payload times error) in
      rw (fits, all_calls temp (target_of kind) text files fresh) refl

  pub large-publish :
      (temp kind : String) (payload : Value) (times : Times) (error : Option Exception)
      (files : Files)
      → ltb max_snapshot_bytes (len (text_of (result_of kind payload times error))) ≡ true
      → publish temp kind payload times error files
        ≡ (raise (value_error "Inspection snapshot exceeds byte budget"), files)
  unfolding publish
  large-publish temp kind payload times error files large = rw large refl

  lookup-target :
      (temp target text : String) (files : Files)
      → (target == temp) ≡ false
      → lookup target (remove temp (remove temp (moved temp target text text files))) ≡ some text
  lookup-target temp target text files apart =
      rw
        (
          lookup-remove target temp (remove temp (moved temp target text text files)),
          apart,
          lookup-remove target temp (moved temp target text text files),
        )
        (rw apart (lookup-insert_self target text (remove temp (written temp text text files))))

  -- A reader of a snapshot that `publish` has written gets what was published, if the inspection
  -- succeeded and its time is at most five seconds ahead of the clock and at most `max_age` behind
  -- it; after a failed inspection, or at any other time, it gets `SnapshotUnavailable`. The
  -- temporary file must be new, and the text must come back from `json.loads`.
  pub publish-read :
      (temp kind : String) (payload : Value) (times : Times) (error : Option Exception)
      (files : Files) (max_age clock : ℕ) {result : Fields}
      → (kind == "coverage" || kind == "metrics") ≡ true
      → (target_of kind == temp) ≡ false
      → lookup temp files ≡ none
      → loads (text_of (result_of kind payload times error))
        ≡ ok (obj (result_of kind payload times error))
      → (publish temp kind payload times error files).0 ≡ ok result
      → read_snapshot loads kind max_age clock (publish temp kind payload times error files).1
        ≡ reading max_age clock times error result
  unfolding read_snapshot
  publish-read temp kind payload times error files max_age clock {result} known apart fresh decoded
        published =
      let made = result_of kind payload times error in
      elim (Bool-cases (ltb max_snapshot_bytes (len (text_of made)))) [
        | inl large ↦ absurd (
            raise-ne-ok (rw (large-publish temp kind payload times error files large) at published))
        | inr fits ↦
            let same : made ≡ result =
              ok-injective
                (rw (publish_lem temp kind payload times error files fits fresh) at published) in
            rw (publish_lem temp kind payload times error files fits fresh, ← same)
              (rw (known, lookup-target temp (target_of kind) (text_of made) files apart)
                (check_snapshot_lem kind payload times error max_age clock fits decoded))
      ]
