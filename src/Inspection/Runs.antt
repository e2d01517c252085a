-- ===== src/Inspection/Runs.antt =====
-- What a run of an inspection leaves for the readers, whether it succeeds or fails.
use Prim.Native.String.{len}
use ad_pulse.Prelude.{
  ℕ, String, ◌≡◌, refl, ap, Bool, true, false, ◌||◌, ◌&&◌, not, os_error, Option, none, some, ◌==◌,
  string_eq, nat_eq, ltb, Result, ok, raise, Exception, value_error, snapshot_unavailable,
}
use mathlib.Core.Path.{subst}
use ad_pulse.Prelude.Dict.{lookup}
use ad_pulse.Json.{Value, null, obj, Fields, value_eq}
use ad_pulse.Inspection.{
  Files, Times, target_of, read_snapshot, max_snapshot_bytes, result_of, text_of, publish, reraise,
  or_publish_error, run_locked, run_once,
}
use ad_pulse.Inspection.Published.{reading, publish_lem, large-publish, publish-read}

abbrev too_large : Exception
too_large = value_error "Inspection snapshot exceeds byte budget"

abbrev no_reading : Result Fields
no_reading = raise (snapshot_unavailable "Inspection unavailable or expired")

module _ (loads : String → Result Value) (kind : String) (times : Times) where
  abbrev Decodes : Value → Option Exception → Type 0
  Decodes payload error =
      loads (text_of (result_of kind payload times error))
      ≡ ok (obj (result_of kind payload times error))

  -- The texts that a run can write come back from `json.loads`.
  abbrev pub DecodesRun : Result Value → Type 0
  DecodesRun (ok payload) = Decodes payload none × Decodes null (some too_large)
  DecodesRun (raise e) = Decodes null (some e)

  module _ (max_age clock : ℕ) where
    abbrev pub is_large : Value → Option Exception → Bool
    is_large payload error =
        ltb max_snapshot_bytes (len (text_of (result_of kind payload times error)))

    -- The error is published: the run raises it, and a reader gets `SnapshotUnavailable`, unless the
    -- text that tells of the error is too large, which leaves the files as they were.
    abbrev pub IsReported : Exception → Files → Result Fields × Files → Type 0
    IsReported e files r =
        (is_large null (some e) ≡ true → r ≡ (raise too_large, files))
        × (is_large null (some e) ≡ false
            → (r.0 ≡ raise e) × (read_snapshot loads kind max_age clock r.1 ≡ no_reading))

    -- A payload is published: the run answers with its result, and a reader gets that as long as it is
    -- fresh, unless the text is too large, which is an error like one of the inspection.
    abbrev pub IsRun : Result Value → Files → Result Fields × Files → Type 0
    IsRun (raise e) files r = IsReported e files r
    IsRun (ok payload) files r =
        (is_large payload none ≡ true → IsReported too_large files r)
        × (is_large payload none ≡ false
            → (r.0 ≡ ok (result_of kind payload times none))
              × (read_snapshot loads kind max_age clock r.1
                  ≡ reading max_age clock times none (result_of kind payload times none)))

    module _ (known : (kind == "coverage" || kind == "metrics") ≡ true) where
      -- What a `publish` whose text fits leaves.
      fits-publish :
          (temp : String) (payload : Value) (error : Option Exception) (files : Files)
          → (target_of kind == temp) ≡ false
          → lookup temp files ≡ none
          → Decodes payload error
          → is_large payload error ≡ false
          → (after : Files) × (publish temp kind payload times error files
              ≡ (ok (result_of kind payload times error), after))
            × (read_snapshot loads kind max_age clock after
                ≡ reading max_age clock times error (result_of kind payload times error))
      fits-publish temp payload error files apart fresh decoded fits =
          let e = publish_lem loads temp kind payload times error files fits fresh in
          (
            _,
            e,
            subst
                (λ (q : Result Fields × Files).
                  read_snapshot loads kind max_age clock q.1
                  ≡ reading max_age clock times error (result_of kind payload times error))
                e
                (publish-read loads temp kind payload times error files max_age clock known apart
                  fresh decoded (ap (λ (q : Result Fields × Files). q.0) e)),
          )

      reported :
          (second : String) (e : Exception) (files : Files)
          → (target_of kind == second) ≡ false
          → lookup second files ≡ none
          → Decodes null (some e)
          → IsReported e files (or_publish_error second kind times (raise e, files))
      unfolding or_publish_error reraise
      reported second e files apart fresh decoded = (
        λ large. rw (large-publish loads second kind null times (some e) files large) refl,
        λ fits.
            let (after, published, read) =
              fits-publish second null (some e) files apart fresh decoded fits in
            rw published (refl, read),
      )

      run_locked-IsRun :
          (temp second : String) (outcome : Result Value) (files : Files)
          → (target_of kind == temp) ≡ false
          → (target_of kind == second) ≡ false
          → lookup temp files ≡ none
          → lookup second files ≡ none
          → DecodesRun outcome
          → IsRun outcome files (run_locked temp second kind times outcome files)
      unfolding run_locked
      run_locked-IsRun temp second (raise e) files apart apart' fresh fresh' decoded =
          reported second e files apart' fresh' decoded
      run_locked-IsRun temp second (ok payload) files apart apart' fresh fresh' decoded = (
        λ large.
            rw (large-publish loads temp kind payload times none files large)
              (reported second too_large files apart' fresh' decoded.1),
        λ fits.
            let (after, published, read) =
              fits-publish temp payload none files apart fresh decoded.0 fits in
            rw published (unfold or_publish_error in (refl, read)),
      )

      -- Of a run of an inspection with the role's lock or without it. If another process holds the lock
      -- and the run does not wait, it raises and leaves the files as they were. Otherwise, if the
      -- inspection gives a payload whose text fits the budget, the run answers with its result and a
      -- reader gets that as long as it is fresh; and if the inspection raises, or its text is too
      -- large, the run raises that error and from then on a reader gets `SnapshotUnavailable`, not an
      -- earlier result. Only if the text that tells of the error is too large itself are the files left
      -- as they were. The temporary files must be new, and what the run writes must come back from
      -- `json.loads`.
      pub run_once_lem :
          (temp second : String) (is_held wait_lock : Bool) (outcome : Result Value) (files : Files)
          → (target_of kind == temp) ≡ false
          → (target_of kind == second) ≡ false
          → lookup temp files ≡ none
          → lookup second files ≡ none
          → DecodesRun outcome
          → let r = run_once temp second kind times is_held wait_lock outcome files in
            ((is_held && not wait_lock) ≡ true
              → r ≡ (raise (os_error "Resource temporarily unavailable"), files))
            × ((is_held && not wait_lock) ≡ false → IsRun outcome files r)
      unfolding run_once run_locked
      run_once_lem temp second true false outcome files apart apart' fresh fresh' decoded =
          (λ h. refl, λ h. absurd (cc))
      run_once_lem temp second true true outcome files apart apart' fresh fresh' decoded = (
        λ h. absurd (cc),
        λ h. run_locked-IsRun temp second outcome files apart apart' fresh fresh' decoded,
      )
      run_once_lem temp second false wait_lock outcome files apart apart' fresh fresh' decoded = (
        λ h. absurd (cc),
        λ h. run_locked-IsRun temp second outcome files apart apart' fresh fresh' decoded,
      )
