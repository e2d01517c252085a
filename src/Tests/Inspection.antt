-- ===== src/Tests/Inspection.antt =====
-- The theorems on the snapshots of the inspections at concrete inputs.
use ad_pulse.Prelude.{
  String, ◌≡◌, refl, true, false, ◌&&◌, not, [], ◌∷◌, none, some, String_discrete, ℕ_discrete,
  Result, ok, raise, os_error,
}
use ad_pulse.Prelude.Dict.{lookup}
use ad_pulse.Json.{Value, null, str, obj, Fields, end, field, canonical}
use ad_pulse.Inspection.{
  Files, Times, read_snapshot, result_of, calls_of, perform_all, publish, run_once,
}
use ad_pulse.Inspection.Published.{first_calls, IsWhole, publish_crash, reading, publish-read}
use ad_pulse.Inspection.Runs.{IsRun, run_once_lem}

abbrev times : Times
times = record { started_at = 90; generated_at = 100; finished_at = 101 }

abbrev payload : Value
payload = obj (field "prometheus" (str "up 1") end)

abbrev made : Fields
made = result_of "metrics" payload times none

abbrev failed : Fields
failed = result_of "metrics" null times (some (os_error "refused"))

abbrev old_files : Files
old_files = ("metrics.json", "{}") ∷ []

-- `json.loads`, at the text of one snapshot
abbrev loads_made : String → Result Value
loads_made t = ok (obj made)

abbrev loads_failed : String → Result Value
loads_failed t = ok (obj failed)

abbrev left : Files
left = ("metrics.json", "{}") ∷ (".metrics.1", "{}\n") ∷ []

after_three :
    perform_all (first_calls 3 (calls_of ".metrics.1" "metrics.json" "{" "{}\n")) old_files
    ≡ ok left
unfolding perform_all calls_of first_calls String_discrete
after_three = refl

publish_crash_example : IsWhole ".metrics.1" "metrics.json" "{}\n" old_files left
unfolding String_discrete lookup
publish_crash_example =
    publish_crash ".metrics.1" "metrics.json" "{" "{}\n" old_files left 3 refl refl after_three

publish-read_example :
    read_snapshot loads_made "metrics" 90 150
      (publish ".metrics.1" "metrics" payload times none old_files).1
    ≡ reading 90 150 times none made
unfolding String_discrete publish canonical ℕ_discrete
publish-read_example =
    publish-read loads_made ".metrics.1" "metrics" payload times none old_files 90 150 refl refl
      refl refl refl

run_once_lem_example :
    let r =
      run_once ".metrics.1" ".metrics.2" "metrics" times false false
        (raise (os_error "refused"))
        old_files in
    ((false && not false) ≡ true
      → r ≡ (raise (os_error "Resource temporarily unavailable"), old_files))
    × ((false && not false) ≡ false
        → IsRun loads_failed "metrics" times 90 150 (raise (os_error "refused")) old_files r)
unfolding String_discrete lookup
run_once_lem_example =
    run_once_lem loads_failed "metrics" times 90 150 refl ".metrics.1" ".metrics.2" false false
      (raise (os_error "refused")) old_files refl refl refl refl refl
