-- ===== src/Tests/Generator.antt =====
-- adpulse/generator.py for two users who both click and convert.
use ad_pulse.Prelude.{◌≡◌, refl, true, All, length, ◌+◌, ℕ_discrete, List, [], ◌∷◌, ok, map, arith}
use ad_pulse.Json.{Value, str, num, arr, obj, Fields, end, field, array, decimal}
use ad_pulse.Generator.Send.{send, requests_from, event_values}
use ad_pulse.Generator.Send.Admitted.{Carries, send_lem}
use ad_pulse.Generator.{Draws, truth_from, expected_associations}
use ad_pulse.Generator.Truth.{IsTrue, expected_associations_lem}

abbrev draws : Draws
draws = record {
  is_hot = λ i. true;
  clicks = λ i. true;
  converts = λ i. true;
  value_minor = λ i j. 100 + j;
}

-- The first user has two conversions.
truth_run : length (truth_from draws 7 1000 "mixed" 0 2) ≡ 7
unfolding truth_from ℕ_discrete
truth_run = refl

expected_run : length (expected_associations draws 7 1000 "mixed" 0 2) ≡ 3
unfolding expected_associations ℕ_discrete
expected_run = refl

expected_associations_lem_example :
    All
      (IsTrue (truth_from draws 7 1000 "mixed" 0 2))
      (expected_associations draws 7 1000 "mixed" 0 2)
expected_associations_lem_example = expected_associations_lem draws 7 1000 "mixed" 0 2

abbrev events : List Fields
events = field "n" (num 1) end ∷ field "n" (num 2) end ∷ field "n" (num 3) end ∷ []

-- Three events in two requests, which are echoed.
send_run :
    send (λ b. ok (obj b)) 2 "generated-7" events
    ≡ ok (
        obj (
          field "client_batch_id" (str "generated-7-0") (
            field "events"
              (arr (array (obj (field "n" (num 1) end) ∷ obj (field "n" (num 2) end) ∷ [])))
              end))
        ∷ obj (
            field "client_batch_id"
              (str "generated-7-2")
              (field "events" (arr (array (obj (field "n" (num 3) end) ∷ []))) end))
        ∷ [])
unfolding send decimal
send_run = refl

send_lem_run :
    Carries (requests_from "generated-7" 2 3 0 events) (event_values events)
    × ((answers : List Value)
        → send (λ b. ok (obj b)) 2 "generated-7" events ≡ ok answers
        → map (λ b. ok (obj b)) (requests_from "generated-7" 2 3 0 events) ≡ map ok answers)
send_lem_run = send_lem (λ b. ok (obj b)) "generated-7" 1 events (omega arith)
