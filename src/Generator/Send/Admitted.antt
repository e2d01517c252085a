-- ===== src/Generator/Send/Admitted.antt =====
-- The requests of `send` are those that the collector accepts, and they carry the events.
use mathlib.Core.List.{flatten}
use ad_pulse.Prelude.{
  ℕ, zero, suc, ◌+◌, ◌≤◌, String, ◌≡◌, refl, ap, List, [], ◌∷◌, ◌++◌, map, length, Result, ok,
  arith, String_discrete, >>=-eq-ok, ok-injective,
}
use mathlib.Core.Path.{subst}
use ad_pulse.Json.{Value, obj, Fields, array, get_field}
use ad_pulse.Collector.Handler.{items_list, events_of}
use ad_pulse.Generator.Send.{
  slice_to, slice_from, event_values, request_body, requests_from, post_all, send,
}

items_list-array : (l : List Value) → items_list (array l) ≡ l
unfolding items_list
items_list-array [] = refl
items_list-array (v ∷ l) = ap (λ (r : List Value). v ∷ r) (items_list-array l)

slices-append :
    (n : ℕ) (l : List Fields)
    → event_values (slice_to n l) ++ event_values (slice_from n l) ≡ event_values l
unfolding slice_to slice_from event_values
slices-append zero l = refl
slices-append (suc n) [] = refl
slices-append (suc n) (e ∷ l) = ap (λ (r : List Value). obj e ∷ r) (slices-append n l)

length-slice_to : (n : ℕ) (l : List Fields) → length (event_values (slice_to n l)) ≤ n
unfolding slice_to event_values
length-slice_to zero l = omega arith
length-slice_to (suc n) [] = omega arith
length-slice_to (suc n) (e ∷ l) = omega (arith, length-slice_to n l)

length-slice_from : (n : ℕ) (l : List Fields) → length (slice_from n l) ≤ length l
unfolding slice_from
length-slice_from zero l = omega arith
length-slice_from (suc n) [] = omega arith
length-slice_from (suc n) (e ∷ l) = omega (arith, length-slice_from n l)

slice_to-any :
    (n : ℕ) (e : Fields) (l : List Fields) → 1 ≤ length (event_values (slice_to (suc n) (e ∷ l)))
unfolding slice_to event_values
slice_to-any n e l = omega arith

-- The collector's check of a request that `send` makes.
events_of-request_body :
    (batch_prefix : String) (start : ℕ) (events : List Fields)
    → 1 ≤ length (event_values events)
    → length (event_values events) ≤ 1000
    → events_of (request_body batch_prefix start events) ≡ ok (event_values events)
unfolding events_of request_body get_field String_discrete
events_of-request_body batch_prefix start events low high =
    rw (items_list-array (event_values events)) (ground (arith, low, high))

-- What the collector reads of the requests.
abbrev pub Carries : List Fields → List Value → Type 0
Carries requests events =
    (lists : List (List Value)) × (map events_of requests ≡ map ok lists) × (flatten lists ≡ events)

requests_from-Carries :
    (batch_prefix : String) (n fuel start : ℕ) (events : List Fields)
    → suc n ≤ 1000
    → length events ≤ fuel
    → Carries (requests_from batch_prefix (suc n) fuel start events) (event_values events)
unfolding requests_from event_values slice_from flatten
requests_from-Carries batch_prefix n zero start [] small enough = ([], refl, refl)
requests_from-Carries batch_prefix n zero start (e ∷ l) small enough =
    absurd (omega (arith, enough))
requests_from-Carries batch_prefix n (suc fuel) start [] small enough = ([], refl, refl)
requests_from-Carries batch_prefix n (suc fuel) start (e ∷ l) small enough =
    let low = slice_to-any n e l in
    let high = length-slice_to (suc n) (e ∷ l) in
    let shorter = length-slice_from n l in
    let (lists, read, joined) =
      requests_from-Carries batch_prefix n fuel (start + suc n) (slice_from n l) small
        (omega (arith, enough, shorter)) in
    let first =
      events_of-request_body batch_prefix start (slice_to (suc n) (e ∷ l)) low
        (omega (arith, high, small)) in
    (
      event_values (slice_to (suc n) (e ∷ l)) ∷ lists,
      rw (first, read) refl,
      rw joined (slices-append (suc n) (e ∷ l)),
    )

post_all-answers :
    (post : Fields → Result Value) (requests : List Fields) {answers : List Value}
    → post_all post requests ≡ ok answers
    → map post requests ≡ map ok answers
unfolding post_all
post_all-answers post [] h = ap (λ (l : List Value). map ok l) (ok-injective h)
post_all-answers post (b ∷ l) h =
    let (answer, e, r) = >>=-eq-ok (post b) _ h in
    let (rest, f, g) = >>=-eq-ok (post_all post l) _ r in
    subst (λ (answers : List Value). map post (b ∷ l) ≡ map ok answers) (ok-injective g)
      (rw (e, post_all-answers post l f) refl)

-- If no batch has more than 1000 events, then the collector admits each request of `send`, what it
-- reads of them are the events in their order, and if `send` returns, it returns the answer to each
-- request.
pub send_lem :
    (post : Fields → Result Value) (batch_prefix : String) (n : ℕ) (events : List Fields)
    → suc n ≤ 1000
    → Carries (requests_from batch_prefix (suc n) (length events) 0 events) (event_values events)
      × ((answers : List Value)
          → send post (suc n) batch_prefix events ≡ ok answers
          → map post (requests_from batch_prefix (suc n) (length events) 0 events) ≡ map ok answers)
unfolding send
send_lem post batch_prefix n events small = (
  requests_from-Carries batch_prefix n (length events) 0 events small (omega arith),
  λ answers h. post_all-answers post _ h,
)
