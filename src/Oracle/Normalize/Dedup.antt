-- ===== src/Oracle/Normalize/Dedup.antt =====
-- No event passes `normalize` twice, and every record leaves one lineage row.
use mathlib.Core.List.{map-append}
use mathlib.Core.Path.{subst}
use ad_pulse.Prelude.{
  ℕ, suc, String, ◌≡◌, false, List, [], ◌∷◌, map, ok, >>=-eq-ok, sym, ok-injective, string_eq,
  pair_eq,
}
use ad_pulse.Prelude.Distinct.{
  IsDistinct, Covers, Covers-add, Covers-append, IsDistinct-append, not-member_of_Covers, member,
}
use ad_pulse.Json.{Value, Fields}
use ad_pulse.Oracle.Event.{Event, Rules, base_of, event_key, business_key}
use ad_pulse.Oracle.Normalize.{
  State, QualityRow, start, log, mark, accept, normalize_step, normalize_from, normalize,
}
use ad_pulse.Oracle.Normalize.Cases.{
  Admission, logged, marked, accepted, admit-Admission, Outcome, rejected, admitted,
  normalize_step-Outcome,
}

abbrev pub event_keys : List Event → List (String × (String × String))
event_keys = map (λ e. event_key (base_of e))

abbrev pub business_keys : List Event → List (String × (String × (String × String)))
business_keys = map business_key

-- The loop's invariant: the kept events have distinct keys, all of them in the sets.
pub record IsClean (st : State) : Type 0 where
  pub ids_distinct : IsDistinct (event_keys st.events)
  pub keys_distinct : IsDistinct (business_keys st.events)
  pub ids_seen : Covers (event_keys st.events) st.seen_ids
  pub keys_seen : Covers (business_keys st.events) st.seen_keys

log-IsClean : (st : State) (row : QualityRow) → IsClean st → IsClean (log st row)
unfolding log
log-IsClean st row h = record {
  ids_distinct = h.ids_distinct;
  keys_distinct = h.keys_distinct;
  ids_seen = h.ids_seen;
  keys_seen = h.keys_seen;
}

mark-IsClean : (st : State) (e : Event) → IsClean st → IsClean (mark st e)
unfolding mark
mark-IsClean st e h = record {
  ids_distinct = h.ids_distinct;
  keys_distinct = h.keys_distinct;
  ids_seen = Covers-add (event_key (base_of e)) (event_keys st.events) st.seen_ids h.ids_seen;
  keys_seen = h.keys_seen;
}

accept-IsClean :
    (st : State) (row : QualityRow) (e : Event)
    → IsClean st
    → member (event_key (base_of e)) st.seen_ids ≡ false
    → member (business_key e) st.seen_keys ≡ false
    → IsClean (accept st row e)
unfolding accept
accept-IsClean st row e h new_id new_key =
    let i = event_key (base_of e) in
    let k = business_key e in
    record {
      ids_distinct = rw map-append (
          IsDistinct-append i (event_keys st.events) h.ids_distinct
            (not-member_of_Covers i (event_keys st.events) st.seen_ids h.ids_seen new_id));
      keys_distinct = rw map-append (
          IsDistinct-append k (business_keys st.events) h.keys_distinct
            (not-member_of_Covers k (business_keys st.events) st.seen_keys h.keys_seen new_key));
      ids_seen = rw map-append (Covers-append i (event_keys st.events) st.seen_ids h.ids_seen);
      keys_seen =
          rw map-append (Covers-append k (business_keys st.events) st.seen_keys h.keys_seen);
    }

Admission-IsClean : (st st' : State) (e : Event) → Admission st e st' → IsClean st → IsClean st'
Admission-IsClean st st' e (logged row _ _ eq) h = subst IsClean (sym eq) (log-IsClean st row h)
Admission-IsClean st st' e (marked row _ _ eq) h =
    subst IsClean (sym eq) (mark-IsClean (log st row) e (log-IsClean st row h))
Admission-IsClean st st' e (accepted row _ _ i k eq) h =
    subst IsClean (sym eq) (accept-IsClean st row e h i k)

Outcome-IsClean :
    (rules : Rules) (receipt : Value) (st st' : State)
    → Outcome rules receipt st st'
    → IsClean st
    → IsClean st'
Outcome-IsClean rules receipt st st' (rejected row _ _ eq) h =
    subst IsClean (sym eq) (log-IsClean st row h)
Outcome-IsClean rules receipt st st' (admitted id e _ eq) h =
    Admission-IsClean st st' e (subst (Admission st e) (sym eq) (admit-Admission rules st id e)) h

module _ (errors : Value → List String) (rules : Rules) where
  normalize_from-IsClean :
      (st : State) (n : ℕ) (records : List Fields) {st' : State}
      → IsClean st
      → normalize_from errors rules st n records ≡ ok st'
      → IsClean st'
  unfolding normalize_from
  normalize_from-IsClean st n [] h r = subst IsClean (ok-injective r) h
  normalize_from-IsClean st n (raw ∷ records) h r =
      let (st₁, r₁, r₂) = >>=-eq-ok (normalize_step errors rules st n raw) _ r in
      let (receipt, _, out) = normalize_step-Outcome errors rules st n raw r₁ in
      normalize_from-IsClean st₁ (suc n) records (Outcome-IsClean rules receipt st st₁ out h) r₂

  -- When `normalize` returns, no two of the events that it keeps have one event identifier within
  -- an advertiser and app, and no two have one business key.
  pub normalize_dedup :
      (records : List Fields) {st : State}
      → normalize errors rules records ≡ ok st
      → IsDistinct (event_keys st.events) × IsDistinct (business_keys st.events)
  unfolding normalize
  normalize_dedup records r =
      let clean =
        normalize_from-IsClean start 0 records
          (record {
            ids_distinct = tt;
            keys_distinct = tt;
            ids_seen = λ k m. m;
            keys_seen = λ k m. m;
          })
          r in
      (clean.ids_distinct, clean.keys_distinct)
