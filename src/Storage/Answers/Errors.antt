-- ===== src/Storage/Answers/Errors.antt =====
-- What `page` raises, whatever the database answers.
use mathlib.Core.Path.{subst}
use ad_pulse.Prelude.{
  ℕ, zero, suc, ◌+◌, ◌-◌, String, ◌≡◌, refl, sym, ap, ◌∙◌, Bool, true, false, ◌||◌, List, [], ◌∷◌,
  ◌++◌, Option, none, some, if◌then◌else◌, ◌==◌, string_eq, ltb, length, Result, ok, raise, ◌>>=◌,
  raise_if, Exception, value_error, key_error, type_error, runtime_error, page_error, timeout_error,
  os_error, database_error, snapshot_unavailable, http_error, arith, Bool-cases, inl, inr, ◌⊎◌,
  String_discrete, if_both,
}
use ad_pulse.Json.{Value, Fields}
use ad_pulse.Archive.Chunks.{Bytes}
use ad_pulse.Storage.Answers.{
  Trouble, timed_out, unreachable, refused, Answer, splitlines, is_blank, decode_lines, collect,
  reason_of, is_budget, stopped, reclassify, row_of, take_values, key_after, page_row, page_rows,
  receive,
}
use ad_pulse.Archive.Reconcile.{object}
use ad_pulse.Storage.Payload.{text_at, value_at}

pub raise≢ok : {A : Type 0} {e : Exception} {a : A} → ¬ (◌≡◌ {A = Result A} (raise e) (ok a))
raise≢ok h = cc

pub raise-injective :
    {A : Type 0} {e f : Exception} → ◌≡◌ {A = Result A} (raise e) (raise f) → e ≡ f
raise-injective h = cc

abbrev pub IsReason : String → Type 0
IsReason r =
    ((r == "budget") || ((r == "timeout") || ((r == "unavailable") || (r == "invalid_response"))))
    ≡ true

-- What an attempt may raise: an error that `page` catches, its own, or that of a row without `pop`.
abbrev MayRaise : Exception → Type 0
MayRaise (value_error s) = Unit
MayRaise (key_error s) = Unit
MayRaise (type_error s) = Unit
MayRaise (page_error r) = IsReason r
MayRaise (runtime_error s) = s ≡ "AttributeError"
MayRaise e = ⊥

abbrev pub Ends : {A : Type 0} → Result A → Type 0
Ends (ok a) = Unit
Ends (raise e) = MayRaise e

Ends-bind :
    {A B : Type 0} (r : Result A) (k : A → Result B)
    → Ends r
    → ((a : A) → Ends (k a))
    → Ends (r >>= k)
Ends-bind (ok a) k h f = f a
Ends-bind (raise e) k h f = h

raise_if-Ends : (b : Bool) (s : String) → Ends (raise_if b (value_error s))
raise_if-Ends true s = tt
raise_if-Ends false s = tt

pub value_error-Ends :
    {A : Type 0} (r : Result A)
    → ((e : Exception) → r ≡ raise e → (s : String) × (e ≡ value_error s))
    → Ends r
value_error-Ends (ok a) f = tt
value_error-Ends (raise e) f = let (s, p) = f e refl in subst MayRaise (sym p) tt

-- What `page` raises after it has caught what it catches.
abbrev pub IsReported : Exception → Type 0
IsReported e =
    ((r : String) × ((e ≡ page_error r) × IsReason r)) ⊎ (e ≡ runtime_error "AttributeError")

pub reclassify-IsReported :
    {A : Type 0} (r : Result A) (e : Exception) → Ends r → reclassify r ≡ raise e → IsReported e
unfolding reclassify String_discrete
reclassify-IsReported (ok a) e h k = absurd (raise≢ok (sym k))
reclassify-IsReported (raise (value_error s)) e h k =
    inl ("invalid_response", (sym (raise-injective k), refl))
reclassify-IsReported (raise (key_error s)) e h k =
    inl ("invalid_response", (sym (raise-injective k), refl))
reclassify-IsReported (raise (type_error s)) e h k =
    inl ("invalid_response", (sym (raise-injective k), refl))
reclassify-IsReported (raise (page_error r)) e h k = inl (r, (sym (raise-injective k), h))
reclassify-IsReported (raise (runtime_error s)) e h k =
    inr (sym (raise-injective k) ∙ ap runtime_error h)
reclassify-IsReported (raise (timeout_error s)) e h k = absurd h
reclassify-IsReported (raise (os_error s)) e h k = absurd h
reclassify-IsReported (raise (database_error s)) e h k = absurd h
reclassify-IsReported (raise (snapshot_unavailable s)) e h k = absurd h
reclassify-IsReported (raise (http_error n s)) e h k = absurd h

pub reclassify-eq-ok : {A : Type 0} (r : Result A) {a : A} → reclassify r ≡ ok a → r ≡ ok a
unfolding reclassify
reclassify-eq-ok (ok b) h = h
reclassify-eq-ok (raise (value_error s)) h = absurd (raise≢ok h)
reclassify-eq-ok (raise (key_error s)) h = absurd (raise≢ok h)
reclassify-eq-ok (raise (type_error s)) h = absurd (raise≢ok h)
reclassify-eq-ok (raise (page_error r)) h = absurd (raise≢ok h)
reclassify-eq-ok (raise (runtime_error s)) h = absurd (raise≢ok h)
reclassify-eq-ok (raise (timeout_error s)) h = absurd (raise≢ok h)
reclassify-eq-ok (raise (os_error s)) h = absurd (raise≢ok h)
reclassify-eq-ok (raise (database_error s)) h = absurd (raise≢ok h)
reclassify-eq-ok (raise (snapshot_unavailable s)) h = absurd (raise≢ok h)
reclassify-eq-ok (raise (http_error n s)) h = absurd (raise≢ok h)

collect-Ends : (budget : ℕ) (body : Bytes) (l : List Bytes) → Ends (collect budget body l)
unfolding collect String_discrete
collect-Ends budget body [] = tt
collect-Ends budget body (b ∷ l) = elim (Bool-cases (ltb budget (length body + length b))) [
  | inl over ↦ rw over refl
  | inr fits ↦ rw fits (collect-Ends budget (body ++ b) l)
]

stopped-Ends : (t : Option Trouble) → Ends (stopped t)
unfolding stopped reason_of String_discrete
stopped-Ends none = tt
stopped-Ends (some timed_out) = refl
stopped-Ends (some unreachable) = refl
stopped-Ends (some (refused body)) = elim (Bool-cases (is_budget body)) [
  | inl b ↦ rw b refl
  | inr b ↦ rw b refl
]

object-Ends : (v : Value) → Ends (object v)
unfolding object
object-Ends v = ground arith

text_at-Ends : (k : String) (fs : Fields) → Ends (text_at k fs)
unfolding text_at
text_at-Ends k fs = ground arith

value_at-Ends : (k : String) (fs : Fields) → Ends (value_at k fs)
unfolding value_at
value_at-Ends k fs = ground arith

row_of-Ends : (v : Value) → Ends (row_of v)
unfolding row_of
row_of-Ends v = ground arith

key_after-Ends : (i : ℕ) (l : List Value) → Ends (key_after i l)
unfolding key_after
key_after-Ends i [] = tt
key_after-Ends zero (v ∷ l) =
    Ends-bind (object v) _ (object-Ends v)
      (λ fs. Ends-bind (value_at "output_key" fs) _ (value_at-Ends "output_key" fs) (λ k. tt))
key_after-Ends (suc i) (v ∷ l) = key_after-Ends i l

module _ (loads : String → Result Value) (loads_bytes : Bytes → Result Value)
    (loads-Ends : (t : String) → Ends (loads t))
    (loads_bytes-Ends : (b : Bytes) → Ends (loads_bytes b)) where
  decode_lines-Ends : (l : List Bytes) → Ends (decode_lines loads_bytes l)
  unfolding decode_lines
  decode_lines-Ends [] = tt
  decode_lines-Ends (line ∷ l) = elim (Bool-cases (is_blank line)) [
    | inl blank ↦ rw blank (decode_lines-Ends l)
    | inr kept ↦ rw kept (
        Ends-bind (loads_bytes line) _ (loads_bytes-Ends line)
          (λ v. Ends-bind (decode_lines loads_bytes l) _ (decode_lines-Ends l) (λ vs. tt)))
  ]

  page_row-Ends : (v : Value) → Ends (page_row loads loads_bytes v)
  unfolding page_row
  page_row-Ends v = Ends-bind (object v) _ (object-Ends v) (λ fs.
      Ends-bind (text_at "public_payload" fs) _ (text_at-Ends "public_payload" fs) (λ t.
        Ends-bind (loads t) _ (loads-Ends t)
          (λ parsed. Ends-bind (row_of parsed) _ (row_of-Ends parsed) (λ row. tt))))

  page_rows-Ends : (l : List Value) → Ends (page_rows loads loads_bytes l)
  unfolding page_rows
  page_rows-Ends [] = tt
  page_rows-Ends (v ∷ l) =
      Ends-bind (page_row loads loads_bytes v) _ (page_row-Ends v)
        (λ row. Ends-bind (page_rows loads loads_bytes l) _ (page_rows-Ends l) (λ rest. tt))

  pub receive-Ends :
      (limit budget : ℕ) (answer : Answer) → Ends (receive loads loads_bytes limit budget answer)
  unfolding receive
  receive-Ends limit budget answer =
      Ends-bind (collect budget [] answer.blocks) _ (collect-Ends budget [] answer.blocks) (λ body.
        Ends-bind (stopped answer.trouble) _ (stopped-Ends answer.trouble) (λ _.
          Ends-bind (decode_lines loads_bytes (splitlines body)) _
            (decode_lines-Ends (splitlines body))
            (λ entries.
              Ends-bind (raise_if (ltb (limit + 1) (length entries)) _) _
                (raise_if-Ends (ltb (limit + 1) (length entries)) _)
                (λ _.
                  Ends-bind (page_rows loads loads_bytes (take_values limit entries)) _
                    (page_rows-Ends (take_values limit entries))
                    (λ rows.
                      Ends-bind
                        (if ltb limit (length entries)
                          then key_after (limit - 1) entries
                          else ok none)
                        _
                        (if_both Ends (ltb limit (length entries)) (key_after (limit - 1) entries)
                          (ok none) (λ _. key_after-Ends (limit - 1) entries) (λ _. tt))
                        (λ next. tt))))))
