-- ===== src/Storage/Answers/Fetched.antt =====
-- How `page` ends, whatever the database answers.
use mathlib.Core.Path.{subst}
use mathlib.Core.Bool.{true≢false}
use ad_pulse.Prelude.{
  ℕ, zero, suc, ◌+◌, ◌-◌, ◌≤◌, String, ◌≡◌, refl, sym, ap, ◌∙◌, Bool, true, false, ◌&&◌, not, List,
  [], ◌∷◌, ◌++◌, Option, none, some, if◌then◌else◌, string_eq, ltb, leb, length, Result, ok, raise,
  >>=-eq-ok, raise_if-eq-ok, ok-injective, Exception, value_error, arith, Bool-cases, inl, inr, ◌⊎◌,
  length-append,
}
use ad_pulse.Json.{Value, Fields}
use ad_pulse.Archive.Chunks.{Bytes}
use ad_pulse.Storage.Page.{query_valid, text_length}
use ad_pulse.Storage.Answers.{
  Trouble, Answer, splitlines, decode_lines, collect, stopped, take_values, key_after, page_row,
  page_rows, receive, fetch_page,
}
use ad_pulse.Storage.Answers.Errors.{
  raise≢ok, raise-injective, IsReported, value_error-Ends, reclassify-IsReported, reclassify-eq-ok,
  receive-Ends,
}

-- The bytes of all blocks.
abbrev pub size : List Bytes → ℕ
size [] = 0
size (b ∷ l) = length b + size l

ltb-le : (m n : ℕ) → ltb m n ≡ true → m ≤ n
ltb-le m n h = ground arith

ltb-false : (m n : ℕ) → ltb m n ≡ false → n ≤ m
ltb-false m n h = ground arith

collect-size :
    (budget : ℕ) (body : Bytes) (l : List Bytes) {b : Bytes}
    → length body ≤ budget
    → collect budget body l ≡ ok b
    → length body + size l ≤ budget
unfolding collect
collect-size budget body [] h e = omega (arith, h)
collect-size budget body (c ∷ l) h e = elim (Bool-cases (ltb budget (length body + length c))) [
  | inl over ↦ absurd (raise≢ok (rw over at e))
  | inr fits ↦
      let rest =
        collect-size budget (body ++ c) l
          (omega (arith, length-append body c, ltb-false budget (length body + length c) fits))
          (rw fits at e) in
      omega (arith, rest, length-append body c)
]

take_values-length : (n : ℕ) (l : List Value) → length (take_values n l) ≤ n
unfolding take_values
take_values-length zero l = omega arith
take_values-length (suc n) [] = omega arith
take_values-length (suc n) (v ∷ l) = omega (arith, take_values-length n l)

take_values-full : (n : ℕ) (l : List Value) → n ≤ length l → length (take_values n l) ≡ n
unfolding take_values
take_values-full zero l h = refl
take_values-full (suc n) [] h = omega (arith, h)
take_values-full (suc n) (v ∷ l) h = omega (arith, take_values-full n l, h)

stopped-eq-ok : (t : Option Trouble) {u : Unit {0}} → stopped t ≡ ok u → t ≡ none
unfolding stopped
stopped-eq-ok none h = refl
stopped-eq-ok (some t) h = absurd (raise≢ok h)

no_next :
    (more : Bool) (r : Result (Option Value)) {next : Option Value}
    → (if more then r else ok none) ≡ ok next
    → more ≡ false
    → next ≡ none
no_next true r h e = absurd (true≢false e)
no_next false r h e = sym (ok-injective h)

-- A page that is returned: what has been transferred, and how many rows there are.
abbrev pub IsBounded : ℕ → ℕ → Answer → List Fields × Option Value → Type 0
IsBounded limit budget answer page =
    (size answer.blocks ≤ budget)
    × ((answer.trouble ≡ none)
        × ((length page.0 ≤ limit) × ((page.1 ≡ none) ⊎ (length page.0 ≡ limit))))

module _ (loads : String → Result Value) (loads_bytes : Bytes → Result Value) where
  page_rows-length :
      (l : List Value) {rows : List Fields}
      → page_rows loads loads_bytes l ≡ ok rows
      → length rows ≡ length l
  unfolding page_rows
  page_rows-length [] h = ap length (sym (ok-injective h))
  page_rows-length (v ∷ l) h =
      let (row, _, r) = >>=-eq-ok (page_row loads loads_bytes v) _ h in
      let (rest, e, k) = >>=-eq-ok (page_rows loads loads_bytes l) _ r in
      ap length (sym (ok-injective k)) ∙ ap suc (page_rows-length l e)

  receive-IsBounded :
      (limit budget : ℕ) (answer : Answer) {page : List Fields × Option Value}
      → receive loads loads_bytes limit budget answer ≡ ok page
      → IsBounded limit budget answer page
  unfolding receive
  receive-IsBounded limit budget answer h =
      let (body, h₁, r₁) = >>=-eq-ok (collect budget [] answer.blocks) _ h in
      let bytes = collect-size budget [] answer.blocks (omega arith) h₁ in
      let (_, h₂, r₂) = >>=-eq-ok (stopped answer.trouble) _ r₁ in
      let (entries, _, r₃) = >>=-eq-ok (decode_lines loads_bytes (splitlines body)) _ r₂ in
      let (_, r₄) = raise_if-eq-ok (ltb (limit + 1) (length entries)) _ _ r₃ in
      let (rows, h₅, r₅) =
        >>=-eq-ok (page_rows loads loads_bytes (take_values limit entries)) _ r₄ in
      let (next, h₆, r₆) =
        >>=-eq-ok (if ltb limit (length entries) then key_after (limit - 1) entries else ok none) _
          r₅ in
      let count = page_rows-length (take_values limit entries) h₅ in
      subst (IsBounded limit budget answer) (ok-injective r₆) (
        omega (arith, bytes),
        (
          stopped-eq-ok answer.trouble h₂,
          (
            omega (arith, count, take_values-length limit entries),
            elim (Bool-cases (ltb limit (length entries))) [
              | inl more ↦
                  inr (count ∙ take_values-full limit entries (ltb-le limit (length entries) more))
              | inr last ↦
                  inl (no_next (ltb limit (length entries)) (key_after (limit - 1) entries) h₆ last)
            ],
          ),
        ),
      )

  -- The request of a page that returns has a valid query, transfers at most the budget without
  -- trouble and has at most `limit` rows, exactly as many if there is a next page; what it raises is
  -- the error of an invalid query, one of the four reasons, or the missing `pop` of a row.
  pub fetch_page_lem :
      (release kind : String) (limit : ℕ) (filters : List (String × String)) (after : String)
      (budget : ℕ) (answer : Answer)
      → ((t : String) (e : Exception) → loads t ≡ raise e → (s : String) × (e ≡ value_error s))
      → ((b : Bytes) (e : Exception) → loads_bytes b ≡ raise e → (s : String) × (e ≡ value_error s))
      → ((page : List Fields × Option Value)
          → fetch_page loads loads_bytes release kind limit filters after budget answer ≡ ok page
          → ((query_valid release kind limit filters && leb (text_length after) 1500) ≡ true)
            × IsBounded limit budget answer page)
        × ((e : Exception)
            → fetch_page loads loads_bytes release kind limit filters after budget answer ≡ raise e
            → (((query_valid release kind limit filters && leb (text_length after) 1500) ≡ false)
                × (e ≡ value_error "Invalid page query"))
              ⊎ IsReported e)
  unfolding fetch_page
  fetch_page_lem release kind limit filters after budget answer ht hb =
      let valid = query_valid release kind limit filters && leb (text_length after) 1500 in
      elim (Bool-cases valid) [
        | inl v ↦ (
          λ page h.
              let (_, r) = raise_if-eq-ok (not valid) _ _ h in
              (v, receive-IsBounded limit budget answer (reclassify-eq-ok _ r)),
          λ e h. inr (
              reclassify-IsReported (receive loads loads_bytes limit budget answer) e
                (receive-Ends loads loads_bytes (λ t. value_error-Ends (loads t) (ht t))
                  (λ b. value_error-Ends (loads_bytes b) (hb b)) limit budget answer)
                (rw v at h)),
        )
        | inr w ↦ (
          λ page h. absurd (raise≢ok (rw w at h)),
          λ e h. inl (w, sym (raise-injective (rw w at h))),
        )
      ]
