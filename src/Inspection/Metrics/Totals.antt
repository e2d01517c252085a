-- ===== src/Inspection/Metrics/Totals.antt =====
-- The business totals are sums over the rows, and their number is bounded.
use mathlib.Core.Path.{subst}
use ad_pulse.Prelude.{
  ℕ, ◌+◌, ◌≤◌, String, ◌≡◌, refl, sym, ap, ◌∙◌, false, ◌&&◌, not, List, [], ◌∷◌, ◌++◌,
  if◌then◌else◌, ◌==◌, Eq, string_eq, pair_eq, leb, length, Result, ok, ◌>>=◌, >>=-eq-ok,
  raise_if-eq-ok, ok-injective, arith, Bool-cases, inl, inr,
}
use ad_pulse.Prelude.Dict.{Dict, lookup, insert, contains, lookup-insert}
use ad_pulse.Json.{Value, Fields, end, field}
use ad_pulse.Storage.Payload.{text_at, value_at}
use ad_pulse.Archive.Reconcile.{object}
use ad_pulse.Inspection.Metrics.{
  Series, max_series, or_zero, add_value, series_of, number_of, add_measures, totals_from,
}

-- The values of the rows, each with its series.
abbrev pub Measured : Type 0
Measured = List (Series × ℕ)

unfoldable pub measured : String → Fields → Fields → Result Measured
unfolding series_of number_of
measured release row end = ok []
measured release row (field measure v rest) = do
  key ← series_of release row measure
  value ← number_of v
  others ← measured release row rest
  ok ((key, value) ∷ others)

-- The sum of the values of a series.
unfoldable pub total : Series → Measured → ℕ
total key [] = 0
total key ((k, n) ∷ l) = let rest = total key l in if key == k then n + rest else rest

total-append : (key : Series) (l m : Measured) → total key (l ++ m) ≡ total key l + total key m
unfolding total
total-append key [] m = omega arith
total-append key ((k, n) ∷ l) m = ground (arith, total-append key l m)

module _ {K : Type 0} ⦃e : Eq K⦄ where
  length-insert :
      (k : K) (v : ℕ) (d : Dict K ℕ)
      → length (insert k v d) ≡ (if contains k d then length d else length d + 1)
  unfolding insert lookup
  length-insert k v [] = refl
  length-insert k v ((j, w) ∷ d) = ground (arith, length-insert k v d)

  or_zero-insert :
      (k key : K) (value : ℕ) (d : Dict K ℕ)
      → or_zero (lookup k (insert key (or_zero (lookup key d) + value) d))
        ≡ or_zero (lookup k d) + (if k == key then value else 0)
  or_zero-insert k key value d =
      ground (arith, lookup-insert k key (or_zero (lookup key d) + value) d)

  insert-bounded :
      (key : K) (v : ℕ) (d : Dict K ℕ)
      → (not (contains key d) && leb max_series (length d)) ≡ false
      → length d ≤ max_series
      → length (insert key v d) ≤ max_series
  insert-bounded key v d free b = ground (arith, length-insert key v d)

bind-ok :
    {A B : Type 0} (r : Result A) (k : A → Result B) {a : A} {b : B}
    → r ≡ ok a
    → k a ≡ ok b
    → (r >>= k) ≡ ok b
bind-ok r k e f = ap (λ x. x >>= k) e ∙ f

-- What is added, and the bound on the number of series that is kept.
record Adds (t t' : Dict Series ℕ) (l : Measured) : Type 0 where
  sums : (k : Series) → or_zero (lookup k t') ≡ or_zero (lookup k t) + total k l
  bounded : length t ≤ max_series → length t' ≤ max_series

total-one :
    (k key : Series) (value : ℕ) → total k ((key, value) ∷ []) ≡ (if k == key then value else 0)
unfolding total
total-one k key value = elim (Bool-cases (k == key)) [
  | inl e ↦ rw e (omega arith)
  | inr e ↦ rw e refl
]

add_value-Adds :
    (key : Series) (value : ℕ) (t : Dict Series ℕ) {t' : Dict Series ℕ}
    → add_value key value t ≡ ok t'
    → Adds t t' ((key, value) ∷ [])
unfolding add_value total
add_value-Adds key value t h =
    let (free, r) = raise_if-eq-ok (not (contains key t) && leb max_series (length t)) _ _ h in
    subst (λ (x : Dict Series ℕ). Adds t x ((key, value) ∷ [])) (ok-injective r)
      (record {
        sums = λ k.
            or_zero-insert k key value t
            ∙ ap (λ (n : ℕ). or_zero (lookup k t) + n) (sym (total-one k key value));
        bounded = insert-bounded key (or_zero (lookup key t) + value) t free;
      })

Adds-trans :
    {t₁ t₂ t₃ : Dict Series ℕ} {l m : Measured} → Adds t₁ t₂ l → Adds t₂ t₃ m → Adds t₁ t₃ (l ++ m)
Adds-trans {l} {m} p q = record {
  sums = λ k. omega (arith, p.sums k, q.sums k, total-append k l m);
  bounded = λ b. q.bounded (p.bounded b);
}

Adds-nothing : (t : Dict Series ℕ) {t' : Dict Series ℕ} → t ≡ t' → Adds t t' []
unfolding total
Adds-nothing t h =
    subst (λ (x : Dict Series ℕ). Adds t x []) h
      (record { sums = λ k. omega arith; bounded = λ b. b })

add_measures-Adds :
    (release : String) (row measures : Fields) (t : Dict Series ℕ) {t' : Dict Series ℕ}
    → add_measures release row measures t ≡ ok t'
    → (l : Measured) × ((measured release row measures ≡ ok l) × Adds t t' l)
unfolding add_measures measured
add_measures-Adds release row end t h = ([], (refl, Adds-nothing t (ok-injective h)))
add_measures-Adds release row (field measure v rest) t h =
    let (key, e₁, r₁) = >>=-eq-ok (series_of release row measure) _ h in
    let (value, e₂, r₂) = >>=-eq-ok (number_of v) _ r₁ in
    let (next, e₃, r₃) = >>=-eq-ok (add_value key value t) _ r₂ in
    let (l, (m, adds)) = add_measures-Adds release row rest next r₃ in
    (
      (key, value) ∷ l,
      (
        bind-ok (series_of release row measure) _ e₁
            (bind-ok (number_of v) _ e₂ (bind-ok (measured release row rest) _ m refl)),
        Adds-trans (add_value-Adds key value t e₃) adds,
      ),
    )

module _ (loads : String → Result Value) where
  -- The values of all rows.
  unfoldable pub measured_rows : String → List Fields → Result Measured
  unfolding text_at value_at object measured
  measured_rows release [] = ok []
  measured_rows release (result ∷ l) = do
    payload ← text_at "payload" result
    parsed ← loads payload
    row ← object parsed
    values ← value_at "values" row
    measures ← object values
    first ← measured release row measures
    rest ← measured_rows release l
    ok (first ++ rest)

  totals_from-Adds :
      (release : String) (rows : List Fields) (t : Dict Series ℕ) {t' : Dict Series ℕ}
      → totals_from loads release rows t ≡ ok t'
      → (l : Measured) × ((measured_rows release rows ≡ ok l) × Adds t t' l)
  unfolding totals_from measured_rows
  totals_from-Adds release [] t h = ([], (refl, Adds-nothing t (ok-injective h)))
  totals_from-Adds release (result ∷ rows) t h =
      let (payload, e₁, r₁) = >>=-eq-ok (text_at "payload" result) _ h in
      let (parsed, e₂, r₂) = >>=-eq-ok (loads payload) _ r₁ in
      let (row, e₃, r₃) = >>=-eq-ok (object parsed) _ r₂ in
      let (values, e₄, r₄) = >>=-eq-ok (value_at "values" row) _ r₃ in
      let (measures, e₅, r₅) = >>=-eq-ok (object values) _ r₄ in
      let (next, e₆, r₆) = >>=-eq-ok (add_measures release row measures t) _ r₅ in
      let (first, (m, adds)) = add_measures-Adds release row measures t e₆ in
      let (rest, (n, later)) = totals_from-Adds release rows next r₆ in
      (
        first ++ rest,
        (
          bind-ok (text_at "payload" result) _ e₁ (
              bind-ok (loads payload) _ e₂ (
                bind-ok (object parsed) _ e₃ (
                  bind-ok (value_at "values" row) _ e₄ (
                    bind-ok (object values) _ e₅ (
                      bind-ok (measured release row measures) _ m
                        (bind-ok (measured_rows release rows) _ n refl)))))),
          Adds-trans adds later,
        ),
      )

  -- The totals of a release: the series of a row's measure has the sum of its values over all rows,
  -- and there are at most 10000 series.
  pub totals_lem :
      (release : String) (rows : List Fields) {totals : Dict Series ℕ}
      → totals_from loads release rows [] ≡ ok totals
      → (length totals ≤ max_series)
        × ((l : Measured) × ((measured_rows release rows ≡ ok l)
              × ((key : Series) → or_zero (lookup key totals) ≡ total key l)))
  unfolding lookup
  totals_lem release rows h =
      let (l, (e, adds)) = totals_from-Adds release rows [] h in
      (adds.bounded (omega arith), (l, (e, λ key. omega (arith, adds.sums key))))
