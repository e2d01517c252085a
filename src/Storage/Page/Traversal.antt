-- ===== src/Storage/Page/Traversal.antt =====
-- A client that follows the keys of `ClickHouse.page` sees each row once.
use mathlib.Core.Path.{subst}
use ad_pulse.Prelude.{
  ℕ, zero, suc, ◌+◌, ◌-◌, ◌<◌, String, ◌≡◌, refl, sym, ap, ◌∙◌, true, false, List, [], ◌∷◌, ◌++◌,
  Option, none, some, if◌then◌else◌, nat_eq, ltb, leb, length, ok, ◌>>=◌, arith, All, Bool-cases,
  ◌⊎◌, inl, inr,
}
use ad_pulse.Json.{Fields, pop_field}
use ad_pulse.Names.{codes}
use ad_pulse.Storage.Page.{
  Entry, codes_below, below, above, passes, select, take, key_at, public_rows, text_length,
  query_valid, cut, page, walk,
}

codes_below_asym : (s t : List ℕ) → codes_below s t ≡ true → codes_below t s ≡ false
unfolding codes_below
codes_below_asym [] [] h = refl
codes_below_asym [] (y ∷ t) h = refl
codes_below_asym (x ∷ s) [] h = ground arith
codes_below_asym (x ∷ s) (y ∷ t) h = ground (arith, codes_below_asym s t)

codes_below_irrefl : (s : List ℕ) → codes_below s s ≡ false
unfolding codes_below
codes_below_irrefl [] = refl
codes_below_irrefl (x ∷ s) = ground (arith, codes_below_irrefl s)

-- The keys go up.
abbrev pub IsAscending : List Entry → Type 0
IsAscending [] = Unit
IsAscending (r ∷ l) = All (λ (q : Entry). below r.0 q.0 ≡ true) l × IsAscending l

-- Keys that a page can start after.
abbrev pub AreKeys : List Entry → Type 0
AreKeys l = All (λ (r : Entry). (below "" r.0 ≡ true) × (leb (text_length r.0) 1500 ≡ true)) l

above-All :
    (a : String) (l : List Entry) → All (λ (q : Entry). below a q.0 ≡ true) l → above a l ≡ l
unfolding above
above-All a [] h = refl
above-All a (r ∷ l) h = rw (h.0) (ap (λ t. r ∷ t) (above-All a l h.1))

All-in : {A : Type 0} (P : A → Type 0) (p : List A) (x : A) (l : List A) → All P (p ++ x ∷ l) → P x
All-in P [] x l h = h.0
All-in P (q ∷ p) x l h = All-in P p x l h.1

above_split :
    (p : List Entry) (x : Entry) (l : List Entry)
    → IsAscending (p ++ x ∷ l)
    → above x.0 (p ++ x ∷ l) ≡ l
unfolding above
above_split [] x l h = rw (codes_below_irrefl (codes x.0)) (above-All x.0 l h.0)
above_split (q ∷ p) x l h =
    rw
      (codes_below_asym (codes q.0) (codes x.0)
        (All-in (λ (r : Entry). below q.0 r.0 ≡ true) p x l h.0))
      (above_split p x l h.1)

module _ (kind : String) (filters : List (String × String)) where
  select-above :
      (a : String) (l : List Entry)
      → select kind filters (above a l) ≡ above a (select kind filters l)
  unfolding select above
  select-above a [] = refl
  select-above a (r ∷ l) = elim (Bool-cases (below a r.0)) [
    | inl b ↦ elim (Bool-cases (passes kind filters r.1)) [
      | inl t ↦ rw (b, t, b) (ap (λ x. r ∷ x) (select-above a l))
      | inr n ↦ rw (b, n) (select-above a l)
    ]
    | inr b ↦ elim (Bool-cases (passes kind filters r.1)) [
      | inl t ↦ rw (b, t, b) (select-above a l)
      | inr n ↦ rw (b, n) (select-above a l)
    ]
  ]

  select-All : (P : Entry → Type 0) (l : List Entry) → All P l → All P (select kind filters l)
  unfolding select
  select-All P [] h = tt
  select-All P (r ∷ l) h = elim (Bool-cases (passes kind filters r.1)) [
    | inl t ↦ rw t (h.0, select-All P l h.1)
    | inr n ↦ rw n (select-All P l h.1)
  ]

  select-IsAscending : (l : List Entry) → IsAscending l → IsAscending (select kind filters l)
  unfolding select
  select-IsAscending [] h = tt
  select-IsAscending (r ∷ l) h = elim (Bool-cases (passes kind filters r.1)) [
    | inl t ↦
        rw t (select-All (λ (q : Entry). below r.0 q.0 ≡ true) l h.0, select-IsAscending l h.1)
    | inr n ↦ rw n (select-IsAscending l h.1)
  ]

public-append : (p l : List Entry) → public_rows (p ++ l) ≡ public_rows p ++ public_rows l
unfolding public_rows
public-append [] l = refl
public-append (r ∷ p) l = ap (λ t. pop_field "receipt_updates" r.1 ∷ t) (public-append p l)

-- How a page of `suc n` rows cuts what is left.
abbrev IsCut : ℕ → List Entry → List Fields × Option String → Type 0
IsCut n l (rows, none) = rows ≡ public_rows l
IsCut n l (rows, some key) =
    (p : List Entry) × (x : Entry) × (r : List Entry) × (l ≡ p ++ x ∷ r)
    × (key ≡ x.0)
    × (rows ≡ public_rows (p ++ x ∷ []))

-- A page that is the last, or one that ends with `x` before others.
abbrev Parted : ℕ → List Entry → Type 0
Parted n l =
    ((ltb (suc n) (length (take (suc (suc n)) l)) ≡ false)
      × (take (suc n) (take (suc (suc n)) l) ≡ l))
    ⊎ ((ltb (suc n) (length (take (suc (suc n)) l)) ≡ true)
        × ((p : List Entry) × (x : Entry) × (r : List Entry) × (l ≡ p ++ x ∷ r)
            × (key_at n (take (suc (suc n)) l) ≡ some x.0)
            × (take (suc n) (take (suc (suc n)) l) ≡ p ++ x ∷ [])))

parted : (n : ℕ) (l : List Entry) → Parted n l
unfolding take key_at
parted zero [] = inl (ground arith, refl)
parted zero (x ∷ []) = inl (ground arith, refl)
parted zero (x ∷ y ∷ l) = inr (ground arith, ([], x, y ∷ l, refl, refl, refl))
parted (suc n) [] = inl (ground arith, refl)
parted (suc n) (y ∷ l) = elim (parted n l) [
  | inl (b, e) ↦ inl (ground arith, ap (λ t. y ∷ t) e)
  | inr (b, (p, x, r, e, k, t)) ↦
      inr (ground arith, (y ∷ p, x, r, ap (λ u. y ∷ u) e, k, ap (λ u. y ∷ u) t))
]

cut-eq :
    (n : ℕ) (l : List Entry)
    → cut (suc n) (take (suc n + 1) l) ≡ (
      public_rows (take (suc n) (take (suc (suc n)) l)),
      if ltb (suc n) (length (take (suc (suc n)) l)) then key_at n (take (suc (suc n)) l) else none,
    )
unfolding cut
cut-eq n l =
    let more : suc n + 1 ≡ suc (suc n) = omega arith in
    let last : suc n - 1 ≡ n = omega arith in rw (more, last) refl

cut-IsCut : (n : ℕ) (l : List Entry) → IsCut n l (cut (suc n) (take (suc n + 1) l))
cut-IsCut n l = rw (cut-eq n l) (elim (parted n l) [
  | inl (b, e) ↦ rw b (ap public_rows e)
  | inr (b, (p, x, r, e, k, t)) ↦ rw (b, k) (p, x, r, e, refl, ap public_rows t)
])

entries_assoc : (a b c : List Entry) → (a ++ b) ++ c ≡ a ++ (b ++ c)
entries_assoc [] b c = refl
entries_assoc (x ∷ a) b c = ap (λ t. x ∷ t) (entries_assoc a b c)

fields_nil : (l : List Fields) → l ++ [] ≡ l
fields_nil [] = refl
fields_nil (x ∷ l) = ap (λ t. x ∷ t) (fields_nil l)

length-entries : (p : List Entry) (x : Entry) (r : List Entry) → length r < length (p ++ x ∷ r)
length-entries [] x r = omega arith
length-entries (y ∷ p) x r = omega (arith, length-entries p x r)

All-below : (l : List Entry) → AreKeys l → All (λ (q : Entry). below "" q.0 ≡ true) l
All-below [] h = tt
All-below (r ∷ l) h = (h.0.0, All-below l h.1)

module _ (release kind : String) (n : ℕ) (filters : List (String × String)) (rows : List Entry)
    (valid : query_valid release kind (suc n) filters ≡ true) where
  page-eq :
      (after : String) (s : List Entry)
      → above after (select kind filters rows) ≡ s
      → leb (text_length after) 1500 ≡ true
      → page release kind (suc n) filters rows after ≡ ok (cut (suc n) (take (suc n + 1) s))
  unfolding page
  page-eq after s e short = rw (valid, short, select-above kind filters after rows, e) refl

  after_page :
      (fuel : ℕ) (s : List Entry) (c : List Fields × Option String)
      → IsCut n s c
      → ((p : List Entry) (x : Entry) (r : List Entry)
          → s ≡ p ++ x ∷ r
          → walk release kind (suc n) filters rows fuel x.0 ≡ ok (public_rows r))
      → ((elim c.1 [ none ↦ ok [] | some key ↦ walk release kind (suc n) filters rows fuel key ])
          >>= λ rest. ok (c.0 ++ rest))
        ≡ ok (public_rows s)
  after_page fuel s (found, none) h again = ap ok (fields_nil found ∙ h)
  after_page fuel s (found, some key) (p, x, r, e, k, t) again =
      rw (k, again p x r e, t, e)
        (ap ok (sym (public-append (p ++ x ∷ []) r) ∙ ap public_rows (entries_assoc p (x ∷ []) r)))

  walk_all :
      (fuel : ℕ) (p s : List Entry) (after : String)
      → select kind filters rows ≡ p ++ s
      → IsAscending (p ++ s)
      → AreKeys (p ++ s)
      → above after (p ++ s) ≡ s
      → leb (text_length after) 1500 ≡ true
      → length s < fuel
      → walk release kind (suc n) filters rows fuel after ≡ ok (public_rows s)
  unfolding walk
  walk_all zero p s after e asc keys cutoff short room = absurd (omega arith)
  walk_all (suc fuel) p s after e asc keys cutoff short room =
      rw (page-eq after s (ap (above after) e ∙ cutoff) short) (
        after_page fuel s (cut (suc n) (take (suc n + 1) s)) (cut-IsCut n s) (λ q x r d.
          let whole : p ++ s ≡ (p ++ q) ++ x ∷ r =
            ap (λ t. p ++ t) d ∙ sym (entries_assoc p q (x ∷ r)) in
          let whole_one : (p ++ q) ++ x ∷ r ≡ ((p ++ q) ++ x ∷ []) ++ r =
            sym (entries_assoc (p ++ q) (x ∷ []) r) in
          walk_all fuel ((p ++ q) ++ x ∷ []) r x.0 (e ∙ whole ∙ whole_one)
            (subst IsAscending (whole ∙ whole_one) asc) (subst AreKeys (whole ∙ whole_one) keys)
            (ap (above x.0) (sym whole_one)
              ∙ above_split (p ++ q) x r (subst IsAscending whole asc))
            (All-in (λ (t : Entry). (below "" t.0 ≡ true) × (leb (text_length t.0) 1500 ≡ true))
              (p ++ q) x r (subst AreKeys whole keys)).1
            (omega (arith, length-entries q x r, ap length d, room))))

  -- If the query is valid and ClickHouse answers with ascending keys that are not empty and of at
  -- most 1500 characters, then a client that starts at the beginning and follows the keys gets
  -- within one page more than there are matching rows all of them, each once and in order.
  pub traversal_lem :
      IsAscending rows
      → AreKeys rows
      → walk release kind (suc n) filters rows (suc (length (select kind filters rows))) ""
        ≡ ok (public_rows (select kind filters rows))
  unfolding codes
  traversal_lem asc keys =
      let chosen = select-All kind filters _ rows keys in
      walk_all (suc (length (select kind filters rows))) [] (select kind filters rows) "" refl
        (select-IsAscending kind filters rows asc) chosen
        (above-All "" (select kind filters rows) (All-below (select kind filters rows) chosen)) refl
        (omega arith)
