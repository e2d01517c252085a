-- ===== src/Prelude/Sort.antt =====
-- Python's `sorted(rows, key=...)` over text keys: a stable insertion sort.
use Prim.Native.Nat.{ℕ, ◌+◌, Ordering}
use Prim.Native.String.{String, compare}
use mathlib.Core.Path.{◌≡◌, refl}
use mathlib.Core.Bool.{Bool, true, false}
use mathlib.Core.List.{List, [], ◌∷◌, ◌++◌}
use native.Mathlib.Omega.{arith}
use mathlib.Core.Logic.{inl, inr}
use ad_pulse.Prelude.Tests.{if◌then◌else◌, Bool-cases}
use ad_pulse.Prelude.Lists.{length, All}

abbrev pub text_le : String → String → Bool
text_le s t = elim (compare s t) [ Ordering.gt ↦ false | _ ↦ true ]

-- The sum of a number over the rows.
abbrev pub sum_list {ℓ} : {A : Type ℓ} → (A → ℕ) → List A → ℕ
sum_list f [] = 0
sum_list f (x ∷ l) = f x + sum_list f l

pub sum_list-append {ℓ} :
    {A : Type ℓ} (f : A → ℕ) (l r : List A) → sum_list f (l ++ r) ≡ sum_list f l + sum_list f r
sum_list-append f [] r = omega arith
sum_list-append f (x ∷ l) r = omega (arith, sum_list-append f l r)

module _ {ℓ} {A : Type ℓ} (key : A → String) where
  unfoldable pub place : A → List A → List A
  place x [] = x ∷ []
  place x (y ∷ l) = if text_le (key x) (key y) then x ∷ y ∷ l else y ∷ place x l

  unfoldable pub sort_by : List A → List A
  unfolding place
  sort_by [] = []
  sort_by (x ∷ l) = place x (sort_by l)

  length-place : (x : A) (l : List A) → length (place x l) ≡ length l + 1
  unfolding place
  length-place x [] = omega arith
  length-place x (y ∷ l) = ground (arith, length-place x l)

  pub length-sort_by : (l : List A) → length (sort_by l) ≡ length l
  unfolding sort_by
  length-sort_by [] = refl
  length-sort_by (x ∷ l) = omega (arith, length-place x (sort_by l), length-sort_by l)

  module _ (P : A → Type ℓ) where
    place-All : (x : A) (l : List A) → P x → All P l → All P (place x l)
    unfolding place
    place-All x [] p h = (p, tt)
    place-All x (y ∷ l) p h = elim (Bool-cases (text_le (key x) (key y))) [
      | inl e ↦ rw e (p, h)
      | inr e ↦ rw e (h.0, place-All x l p h.1)
    ]

    pub sort_by-All : (l : List A) → All P l → All P (sort_by l)
    unfolding sort_by
    sort_by-All [] h = tt
    sort_by-All (x ∷ l) h = place-All x (sort_by l) h.0 (sort_by-All l h.1)

  module _ (f : A → ℕ) where
    sum_list-place : (x : A) (l : List A) → sum_list f (place x l) ≡ f x + sum_list f l
    unfolding place
    sum_list-place x [] = refl
    sum_list-place x (y ∷ l) = ground (arith, sum_list-place x l)

    pub sum_list-sort_by : (l : List A) → sum_list f (sort_by l) ≡ sum_list f l
    unfolding sort_by
    sum_list-sort_by [] = refl
    sum_list-sort_by (x ∷ l) = omega (arith, sum_list-place x (sort_by l), sum_list-sort_by l)
