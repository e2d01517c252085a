-- ===== src/Prelude/Lists.antt =====
-- Lists with native lengths, and predicates on lists by recursion.
use Prim.Native.Nat.{ℕ, suc, ◌+◌}
use mathlib.Core.Path.{◌≡◌, refl, sym, subst}
use mathlib.Core.Logic.{◌⊎◌, inl, inr}
use mathlib.Core.List.{List, [], ◌∷◌, ◌++◌}
use native.Mathlib.Omega.{arith}

module _ {ℓ} {A : Type ℓ} where
  abbrev pub length : List A → ℕ
  length [] = 0
  length (x ∷ xs) = suc (length xs)

  pub length-append : (xs ys : List A) → length (xs ++ ys) ≡ length xs + length ys
  length-append [] ys = omega arith
  length-append (x ∷ xs) ys = omega (arith, length-append xs ys)

-- Every element satisfies `P`.
abbrev pub All {ℓ κ} : {A : Type ℓ} → (A → Type κ) → List A → Type κ
All P [] = Unit
All P (x ∷ xs) = P x × All P xs

-- The element is one of the list.
abbrev pub IsAmong : {A : Type 0} → A → List A → Type 0
IsAmong x [] = ⊥
IsAmong x (y ∷ l) = (x ≡ y) ⊎ IsAmong x l

pub All-map :
    {A : Type 0} {P Q : A → Type 0} (l : List A) → ((x : A) → P x → Q x) → All P l → All Q l
All-map [] f h = tt
All-map (x ∷ l) f h = (f x h.0, All-map l f h.1)

pub All-IsAmong :
    {A : Type 0} {P : A → Type 0} (l : List A) → ((x : A) → IsAmong x l → P x) → All P l
All-IsAmong [] f = tt
All-IsAmong (x ∷ l) f = (f x (inl refl), All-IsAmong l (λ y m. f y (inr m)))

pub IsAmong-All : {A : Type 0} (P : A → Type 0) (x : A) (l : List A) → All P l → IsAmong x l → P x
IsAmong-All P x [] h m = absurd m
IsAmong-All P x (y ∷ l) h m = elim m [
  | inl p ↦ subst P (sym p) h.0
  | inr later ↦ IsAmong-All P x l h.1 later
]

pub IsAmong-left : {A : Type 0} (x : A) (l m : List A) → IsAmong x l → IsAmong x (l ++ m)
IsAmong-left x [] m h = absurd h
IsAmong-left x (y ∷ l) m h = elim h [ inl p ↦ inl p | inr p ↦ inr (IsAmong-left x l m p) ]

pub IsAmong-right : {A : Type 0} (x : A) (l m : List A) → IsAmong x m → IsAmong x (l ++ m)
IsAmong-right x [] m h = h
IsAmong-right x (y ∷ l) m h = inr (IsAmong-right x l m h)

pub IsAmong-append :
    {A : Type 0} (x : A) (l m : List A) → IsAmong x (l ++ m) → IsAmong x l ⊎ IsAmong x m
IsAmong-append x [] m h = inr h
IsAmong-append x (y ∷ l) m h = elim h [
  | inl p ↦ inl (inl p)
  | inr later ↦ elim (IsAmong-append x l m later) [ inl p ↦ inl (inr p) | inr p ↦ inr p ]
]
