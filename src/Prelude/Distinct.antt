-- ===== src/Prelude/Distinct.antt =====
-- Membership by a test, sets that only answer `in`, and lists with no element twice.
use mathlib.Core.Path.{◌≡◌, refl}
use mathlib.Core.Bool.{Bool, true, false, ◌||◌}
use mathlib.Core.List.{List, [], ◌∷◌, ◌++◌}
use native.Mathlib.Omega.{arith}
use ad_pulse.Prelude.Tests.{if◌then◌else◌}
use ad_pulse.Prelude.Keys.{Eq, ◌==◌}

module _ {ℓ} {A : Type ℓ} ⦃e : Eq A⦄ where
  -- `x in l`, and `x in s` for a set that holds the elements of `l`
  unfoldable pub member : A → List A → Bool
  member x [] = false
  member x (y ∷ l) = if x == y then true else member x l

  -- `s.add(x)`
  unfoldable pub add : A → List A → List A
  add x l = if member x l then l else x ∷ l

  pub member-append : (x : A) (l r : List A) → member x (l ++ r) ≡ (member x l || member x r)
  unfolding member
  member-append x [] r = refl
  member-append x (y ∷ l) r = ground (arith, member-append x l r)

  pub member-add :
      (x y : A) (l : List A) → member x (add y l) ≡ (if x == y then true else member x l)
  unfolding member add
  member-add x y l = ground arith

  -- No element stands twice.
  abbrev pub IsDistinct : List A → Type 0
  IsDistinct [] = Unit
  IsDistinct (x ∷ l) = (member x l ≡ false) × IsDistinct l

  pub IsDistinct-append :
      (x : A) (l : List A) → IsDistinct l → member x l ≡ false → IsDistinct (l ++ x ∷ [])
  unfolding member
  IsDistinct-append x [] h n = (refl, tt)
  IsDistinct-append x (y ∷ l) h n =
      (ground (arith, member-append y l (x ∷ [])), IsDistinct-append x l h.1 (ground arith))

  -- A set that answers yes for every element of a list.
  abbrev pub Covers : List A → List A → Type ℓ
  Covers l s = (k : A) → member k l ≡ true → member k s ≡ true

  pub Covers-add : (x : A) (l s : List A) → Covers l s → Covers l (add x s)
  Covers-add x l s h k m = ground (arith, member-add k x s, h k m)

  pub Covers-append : (x : A) (l s : List A) → Covers l s → Covers (l ++ x ∷ []) (add x s)
  unfolding member
  Covers-append x l s h k m = ground (arith, member-add k x s, member-append k l (x ∷ []), h k)

  pub not-member_of_Covers :
      (x : A) (l s : List A) → Covers l s → member x s ≡ false → member x l ≡ false
  not-member_of_Covers x l s h n = ground (arith, h x)
