-- ===== src/Prelude/Dict.antt =====
-- Python's `dict`: entries in the order of their first insertion; an assignment to a key that is
-- there keeps its place.
use Prim.Native.Nat.{suc}
use mathlib.Core.Path.{◌≡◌, refl, sym, ap, subst, ◌∙◌}
use mathlib.Core.Bool.{Bool, true}
use mathlib.Core.Option
use mathlib.Core.Option.{Option, none, some}
use mathlib.Core.Logic.{inl, inr}
use mathlib.Core.List.{List, [], ◌∷◌, ◌++◌, map, append-nil, append_assoc}
use native.Mathlib.Omega.{arith}
use ad_pulse.Prelude.Lists.{length, All, IsAmong}
use ad_pulse.Prelude.Distinct.{member, IsDistinct}
use ad_pulse.Prelude.Tests.{if◌then◌else◌, is_some, Bool-cases}
use ad_pulse.Prelude.Keys.{Eq, ◌==◌}

abbrev pub Dict {ℓ} : Type ℓ → Type ℓ → Type ℓ
Dict K V = List (K × V)

module _ {ℓ} {K V : Type ℓ} ⦃e : Eq K⦄ where
  -- `d.get(k)`
  unfoldable pub lookup : K → Dict K V → Option V
  lookup k [] = none
  lookup k ((j, v) ∷ d) = if k == j then some v else lookup k d

  -- `d[k] = v`
  unfoldable pub insert : K → V → Dict K V → Dict K V
  insert k v [] = (k, v) ∷ []
  insert k v ((j, w) ∷ d) = if k == j then (j, v) ∷ d else (j, w) ∷ insert k v d

  -- `k in d`
  abbrev pub contains : K → Dict K V → Bool
  contains k d = is_some (lookup k d)

  -- `dict(pairs)`, with the entries of `d` first
  unfoldable pub insert_all : List (K × V) → Dict K V → Dict K V
  insert_all [] d = d
  insert_all ((k, v) ∷ r) d = insert_all r (insert k v d)

  pub lookup-insert :
      (j k : K) (v : V) (d : Dict K V)
      → lookup j (insert k v d) ≡ (if j == k then some v else lookup j d)
  unfolding lookup insert
  lookup-insert j k v [] = refl
  lookup-insert j k v ((i, w) ∷ d) = ground (arith, lookup-insert j k v d)

  pub lookup-insert_self : (k : K) (v : V) (d : Dict K V) → lookup k (insert k v d) ≡ some v
  lookup-insert_self k v d = ground (arith, lookup-insert k k v d)

  -- No key stands twice.
  abbrev pub IsDict : Dict K V → Type ℓ
  IsDict [] = Unit
  IsDict ((k, _) ∷ d) = (lookup k d ≡ none) × IsDict d

  pub insert-IsDict : (k : K) (v : V) (d : Dict K V) → IsDict d → IsDict (insert k v d)
  unfolding lookup insert
  insert-IsDict k v [] h = (refl, tt)
  insert-IsDict k v ((i, w) ∷ d) h = ground (arith, lookup-insert i k v d, insert-IsDict k v d h.1)

-- `d.values()`
abbrev pub values {ℓ} : {K V : Type ℓ} → Dict K V → List V
values [] = []
values ((_, v) ∷ d) = v ∷ values d

abbrev pub keys {ℓ} : {K V : Type ℓ} → Dict K V → List K
keys [] = []
keys ((k, _) ∷ d) = k ∷ keys d

pub length-values {ℓ} : {K V : Type ℓ} (d : Dict K V) → length (values d) ≡ length d
length-values [] = refl
length-values (e ∷ d) = ap suc (length-values d)

module _ {ℓ} {K V : Type ℓ} ⦃e : Eq K⦄ where
  -- Every key of a dictionary stands among its keys, and no other does.
  pub member-keys : (k : K) (d : Dict K V) → member k (keys d) ≡ contains k d
  unfolding member lookup
  member-keys k [] = refl
  member-keys k ((j, v) ∷ d) = ground (arith, member-keys k d)

  -- The pairs have keys that differ from one another and from those of the dictionary.
  abbrev NewKeys : List (K × V) → Dict K V → Type ℓ
  NewKeys [] d = Unit
  NewKeys ((k, v) ∷ r) d = (lookup k d ≡ none) × NewKeys r (insert k v d)

  new_keys :
      (r : List (K × V)) (d : Dict K V)
      → IsDistinct (map (λ (p : K × V). p.0) r)
      → ((k : K) → member k (map (λ (p : K × V). p.0) r) ≡ true → lookup k d ≡ none)
      → NewKeys r d
  unfolding member
  new_keys [] d h n = tt
  new_keys ((k, v) ∷ r) d h n = (
    n k (ground arith),
    new_keys r (insert k v d) h.1 (λ j m. ground (arith, n j, h.0, m, lookup-insert j k v d)),
  )

  insert_new : (k : K) (v : V) (d : Dict K V) → lookup k d ≡ none → insert k v d ≡ d ++ (k, v) ∷ []
  unfolding lookup insert
  insert_new k v [] h = refl
  insert_new k v ((j, w) ∷ d) h = elim (Bool-cases (k == j)) [
    | inl e ↦ absurd (ground (arith, h, e))
    | inr e ↦ rw e (ap (λ r. (j, w) ∷ r) (insert_new k v d (rw e at h)))
  ]

  insert_all-append : (r : List (K × V)) (d : Dict K V) → NewKeys r d → insert_all r d ≡ d ++ r
  unfolding insert_all
  insert_all-append [] d h = sym (append-nil d)
  insert_all-append ((k, v) ∷ r) d h =
      insert_all-append r (insert k v d) h.1
      ∙ ap (λ l. l ++ r) (insert_new k v d h.0)
      ∙ append_assoc d ((k, v) ∷ []) r

  -- `dict(pairs)` holds the pairs in their order, if the keys are distinct.
  pub insert_all_distinct :
      (r : List (K × V)) → IsDistinct (map (λ (p : K × V). p.0) r) → insert_all r [] ≡ r
  unfolding lookup
  insert_all_distinct r h = insert_all-append r [] (new_keys r [] h (λ k m. refl))

  -- A change of the entry under a key, if there is one.
  unfoldable pub update : K → (V → V) → Dict K V → Dict K V
  update k f [] = []
  update k f ((j, v) ∷ d) = if k == j then (j, f v) ∷ d else (j, v) ∷ update k f d

  pub lookup-update :
      (j k : K) (f : V → V) (d : Dict K V)
      → lookup j (update k f d) ≡ (if j == k then Option.map f (lookup j d) else lookup j d)
  unfolding lookup update
  lookup-update j k f [] = ground arith
  lookup-update j k f ((i, w) ∷ d) = ground (arith, lookup-update j k f d)

module _ {K V : Type 0} ⦃e : Eq K⦄ where
  pub lookup-IsAmong : (k : K) (d : Dict K V) {v : V} → lookup k d ≡ some v → IsAmong v (values d)
  unfolding lookup
  lookup-IsAmong k [] h = absurd (cc)
  lookup-IsAmong k ((j, w) ∷ d) h = elim (Bool-cases (k == j)) [
    | inl e ↦ inl (let h' = h in ground arith)
    | inr e ↦ inr (lookup-IsAmong k d (rw e at h))
  ]

  pub insert-All :
      (P : V → Type 0) (k : K) (v : V) (d : Dict K V)
      → P v
      → All (λ (p : K × V). P p.1) d
      → All (λ (p : K × V). P p.1) (insert k v d)
  unfolding insert
  insert-All P k v [] p h = (p, tt)
  insert-All P k v ((j, w) ∷ d) p h = elim (Bool-cases (k == j)) [
    | inl e ↦ rw e (p, h.1)
    | inr e ↦ rw e (h.0, insert-All P k v d p h.1)
  ]

  pub values-All : (P : V → Type 0) (d : Dict K V) → All (λ (p : K × V). P p.1) d → All P (values d)
  values-All P [] h = tt
  values-All P (p ∷ d) h = (h.0, values-All P d h.1)

  module _ (key_of : V → K) where
    -- Every value stands under its key.
    abbrev pub AreKeyed : Dict K V → Type 0
    AreKeyed d = All (λ (p : K × V). p.0 ≡ key_of p.1) d

    pub insert-AreKeyed : (v : V) (d : Dict K V) → AreKeyed d → AreKeyed (insert (key_of v) v d)
    unfolding insert
    insert-AreKeyed v [] h = (refl, tt)
    insert-AreKeyed v ((j, w) ∷ d) h = elim (Bool-cases (key_of v == j)) [
      | inl e ↦ rw e (ground arith, h.1)
      | inr e ↦ rw e (h.0, insert-AreKeyed v d h.1)
    ]

    pub lookup-among :
        (d : Dict K V) (v : V)
        → IsDict d
        → AreKeyed d
        → IsAmong v (values d)
        → lookup (key_of v) d ≡ some v
    unfolding lookup
    lookup-among [] v d k h = absurd h
    lookup-among ((j, w) ∷ d) v u k h = elim h [
      | inl e ↦ subst (λ (x : V). lookup (key_of x) ((j, w) ∷ d) ≡ some x) (sym e) (ground arith)
      | inr later ↦ let found = lookup-among d v u.1 k.1 later in ground (arith, found)
    ]
