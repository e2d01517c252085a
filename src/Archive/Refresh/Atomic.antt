-- ===== src/Archive/Refresh/Atomic.antt =====
-- The rows of a manifest enter the index with the manifest, or not at all.
use mathlib.Core.Path.{subst}
use ad_pulse.Prelude.{
  ℕ, String, ◌≡◌, refl, ap, Bool, true, ◌&&◌, not, List, [], ◌∷◌, Option, some, string_eq, nat_eq,
  pair_eq, option_eq, Result, ok, raise, raise_if-eq-ok, ok-injective, inl, inr, arith, Bool-cases,
}
use ad_pulse.Prelude.Dict.{Dict, lookup, insert, contains, lookup-insert}
use ad_pulse.Prelude.Distinct.{member}
use ad_pulse.Json.{Value, value_eq}
use ad_pulse.Archive.Chunks.{Bytes}
use ad_pulse.Archive.Refresh.{
  Identity, Entry, Index, index_manifest, Progress, verify, refresh_key, and_then, refresh_from,
  refresh, start, iter_keys,
}
use ad_pulse.Archive.Refresh.Grows.{place_of}
use ad_pulse.Archive.Refresh.Accepted.{Enters, index_manifest_lem, Accepted-Enters}

-- Each record of the index came with a manifest of the index, and stands under its own place.
abbrev pub IsAtomic : Index → Type 0
IsAtomic index =
    (id : Identity) (e : Entry)
    → lookup id index.records ≡ some e
    → (contains e.manifest index.manifests ≡ true) × (place_of e ≡ id)

-- The later index has the records and the manifests of the earlier one.
abbrev pub Extends : Index → Index → Type 0
Extends old new =
    ((id : Identity) (e : Entry) → lookup id old.records ≡ some e → lookup id new.records ≡ some e)
    × ((key : String) → contains key old.manifests ≡ true → contains key new.manifests ≡ true)

pub contains-insert :
    (j k hash : String) (d : Dict String String)
    → contains j d ≡ true
    → contains j (insert k hash d) ≡ true
contains-insert j k hash d h = ground (arith, lookup-insert j k hash d)

pub contains-insert_self :
    (k hash : String) (d : Dict String String) → contains k (insert k hash d) ≡ true
contains-insert_self k hash d = ground (arith, lookup-insert k k hash d)

Enters-IsAtomic :
    (key : String) (old new : Index) → Enters key old new → IsAtomic old → IsAtomic new
Enters-IsAtomic key old new n h = subst IsAtomic n.is_new λ id e f. elim (n.grows.adds id e f) [
  | inl was ↦ (
    contains-insert e.manifest key n.hash n.grown.manifests
        (rw n.grows.same_manifests (h id e was).0),
    (h id e was).1,
  )
  | inr (mine, place) ↦ (rw mine (contains-insert_self key n.hash n.grown.manifests), place)
]

Enters-Extends : (key : String) (old new : Index) → Enters key old new → Extends old new
Enters-Extends key old new n = subst (Extends old) n.is_new (
  n.grows.keeps,
  λ j c. contains-insert j key n.hash n.grown.manifests (rw n.grows.same_manifests c),
)

pub Extends-trans : (i j k : Index) → Extends i j → Extends j k → Extends i k
Extends-trans i j k p q = (λ id e f. q.0 id e (p.0 id e f), λ key c. q.1 key (p.1 key c))

abbrev pub KeepsAtomic : Index → Index → Type 0
KeepsAtomic old new = (IsAtomic old → IsAtomic new) × Extends old new

KeepsAtomic-refl : (i : Index) → KeepsAtomic i i
KeepsAtomic-refl i = (λ h. h, (λ id e f. f, λ key c. c))

module _ (sha256 : String → String) (sha256_bytes : Bytes → String)
    (loads : Bytes → Result Value) where
  verify-KeepsAtomic :
      (p : Progress) (old : Index) (r : Result (ℕ × Index)) {p' : Progress}
      → ((n : ℕ) (index : Index) → r ≡ ok (n, index) → KeepsAtomic old index)
      → verify p r ≡ ok p'
      → KeepsAtomic old p'.index
  unfolding verify
  verify-KeepsAtomic p old (raise e) keep h = cc
  verify-KeepsAtomic p old (ok (n, index)) {p'} keep h =
      let same : index ≡ p'.index = ap (λ (q : Progress). q.index) (ok-injective h) in
      subst (KeepsAtomic old) same (keep n index refl)

  index_manifest-KeepsAtomic :
      (store : Dict String (List Bytes)) (key : String) (old : Option String) (index : Index)
      (n : ℕ) (index' : Index)
      → index_manifest sha256 sha256_bytes loads store key old index ≡ ok (n, index')
      → KeepsAtomic index index'
  index_manifest-KeepsAtomic store key old index n index' h =
      let entered =
        Accepted-Enters sha256 sha256_bytes loads store key old index n index'
          (index_manifest_lem sha256 sha256_bytes loads store key old index h) in
      (Enters-IsAtomic key index index' entered, Enters-Extends key index index' entered)

  pub refresh_key-KeepsAtomic :
      (audit : Bool) (store : Dict String (List Bytes)) (key : String) (p : Progress)
      {p' : Progress}
      → refresh_key sha256 sha256_bytes loads audit store key p ≡ ok p'
      → KeepsAtomic p.index p'.index
  unfolding refresh_key
  refresh_key-KeepsAtomic audit store key p {p'} h =
      let (_, r) = raise_if-eq-ok (member key p.scanned) _ _ h in
      elim (Bool-cases (contains key p.index.manifests && not audit)) [
        | inl skip ↦
            let same : p.index ≡ p'.index =
              ap (λ (q : Progress). q.index) (ok-injective (rw skip at r)) in
            subst (KeepsAtomic p.index) same (KeepsAtomic-refl p.index)
        | inr check ↦
            verify-KeepsAtomic (record p { scanned = key ∷ p.scanned }) p.index
              (index_manifest sha256 sha256_bytes loads store key (lookup key p.index.manifests)
                p.index)
              (index_manifest-KeepsAtomic store key (lookup key p.index.manifests) p.index)
              (rw check at r)
      ]

  and_then-KeepsAtomic :
      (audit : Bool) (store : Dict String (List Bytes)) (l : List String) (p : Progress)
      (r : Result Progress)
      → ((p' : Progress) → r ≡ ok p' → KeepsAtomic p.index p'.index)
      → ((p' : Progress)
          → KeepsAtomic p'.index (refresh_from sha256 sha256_bytes loads audit store l p').1)
      → KeepsAtomic p.index (and_then r p (refresh_from sha256 sha256_bytes loads audit store l)).1
  unfolding and_then
  and_then-KeepsAtomic audit store l p (raise e) one rest = KeepsAtomic-refl p.index
  and_then-KeepsAtomic audit store l p (ok p') one rest =
      let (f, g) = one p' refl in
      let (f', g') = rest p' in
      (
        λ h. f' (f h),
        Extends-trans p.index p'.index (refresh_from sha256 sha256_bytes loads audit store l p').1 g
            g',
      )

  pub refresh_from-KeepsAtomic :
      (audit : Bool) (store : Dict String (List Bytes)) (l : List String) (p : Progress)
      → KeepsAtomic p.index (refresh_from sha256 sha256_bytes loads audit store l p).1
  unfolding refresh_from
  refresh_from-KeepsAtomic audit store [] p = KeepsAtomic-refl p.index
  refresh_from-KeepsAtomic audit store (key ∷ l) p =
      and_then-KeepsAtomic audit store l p (refresh_key sha256 sha256_bytes loads audit store key p)
        (λ p' h. refresh_key-KeepsAtomic audit store key p h)
        (refresh_from-KeepsAtomic audit store l)

  -- Whether `refresh` reports or raises: if each record of the index came with a manifest of the
  -- index and stands under its own topic, partition and offset, then so it is in the index that is
  -- left, and that has all the records and the manifests that the index had.
  pub refresh-IsAtomic :
      (audit : Bool) (store : Dict String (List Bytes)) (index : Index)
      → IsAtomic index
      → IsAtomic (refresh sha256 sha256_bytes loads audit store index).1
        × Extends index (refresh sha256 sha256_bytes loads audit store index).1
  unfolding refresh
  refresh-IsAtomic audit store index h =
      let (keep, extends) =
        refresh_from-KeepsAtomic audit store (iter_keys "manifests/" store) (start index) in
      (keep h, extends)
