-- ===== src/Archive/Refresh/Verified.antt =====
-- What a successful refresh has checked of the archive.
use mathlib.Core.Path.{subst}
use ad_pulse.Prelude.{
  ℕ, String, ◌≡◌, refl, ap, sym, ◌∙◌, Bool, true, false, ◌&&◌, ◌||◌, not, List, [], ◌∷◌, ◌==◌,
  string_eq, nat_eq, pair_eq, option_eq, Result, ok, raise, raise_if-eq-ok, ok-injective, inl, inr,
  arith, Bool-cases,
}
use ad_pulse.Prelude.Dict.{keys, member-keys, Dict, lookup, contains, lookup-insert}
use ad_pulse.Prelude.Distinct.{member}
use ad_pulse.Json.{Value, value_eq}
use ad_pulse.Archive.Chunks.{Bytes}
use ad_pulse.Archive.Refresh.{
  Index, index_manifest, Progress, verify, refresh_key, and_then, refresh_from, refresh, start,
  iter_keys,
}
use ad_pulse.Archive.Refresh.Accepted.{Enters, Accepted, index_manifest_lem, Accepted-Enters}
use ad_pulse.Archive.Refresh.{conclude, has_lost, Report}
use ad_pulse.Archive.Refresh.Atomic.{
  Extends-trans, Extends, refresh_key-KeepsAtomic, contains-insert_self,
}
use ad_pulse.Archive.Refresh.Stored.{IsVerified, IsVerified-Extends, Accepted-IsVerified}

Enters-contains :
    (key : String) (old new : Index) → Enters key old new → contains key new.manifests ≡ true
Enters-contains key old new n =
    subst (λ (i : Index). contains key i.manifests ≡ true) n.is_new
      (contains-insert_self key n.hash n.grown.manifests)

Enters-others :
    (key : String) (old new : Index)
    → Enters key old new
    → (j : String) → (j == key) ≡ false
    → contains j new.manifests ≡ contains j old.manifests
Enters-others key old new n j other =
    subst (λ (i : Index). contains j i.manifests ≡ contains j old.manifests) n.is_new
      (rw (lookup-insert j key n.hash n.grown.manifests, other, n.grows.same_manifests) refl)

not_lost :
    (l scanned : List String) (key : String)
    → has_lost l scanned ≡ false
    → member key l ≡ true
    → member key scanned ≡ true
unfolding has_lost member
not_lost [] scanned key h m = absurd (cc)
not_lost (k ∷ l) scanned key h m = ground (arith, not_lost l scanned key)

listed_only :
    (key : String) (d : Dict String String) (scanned : List String)
    → has_lost (keys d) scanned ≡ false
    → member key scanned ≡ false
    → contains key d ≡ false
listed_only key d scanned h m = ground (arith, not_lost (keys d) scanned key, member-keys key d)

and_left : (a b : Bool) → (a && b) ≡ true → a ≡ true
and_left a b h = ground arith

module _ (sha256 : String → String) (sha256_bytes : Bytes → String)
    (loads : Bytes → Result Value) where
  -- What the loop has done for a key that it has passed.
  abbrev Passed : Bool → Dict String (List Bytes) → Index → Index → String → Type 0
  Passed audit store old new key =
      (contains key new.manifests ≡ true)
      × ((contains key old.manifests && not audit) ≡ false
          → IsVerified sha256 sha256_bytes loads store key new)

  -- An iteration touches no other manifest.
  abbrev Step : Bool → Dict String (List Bytes) → Index → Index → String → Type 0
  Step audit store old new key =
      Passed audit store old new key
      × ((j : String) → (j == key) ≡ false → contains j new.manifests ≡ contains j old.manifests)

  verify-Step :
      (audit : Bool) (store : Dict String (List Bytes)) (key : String) (p : Progress)
      (index : Index) (r : Result (ℕ × Index)) {p' : Progress}
      → ((n : ℕ) (new : Index)
          → r ≡ ok (n, new)
          → Accepted sha256 sha256_bytes loads store key (lookup key index.manifests) index n new)
      → verify p r ≡ ok p'
      → Step audit store index p'.index key
  unfolding verify
  verify-Step audit store key p index (raise e) accepted h = absurd (cc)
  verify-Step audit store key p index (ok (n, new)) accepted h =
      let a = accepted n new refl in
      let entered =
        Accepted-Enters sha256 sha256_bytes loads store key (lookup key index.manifests) index n new
          a in
      subst (λ (i : Index). Step audit store index i key)
        (ap (λ (q : Progress). q.index) (ok-injective h))
        (
          (
            Enters-contains key index new entered,
            λ _.
                Accepted-IsVerified sha256 sha256_bytes loads store key (lookup key index.manifests)
                  index n new a,
          ),
          Enters-others key index new entered,
        )

  refresh_key-Step :
      (audit : Bool) (store : Dict String (List Bytes)) (key : String) (p : Progress)
      {p' : Progress}
      → refresh_key sha256 sha256_bytes loads audit store key p ≡ ok p'
      → Step audit store p.index p'.index key
  unfolding refresh_key
  refresh_key-Step audit store key p {p'} h =
      let (_, r) = raise_if-eq-ok (member key p.scanned) _ _ h in
      elim (Bool-cases (contains key p.index.manifests && not audit)) [
        | inl skip ↦
            subst (λ (i : Index). Step audit store p.index i key)
              (ap (λ (q : Progress). q.index) (ok-injective (rw skip at r)))
              (
                (
                  and_left (contains key p.index.manifests) (not audit) skip,
                  λ checked. absurd (cc),
                ),
                λ j other. refl,
              )
        | inr check ↦
            verify-Step audit store key (record p { scanned = key ∷ p.scanned }) p.index
              (index_manifest sha256 sha256_bytes loads store key (lookup key p.index.manifests)
                p.index)
              (λ n new e.
                index_manifest_lem sha256 sha256_bytes loads store key
                  (lookup key p.index.manifests) p.index e)
              (rw check at r)
      ]

  verify-scanned :
      (p : Progress) (r : Result (ℕ × Index)) {p' : Progress}
      → verify p r ≡ ok p'
      → p'.scanned ≡ p.scanned
  unfolding verify
  verify-scanned p (raise e) h = absurd (cc)
  verify-scanned p (ok (n, new)) h = sym (ap (λ (q : Progress). q.scanned) (ok-injective h))

  refresh_key-scanned :
      (audit : Bool) (store : Dict String (List Bytes)) (key : String) (p : Progress)
      {p' : Progress}
      → refresh_key sha256 sha256_bytes loads audit store key p ≡ ok p'
      → p'.scanned ≡ key ∷ p.scanned
  unfolding refresh_key
  refresh_key-scanned audit store key p {p'} h =
      let (_, r) = raise_if-eq-ok (member key p.scanned) _ _ h in
      elim (Bool-cases (contains key p.index.manifests && not audit)) [
        | inl skip ↦ sym (ap (λ (q : Progress). q.scanned) (ok-injective (rw skip at r)))
        | inr check ↦
            verify-scanned (record p { scanned = key ∷ p.scanned })
              (index_manifest sha256 sha256_bytes loads store key (lookup key p.index.manifests)
                p.index)
              (rw check at r)
      ]

  Passed-Step :
      (audit : Bool) (store : Dict String (List Bytes)) (old next new : Index) (key j : String)
      → Step audit store old next key
      → Extends next new
      → ((j == key) ≡ false → Passed audit store next new j)
      → Passed audit store old new j
  Passed-Step audit store old next new key j step extends later = elim (Bool-cases (j == key)) [
    | inl same ↦
        let e : key ≡ j = ground arith in
        subst (λ (k : String). Passed audit store old new k) e
          (
            extends.1 key step.0.0,
            λ unseen.
                IsVerified-Extends sha256 sha256_bytes loads store key next new extends
                  (step.0.1 unseen),
          )
    | inr other ↦
        let (there, verified) = later other in
        (there, λ unseen. verified (rw (step.1 j other) unseen))
  ]

  -- What the loop has done for its keys when it ends without an error.
  record Ended (audit : Bool) (store : Dict String (List Bytes)) (l : List String) (p p' : Progress)
      (new : Index) : Type 0 where
    same : p'.index ≡ new
    extends : Extends p.index new
    passed : (j : String) → member j l ≡ true → Passed audit store p.index new j
    scanned : (j : String) → member j p'.scanned ≡ (member j l || member j p.scanned)

  and_then-Ended :
      (audit : Bool) (store : Dict String (List Bytes)) (key : String) (l : List String)
      (p : Progress) (r : Result Progress) {p' : Progress}
      → ((q : Progress) → r ≡ ok q → refresh_key sha256 sha256_bytes loads audit store key p ≡ ok q)
      → ((q : Progress)
          → (refresh_from sha256 sha256_bytes loads audit store l q).0 ≡ ok p'
          → Ended audit store l q p' (refresh_from sha256 sha256_bytes loads audit store l q).1)
      → (and_then r p (refresh_from sha256 sha256_bytes loads audit store l)).0 ≡ ok p'
      → Ended audit store
          (key ∷ l)
          p
          p'
          (and_then r p (refresh_from sha256 sha256_bytes loads audit store l)).1
  unfolding and_then member
  and_then-Ended audit store key l p (raise e) one rest h = absurd (cc)
  and_then-Ended audit store key l p (ok q) {p'} one rest h =
      let e = one q refl in
      let later = rest q h in
      let new = (refresh_from sha256 sha256_bytes loads audit store l q).1 in
      let step = refresh_key-Step audit store key p e in
      record {
        same = later.same;
        extends =
            Extends-trans p.index q.index new
              (refresh_key-KeepsAtomic sha256 sha256_bytes loads audit store key p e).1
              later.extends;
        passed = λ j m.
            Passed-Step audit store p.index q.index new key j step later.extends
              (λ other. later.passed j (ground arith));
        scanned =
            λ j. later.scanned j ∙ rw (refresh_key-scanned audit store key p e) (ground arith);
      }

  refresh_from-Ended :
      (audit : Bool) (store : Dict String (List Bytes)) (l : List String) (p : Progress)
      {p' : Progress}
      → (refresh_from sha256 sha256_bytes loads audit store l p).0 ≡ ok p'
      → Ended audit store l p p' (refresh_from sha256 sha256_bytes loads audit store l p).1
  unfolding refresh_from member
  refresh_from-Ended audit store [] p {p'} h =
      let e : p ≡ p' = ok-injective h in
      record {
        same = rw (← e) refl;
        extends = (λ id e f. f, λ key c. c);
        passed = λ j m. absurd (cc);
        scanned = λ j. rw (← e) refl;
      }
  refresh_from-Ended audit store (key ∷ l) p h =
      and_then-Ended audit store key l p (refresh_key sha256 sha256_bytes loads audit store key p)
        (λ q e. e) (λ q e. refresh_from-Ended audit store l q e) h

  conclude-eq-ok :
      (audit : Bool) (r : Result Progress) {report : Report}
      → conclude audit r ≡ ok report
      → (p : Progress) × (r ≡ ok p) × (has_lost (keys p.index.manifests) p.scanned ≡ false)
  unfolding conclude
  conclude-eq-ok audit (raise e) h = absurd (cc)
  conclude-eq-ok audit (ok p) h =
      (p, refl, (raise_if-eq-ok (has_lost (keys p.index.manifests) p.scanned) _ _ h).0)

  -- If `refresh` reports, then the manifests of the index that is left are exactly the listed ones.
  -- For each that the index had not, and with `audit` for each, the store has the manifest and its
  -- data object; the object has the hash of the manifest and a line for each reference; and each
  -- line is a row with the place and the content hash of its reference, which the index has.
  pub refresh-IsVerified :
      (audit : Bool) (store : Dict String (List Bytes)) (index : Index) {report : Report}
      → (refresh sha256 sha256_bytes loads audit store index).0 ≡ ok report
      → let new = (refresh sha256 sha256_bytes loads audit store index).1 in
        ((key : String) → contains key new.manifests ≡ member key (iter_keys "manifests/" store))
        × ((key : String)
            → member key (iter_keys "manifests/" store) ≡ true
            → (contains key index.manifests && not audit) ≡ false
            → IsVerified sha256 sha256_bytes loads store key new)
  unfolding refresh member
  refresh-IsVerified audit store index h =
      let listed = iter_keys "manifests/" store in
      let (p, e, none_lost) =
        conclude-eq-ok audit
          (refresh_from sha256 sha256_bytes loads audit store listed (start index)).0 h in
      let ended = refresh_from-Ended audit store listed (start index) e in
      (
        λ key. elim (Bool-cases (member key listed)) [
          | inl m ↦ (ended.passed key m).0 ∙ sym m
          | inr other ↦
              subst (λ (i : Index). contains key i.manifests ≡ member key listed) ended.same
                (listed_only key p.index.manifests p.scanned none_lost
                    (ended.scanned key ∙ rw other refl)
                  ∙ sym other)
        ],
        λ key m unseen. (ended.passed key m).1 unseen,
      )
