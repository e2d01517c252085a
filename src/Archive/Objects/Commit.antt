-- ===== src/Archive/Objects/Commit.antt =====
-- Archived objects never change, and a manifest is never without its data.
use ad_pulse.Prelude.{
  ℕ, zero, suc, String, ◌≡◌, refl, true, List, [], ◌∷◌, some, string_eq, ok, >>=-eq-ok, arith,
  ok-injective,
}
use mathlib.Core.Path.{subst}
use ad_pulse.Prelude.Dict.{lookup, contains, lookup-insert}
use ad_pulse.Json.{canonical}
use ad_pulse.Archive.Reconcile.{Archived}
use ad_pulse.Archive.Objects.{
  Objects, put, put_first, puts_of, data_key, manifest_key, body_of, batch_manifest,
}

pub put_keeps :
    (key content : String) (d : Objects) {d' : Objects} (k v : String)
    → put key content d ≡ ok d'
    → lookup k d ≡ some v
    → lookup k d' ≡ some v
unfolding put
put_keeps key content d k v e h = ground (arith, lookup-insert k key content d)

pub lookup-put :
    (key content : String) (d : Objects) {d' : Objects}
    → put key content d ≡ ok d'
    → lookup key d' ≡ some content
unfolding put
lookup-put key content d e = ground (arith, lookup-insert key key content d)

put_again :
    (key content : String) (d : Objects) → lookup key d ≡ some content → put key content d ≡ ok d
unfolding put
put_again key content d h = ground arith

module _ (sha256 : String → String) where
  put_first_keeps :
      (n : ℕ) (l : List (String × String)) (d : Objects) {d' : Objects} (k v : String)
      → put_first sha256 n l d ≡ ok d'
      → lookup k d ≡ some v
      → lookup k d' ≡ some v
  unfolding put_first
  put_first_keeps zero l d k v e h = subst (λ x. lookup k x ≡ some v) (ok-injective e) h
  put_first_keeps (suc n) [] d k v e h = subst (λ x. lookup k x ≡ some v) (ok-injective e) h
  put_first_keeps (suc n) ((key, content) ∷ l) d k v e h =
      let (d₁, e₁, e₂) = >>=-eq-ok (put key content d) _ e in
      put_first_keeps n l d₁ k v e₂ (put_keeps key content d k v e₁ h)

  -- The manifest of the batch is there only with its data.
  abbrev pub IsBacked : List Archived → Objects → Type 0
  IsBacked records d =
      contains (manifest_key sha256 records) d ≡ true
      → lookup (data_key sha256 records) d ≡ some (body_of sha256 records)

  put_first-IsBacked :
      (records : List Archived) (n : ℕ) (d : Objects) {d' : Objects}
      → put_first sha256 n (puts_of sha256 records) d ≡ ok d'
      → IsBacked records d
      → IsBacked records d'
  unfolding put_first puts_of
  put_first-IsBacked records zero d e h = subst (IsBacked records) (ok-injective e) h
  put_first-IsBacked records (suc n) d e h =
      let (d₁, e₁, e₂) = >>=-eq-ok (put (data_key sha256 records) (body_of sha256 records) d) _ e in
      λ _.
        put_first_keeps n _ d₁ (data_key sha256 records) (body_of sha256 records) e₂
          (lookup-put _ _ d e₁)

  put_first_again :
      (records : List Archived) (d : Objects) {d' : Objects}
      → put_first sha256 2 (puts_of sha256 records) d ≡ ok d'
      → put_first sha256 2 (puts_of sha256 records) d' ≡ ok d'
  unfolding put_first puts_of
  put_first_again records d {d'} e =
      let (d₁, e₁, r₁) = >>=-eq-ok (put (data_key sha256 records) (body_of sha256 records) d) _ e in
      let (d₂, e₂, r₂) =
        >>=-eq-ok (put (manifest_key sha256 records) (canonical (batch_manifest sha256 records)) d₁)
          _ r₁ in
      let content : lookup (data_key sha256 records) d' ≡ some (body_of sha256 records) =
        subst (λ x. lookup (data_key sha256 records) x ≡ some (body_of sha256 records))
          (ok-injective r₂)
          (put_keeps _ _ d₁ (data_key sha256 records) (body_of sha256 records) e₂
            (lookup-put _ _ d e₁)) in
      let manifest : lookup (manifest_key sha256 records) d'
          ≡ some (canonical (batch_manifest sha256 records)) =
        subst
          (λ x.
            lookup (manifest_key sha256 records) x
            ≡ some (canonical (batch_manifest sha256 records)))
          (ok-injective r₂) (lookup-put _ _ d₁ e₂) in
      rw (put_again _ _ d' content, put_again _ _ d' manifest) refl

  -- After any number of the puts of a batch: every object that was there has its content, and if
  -- the manifest of the batch was backed by its data before, it is now. After all of them the same
  -- batch is accepted again and changes nothing.
  pub archive_batch_commit :
      (records : List Archived) (d : Objects)
      → ((n : ℕ) (d' : Objects)
          → put_first sha256 n (puts_of sha256 records) d ≡ ok d'
          → ((k v : String) → lookup k d ≡ some v → lookup k d' ≡ some v)
            × (IsBacked records d → IsBacked records d'))
        × ((d' : Objects)
            → put_first sha256 2 (puts_of sha256 records) d ≡ ok d'
            → put_first sha256 2 (puts_of sha256 records) d' ≡ ok d')
  archive_batch_commit records d = (
    (λ n d' e. (
      (λ k v h. put_first_keeps n (puts_of sha256 records) d k v e h),
      put_first-IsBacked records n d e,
    )),
    λ d' e. put_first_again records d e,
  )
