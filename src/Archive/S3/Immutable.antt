-- ===== src/Archive/S3/Immutable.antt =====
-- An object in the bucket never changes.
use ad_pulse.Prelude.{ℕ, String, ◌≡◌, refl, sym, none, string_eq, nat_eq, ◌⊎◌, inl, inr, ok, arith}
use mathlib.Core.Path.{subst}
use ad_pulse.Prelude.Dict.{lookup, insert}
use ad_pulse.Archive.Objects.{Objects, get, put}
use ad_pulse.Archive.S3.{Answer, created, client_error, Client, after_answer, compare_with, s3_put}

-- What S3 documents of a PUT with `If-None-Match: *`: an object is created only under a key that has
-- none; otherwise, or on an error, the bucket is as before, except that an error may hide a creation.
pub record IsConditional (put_object : Client) : Type 0 where
  pub creates :
      (key content : String) (d : Objects)
      → (put_object key content d).0 ≡ created
      → (lookup key d ≡ none) × ((put_object key content d).1 ≡ insert key content d)
  pub refuses :
      (key content : String) (d : Objects) (status : ℕ)
      → (put_object key content d).0 ≡ client_error status
      → ((put_object key content d).1 ≡ d)
        ⊎ ((lookup key d ≡ none) × ((put_object key content d).1 ≡ insert key content d))

put_new :
    (key content : String) (d : Objects)
    → lookup key d ≡ none
    → put key content d ≡ ok (insert key content d)
unfolding put
put_new key content d h = ground arith

-- What is there is the content, and so it could be put again.
put_same :
    (key content : String) (d : Objects)
    → compare_with content (get key d) ≡ ok tt
    → put key content d ≡ ok d
unfolding put get
put_same key content d h = ground arith

-- The bucket is as before, or as `LocalObjects.put` leaves a directory.
abbrev pub Changes : String → String → Objects → Objects → Type 0
Changes key content d d' = (d' ≡ d) ⊎ (put key content d ≡ ok d')

refused :
    (key content : String) (status : ℕ) (d d' : Objects)
    → (d' ≡ d) ⊎ ((lookup key d ≡ none) × (d' ≡ insert key content d))
    → (after_answer key content (client_error status) d' ≡ ok tt → put key content d ≡ ok d')
      × Changes key content d d'
refused key content status d d' (inl same) = (
  λ h.
      subst (λ (x : Objects). put key content d ≡ ok x) (sym same)
        (put_same key content d
          (subst (λ (x : Objects). compare_with content (get key x) ≡ ok tt) same (ground arith))),
  inl same,
)
refused key content status d d' (inr (new, e)) =
    let done =
      subst (λ (x : Objects). put key content d ≡ ok x) (sym e) (put_new key content d new) in
    (λ h. done, inr done)

Answer-cases : (a : Answer) → (a ≡ created) ⊎ ((status : ℕ) × (a ≡ client_error status))
Answer-cases created = inl refl
Answer-cases (client_error status) = inr (status, refl)

module _ (put_object : Client) (conditional : IsConditional put_object) where
  -- `S3Objects.put` refines `LocalObjects.put`: if it returns, then that returns too and leaves the
  -- same objects; and if it raises, the bucket is as before or as that leaves it. The client creates
  -- an object only under a new key, and an error may hide a creation.
  pub s3_put-put :
      (key content : String) (d : Objects)
      → ((s3_put put_object key content d).0 ≡ ok tt
          → put key content d ≡ ok (s3_put put_object key content d).1)
        × Changes key content d (s3_put put_object key content d).1
  unfolding s3_put
  s3_put-put key content d = elim (Answer-cases (put_object key content d).0) [
    | inl e ↦
        let (new, changed) = conditional.creates key content d e in
        let done =
          subst (λ (x : Objects). put key content d ≡ ok x) (sym changed)
            (put_new key content d new) in
        (λ h. done, inr done)
    | inr (status, e) ↦ rw e (
        refused key content status d (put_object key content d).1
          (conditional.refuses key content d status e))
  ]
