-- ===== src/Tests/S3.antt =====
-- adpulse/archive.py: a PUT of an object that the bucket has with other content.
use ad_pulse.Prelude.{
  String, ◌≡◌, refl, [], ◌∷◌, Option, none, some, string_eq, inl, inr, ok, raise, value_error,
  String_discrete, ℕ_discrete, ◌⊎◌,
}
use ad_pulse.Prelude.Dict.{lookup, insert}
use ad_pulse.Archive.Objects.{Objects, put}
use ad_pulse.Archive.S3.{Answer, created, client_error, Client, s3_put}
use ad_pulse.Archive.S3.Immutable.{IsConditional, Changes, s3_put-put}

-- A bucket that answers every PUT.
abbrev answer_to : Option String → String → String → Objects → Answer × Objects
answer_to none key content d = (created, insert key content d)
answer_to (some old) key content d = (client_error 412, d)

abbrev bucket : Client
bucket key content d = answer_to (lookup key d) key content d

answer_to-creates :
    (found : Option String) (key content : String) (d : Objects)
    → (answer_to found key content d).0 ≡ created
    → (found ≡ none) × ((answer_to found key content d).1 ≡ insert key content d)
answer_to-creates none key content d h = (refl, refl)
answer_to-creates (some old) key content d h = absurd (cc)

answer_to-refuses :
    (found : Option String) (key content : String) (d : Objects)
    → ((answer_to found key content d).1 ≡ d)
      ⊎ ((found ≡ none) × ((answer_to found key content d).1 ≡ insert key content d))
answer_to-refuses none key content d = inr (refl, refl)
answer_to-refuses (some old) key content d = inl refl

bucket-IsConditional : IsConditional bucket
bucket-IsConditional = record {
  creates = λ key content d h. answer_to-creates (lookup key d) key content d h;
  refuses = λ key content d status h. answer_to-refuses (lookup key d) key content d;
}

abbrev objects : Objects
objects = ("data/a", "one") ∷ []

conflict_run :
    s3_put bucket "data/a" "two" objects
    ≡ (raise (value_error "Immutable S3 archive conflict"), objects)
unfolding s3_put lookup String_discrete ℕ_discrete
conflict_run = refl

s3_put-put_example :
    ((s3_put bucket "data/b" "two" objects).0 ≡ ok tt
      → put "data/b" "two" objects ≡ ok (s3_put bucket "data/b" "two" objects).1)
    × Changes "data/b" "two" objects (s3_put bucket "data/b" "two" objects).1
s3_put-put_example = s3_put-put bucket bucket-IsConditional "data/b" "two" objects
