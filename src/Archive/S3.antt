-- ===== src/Archive/S3.antt =====
-- adpulse/archive.py, `S3Objects.put` and `get`. The client of the bucket is a parameter: what a
-- conditional PUT answers, and the bucket after it.
pub mod Immutable
use ad_pulse.Prelude.{
  ℕ, String, Bool, true, false, ◌||◌, not, Option, none, some, if◌then◌else◌, ◌==◌, string_eq,
  nat_eq, Result, ok, raise, value_error, runtime_error,
}
use ad_pulse.Archive.Objects.{Objects, get}

-- The answer to `put_object`: the object was created, or a `ClientError` with its HTTP status.
pub data Answer : Type 0 where
  created : Answer
  client_error : ℕ → Answer

-- `put_object(Key=key, Body=data, IfNoneMatch="*")`
abbrev pub Client : Type 0
Client = String → String → Objects → Answer × Objects

-- `if self.get(key) != data: raise`
abbrev pub compare_with : String → Result String → Result (Unit {0})
compare_with content (raise e) = raise e
compare_with content (ok old) =
    if not (old == content) then raise (value_error "Immutable S3 archive conflict") else ok tt

abbrev pub after_answer : String → String → Answer → Objects → Result (Unit {0})
after_answer key content created objects = ok tt
after_answer key content (client_error status) objects =
    if not (status == 409 || status == 412)
    then raise (runtime_error "ClientError")
    else compare_with content (get key objects)

-- `S3Objects.put`: whether it returns, and the bucket.
unfoldable pub s3_put : Client → String → String → Objects → Result (Unit {0}) × Objects
unfolding get
s3_put put_object key content objects =
    let (answer, objects') = put_object key content objects in
    (after_answer key content answer objects', objects')
