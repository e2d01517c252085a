-- ===== src/Inspection.antt =====
-- adpulse/inspection.py: the snapshots that the background inspections publish and the API reads.
-- The directory is a dictionary of texts by file names. A time is a whole number of seconds, and
-- `loads` is `json.loads` on a text.
pub mod Published
pub mod Runs
pub mod Metrics
use Prim.Native.String.{len, ◌++◌ as str_append}
use ad_pulse.Prelude.{
  ℕ, zero, suc, ◌+◌, ◌-◌, String, Bool, true, false, ◌&&◌, ◌||◌, not, List, [], ◌∷◌, Option, none,
  some, if◌then◌else◌, ◌==◌, string_eq, nat_eq, ltb, Result, ok, raise, ◌>>=◌, ◌>>◌, raise_if,
  or_raise, Exception, value_error, key_error, runtime_error, type_error, timeout_error, os_error,
  database_error, snapshot_unavailable, page_error, http_error,
}
use ad_pulse.Prelude.Dict.{Dict, lookup, insert}
use ad_pulse.Json.{Value, null, num, str, obj, Fields, end, field, canonical, value_eq}
use ad_pulse.Storage.Payload.{number_at, value_at}
use ad_pulse.Archive.Reconcile.{object}

abbrev pub max_snapshot_bytes : ℕ
max_snapshot_bytes = 4194304

abbrev pub Files : Type 0
Files = Dict String String

-- `OSError`, `ValueError`, `KeyError` and `TypeError` become `SnapshotUnavailable`.
unfoldable pub unavailable : {A : Type 0} → Result A → Result A
unavailable (ok a) = ok a
unavailable (raise (os_error _)) = raise (snapshot_unavailable "Inspection unavailable or expired")
unavailable (raise (value_error _)) =
    raise (snapshot_unavailable "Inspection unavailable or expired")
unavailable (raise (key_error _)) = raise (snapshot_unavailable "Inspection unavailable or expired")
unavailable (raise (type_error _)) =
    raise (snapshot_unavailable "Inspection unavailable or expired")
unavailable (raise e) = raise e

-- The age is below minus five seconds or above `max_age`.
unfoldable pub is_stale : ℕ → ℕ → ℕ → Bool
is_stale max_age clock generated_at =
    ltb (clock + 5) generated_at || ltb (generated_at + max_age) clock

-- `kind + ".json"`
abbrev pub target_of : String → String
target_of kind = str_append kind ".json"

module _ (loads : String → Result Value) where
  -- The checks of what was read.
  unfoldable pub check_snapshot : String → ℕ → ℕ → String → Result Fields
  unfolding object number_at value_at is_stale
  check_snapshot kind max_age clock text = do
    raise_if (ltb max_snapshot_bytes (len text)) (value_error "snapshot size")
    parsed ← loads text
    result ← object parsed
    generated_at ← number_at "generated_at" result
    version ← value_at "schema_version" result
    found_kind ← value_at "kind" result
    status ← value_at "status" result
    raise_if (not (version == num 1) || (not (found_kind == str kind) || not (status == str "ok")))
        (value_error "last inspection failed")
    raise_if (is_stale max_age clock generated_at) (value_error "snapshot stale")
    ok result

  -- `read_snapshot`
  unfoldable pub read_snapshot : String → ℕ → ℕ → Files → Result Fields
  unfolding lookup check_snapshot unavailable
  read_snapshot kind max_age clock files = do
    raise_if (not (kind == "coverage" || kind == "metrics")) (value_error "Unknown inspection kind")
    unavailable (
        or_raise (lookup (target_of kind) files) (os_error (target_of kind)) >>= λ text.
        check_snapshot kind max_age clock text)

-- `type(error).__name__`
unfoldable pub error_name : Exception → String
error_name (value_error _) = "ValueError"
error_name (key_error _) = "KeyError"
error_name (runtime_error _) = "RuntimeError"
error_name (type_error _) = "TypeError"
error_name (timeout_error _) = "TimeoutError"
error_name (os_error _) = "OSError"
error_name (database_error _) = "OperationalError"
error_name (snapshot_unavailable _) = "SnapshotUnavailable"
error_name (page_error _) = "PageQueryError"
error_name (http_error _ _) = "HTTPException"

-- When an inspection started, when its result was made, and the later reading of the clock that
-- gives the duration.
pub record Times : Type 0 where
  pub started_at : ℕ
  pub generated_at : ℕ
  pub finished_at : ℕ

abbrev pub status_of : Option Exception → String
status_of none = "ok"
status_of (some _) = "error"

abbrev pub payload_or_null : Value → Option Exception → Value
payload_or_null payload none = payload
payload_or_null payload (some _) = null

abbrev pub error_value : Option Exception → Value
error_value none = null
error_value (some e) = str (error_name e)

-- `result`
unfoldable pub result_of : String → Value → Times → Option Exception → Fields
unfolding error_name
result_of kind payload times error = field "schema_version" (num 1) (
    field "kind" (str kind) (
      field "status" (str (status_of error)) (
        field "generated_at" (num times.generated_at) (
          field "started_at" (num times.started_at) (
            field "duration_seconds" (num (times.finished_at - times.started_at)) (
              field "payload" (payload_or_null payload error)
                (field "error_type" (error_value error) end)))))))

-- The text that is written.
unfoldable pub text_of : Fields → String
text_of result = str_append (canonical (obj result)) "\n"

-- The calls on the file system: `open("xb")`, a write that completes or not, `os.replace` and
-- `unlink(missing_ok=True)`.
pub data Call : Type 0 where
  open_new : String → Call
  write_text : String → String → Call
  replace : String → String → Call
  unlink : String → Call

unfoldable pub remove : String → Files → Files
remove name [] = []
remove name ((n, t) ∷ l) = let rest = remove name l in if name == n then rest else (n, t) ∷ rest

unfoldable pub move : Option String → String → String → Files → Result Files
unfolding remove insert
move none temp target files = raise (os_error temp)
move (some text) temp target files = ok (insert target text (remove temp files))

unfoldable pub create_file : Option String → String → Files → Result Files
unfolding insert
create_file (some _) name files = raise (os_error name)
create_file none name files = ok (insert name "" files)

unfoldable pub perform : Call → Files → Result Files
unfolding lookup insert create_file move remove
perform (open_new name) files = create_file (lookup name files) name files
perform (write_text name text) files = ok (insert name text files)
perform (replace temp target) files = move (lookup temp files) temp target files
perform (unlink name) files = ok (remove name files)

unfoldable pub perform_all : List Call → Files → Result Files
unfolding perform
perform_all [] files = ok files
perform_all (c ∷ l) files = do files' ← perform c files; perform_all l files'

-- The calls of `publish`, the last of which is the `finally` clause; the write first reaches
-- `partial`, a text that a crash may leave.
unfoldable pub calls_of : String → String → String → String → List Call
calls_of temp target partial text =
    open_new temp
    ∷ write_text temp partial
    ∷ write_text temp text
    ∷ replace temp target
    ∷ unlink temp
    ∷ []

-- After the calls, or after one that failed, the temporary file is removed.
unfoldable pub finish : String → Fields → Result Files → Files → Result Fields × Files
unfolding remove
finish temp result (ok files') files = (ok result, remove temp files')
finish temp result (raise e) files = (raise e, remove temp files)

-- `publish`: the result or an error, and the files that are left.
unfoldable pub publish :
    String → String → Value → Times → Option Exception → Files → Result Fields × Files
unfolding result_of text_of calls_of perform_all finish
publish temp kind payload times error files =
    let result = result_of kind payload times error in
    if ltb max_snapshot_bytes (len (text_of result))
    then (raise (value_error "Inspection snapshot exceeds byte budget"), files)
    else finish temp result
        (perform_all (calls_of temp (target_of kind) (text_of result) (text_of result)) files) files

-- `_run_locked`, with what the inspection of the kind gives or raises. An error of the first
-- `publish` is handled like one of the inspection; then the second `publish` may raise its own.
unfoldable pub reraise : Exception → Result Fields × Files → Result Fields × Files
reraise e (raise f, files) = (raise f, files)
reraise e (ok _, files) = (raise e, files)

unfoldable pub or_publish_error :
    String → String → Times → Result Fields × Files → Result Fields × Files
unfolding publish reraise
or_publish_error temp kind times (ok result, files) = (ok result, files)
or_publish_error temp kind times (raise e, files) =
    reraise e (publish temp kind null times (some e) files)

unfoldable pub run_locked :
    String → String → String → Times → Result Value → Files → Result Fields × Files
unfolding publish or_publish_error
run_locked temp second kind times (ok payload) files =
    or_publish_error second kind times (publish temp kind payload times none files)
run_locked temp second kind times (raise e) files =
    or_publish_error second kind times (raise e, files)

-- `run_once`: without `wait_lock` a lock that another process holds is an error.
unfoldable pub run_once :
    String → String → String → Times → Bool → Bool → Result Value → Files → Result Fields × Files
unfolding run_locked
run_once temp second kind times is_held wait_lock outcome files =
    if is_held && not wait_lock
    then (raise (os_error "Resource temporarily unavailable"), files)
    else run_locked temp second kind times outcome files
