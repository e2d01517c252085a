-- ===== src/Api.antt =====
-- adpulse/api.py, `release_id`, `result_page` and `_result_page`. `outage` is the reason of a
-- failed query, if it fails, and `table` what ClickHouse has for a release and kind.
pub mod Served
pub mod Inspected
pub mod Rows
use ad_pulse.Prelude.{
  ℕ, zero, suc, ◌+◌, ◌-◌, String, Bool, true, false, not, List, [], ◌∷◌, Option, none, some,
  if◌then◌else◌, ◌==◌, string_eq, Result, ok, raise, ◌>>=◌, ◌>>◌, raise_if, http_error,
}
use ad_pulse.Json.{Value, Fields}
use ad_pulse.Names.{valid_release}
use ad_pulse.Releases.{Db, Release, live, ReleaseKind, get_release, can_activate}
use ad_pulse.Storage.Page.{Entry, page}
use ad_pulse.Pagination.{Cursor, Decoded, decoded, invalid, expired, encode, decode}

pub record Response : Type 0 where
  pub release_id : String
  pub next_cursor : Option String
  pub has_more : Bool
  pub is_live : Bool
  pub rows : List Fields

-- `value or releases.active()`
unfoldable pub release_of : Option String → Db → Result String
release_of (some value) db = ok value
release_of none db = elim db.active_release [
  | some value ↦ ok value
  | none ↦ raise (http_error 409 "No active release; validate and activate one first")
]

abbrev pub live_kind : ReleaseKind → Bool
live_kind live = true
live_kind _ = false

-- The release, the key and the end of the traversal that a request names.
abbrev pub Position : Type 0
Position = Option String × (String × Option ℕ)

unfoldable pub position_of : Option String → Decoded → Result Position
position_of release (decoded c) = ok (some c.release, (c.after, some c.expires_at))
position_of release expired = raise (http_error 503 "CURSOR_EXPIRED")
position_of release invalid = raise (http_error 400 "Invalid cursor")

-- The checks of the release's row.
unfoldable pub serve_row : Option Release → Result Release
serve_row none = raise (http_error 404 "Unknown release")
serve_row (some r) =
    if can_activate (some r)
    then ok r
    else raise (http_error 409 "Release is not validated for serving")

-- `504 if outcome == "timeout" else 503`
unfoldable pub query_error : {A : Type 0} → String → Result A
query_error reason = raise (http_error (if reason == "timeout" then 504 else 503) reason)

module _ (sha256 : String → String) (seal : Value → String) (unseal : String → Option Value)
    (clock : ℕ) (outage : Option String) (table : String → String → List Entry) where
  unfoldable pub next_cursor_of :
      String → String → List (String × String) → Option ℕ → Option String → Result (Option String)
  unfolding encode
  next_cursor_of release kind filters expires_at none = ok none
  next_cursor_of release kind filters expires_at (some key) =
      elim (encode sha256 seal unseal clock release kind key filters expires_at) [
        | ok token ↦ ok (some token)
        | raise _ ↦ raise (http_error 422 "Result key exceeds cursor capacity")
      ]

  unfoldable pub position :
      String → List (String × String) → Option String → Option String → Result Position
  unfolding decode position_of
  position kind filters release none = ok (release, ("", none))
  position kind filters release (some token) =
      position_of release (decode sha256 seal unseal clock token kind filters release)

  unfoldable pub query :
      String → String → ℕ → List (String × String) → String → Result (List Fields × Option String)
  unfolding page query_error
  query release kind limit filters after = elim outage [
    | some reason ↦ query_error reason
    | none ↦ page release kind limit filters (table release kind) after
  ]

  -- `_result_page`
  unfoldable pub serve_page :
      String → Option String → Option String → ℕ → List (String × String) → Db → Result Response
  unfolding position release_of valid_release get_release serve_row query next_cursor_of
  serve_page kind release cursor limit filters db = do
    at ← position kind filters release cursor
    selected ← release_of at.0 db
    raise_if (not (valid_release selected)) (http_error 422 "Invalid release identifier")
    metadata ← serve_row (get_release selected db)
    found ← query selected kind limit filters at.1.0
    next ← next_cursor_of selected kind filters at.1.1 found.1
    ok (record {
      release_id = selected;
      next_cursor = next;
      has_more = elim next [ some _ ↦ true | none ↦ false ];
      is_live = live_kind metadata.kind;
      rows = found.0;
    })

  -- `result_page`: the semaphore's count, and what it is when the request is done.
  unfoldable pub result_page :
      String
      → Option String
      → Option String
      → ℕ
      → List (String × String)
      → Db
      → ℕ
      → ℕ × Result Response
  unfolding serve_page
  result_page kind release cursor limit filters db zero =
      (zero, raise (http_error 503 "QUERY_OVERLOADED"))
  result_page kind release cursor limit filters db (suc slots) =
      (slots + 1, serve_page kind release cursor limit filters db)
