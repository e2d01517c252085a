-- ===== src/Pagination.antt =====
-- adpulse/pagination.py, `CursorCodec`. The seal of a payload, its HMAC and base64 in the one
-- direction and the check and `json.loads` in the other, is a parameter.
pub mod RoundTrip
use ad_pulse.Prelude.{
  ℕ, ◌+◌, String, Bool, true, false, ◌&&◌, ◌||◌, not, List, [], ◌∷◌, Option, none, some,
  if◌then◌else◌, ◌==◌, string_eq, nat_eq, leb, length, Result, ok, raise, value_error,
}
use ad_pulse.Json.{Value, str, num, obj, Fields, end, field, digest}
use ad_pulse.Names.{codes, valid_release}
use ad_pulse.Oracle.Event.{◌>>=◌, text, number}
use ad_pulse.Storage.Page.{text_length}

abbrev pub cursor_ttl : ℕ
cursor_ttl = 1800

abbrev pub max_cursor_length : ℕ
max_cursor_length = 4096

-- The data of a cursor.
pub record Cursor : Type 0 where
  pub version : ℕ
  pub release : String
  pub kind : String
  pub after : String
  pub filters : String
  pub expires_at : ℕ

pub data Decoded : Type 0 where
  decoded : Cursor → Decoded
  invalid expired : Decoded

unfoldable pub filters_value : List (String × String) → Fields
filters_value [] = end
filters_value ((name, wanted) ∷ l) = field name (str wanted) (filters_value l)

unfoldable pub cursor_value : Cursor → Value
cursor_value c = obj (
    field "v" (num c.version) (
      field "release" (str c.release) (
        field "kind" (str c.kind) (
          field "after" (str c.after)
            (field "filters" (str c.filters) (field "expires_at" (num c.expires_at) end))))))

-- The reads of the data, where another type or a missing key makes the cursor invalid.
unfoldable pub read_cursor : Value → Option Cursor
unfolding text number
read_cursor (obj fs) = do
  version ← number "v" fs
  release ← text "release" fs
  kind ← text "kind" fs
  after ← text "after" fs
  filters ← text "filters" fs
  expires_at ← number "expires_at" fs
  some (record {
    version = version;
    release = release;
    kind = kind;
    after = after;
    filters = filters;
    expires_at = expires_at;
  })
read_cursor _ = none

-- `s.startswith("m:" if kind == "metric" else "a:")`
unfoldable pub has_prefix : String → List ℕ → Bool
has_prefix kind [] = false
has_prefix kind (x ∷ []) = false
has_prefix kind (x ∷ y ∷ l) = x == (if kind == "metric" then b'm' else b'a') && y == b':'

abbrev pub bounded : ℕ → String → Bool
bounded room s = leb 1 (text_length s) && leb (text_length s) room

abbrev pub names_release : Option String → String → Bool
names_release none release = true
names_release (some wanted) release = wanted == release

-- The scope of the cursor is that of the request.
unfoldable pub in_scope : String → String → Option String → Cursor → Bool
unfolding valid_release has_prefix codes
in_scope kind filters release c =
    c.version == 1
    && (c.kind == kind
        && (c.filters == filters
            && (valid_release c.release
                && (names_release release c.release
                    && (bounded 1500 c.after && has_prefix kind (codes c.after))))))

-- The data of an authentic token.
unfoldable pub opened : Option Value → Option Cursor
unfolding read_cursor
opened none = none
opened (some v) = read_cursor v

module _ (sha256 : String → String) (seal : Value → String) (unseal : String → Option Value)
    (clock : ℕ) where
  abbrev pub filters_digest : List (String × String) → String
  filters_digest filters = digest sha256 (obj (filters_value filters))

  -- `encode`: `expires_at` is that of the traversal, if there is one already.
  abbrev pub cursor_for : String → String → String → List (String × String) → Option ℕ → Cursor
  cursor_for release kind after filters expires_at = record {
    version = 1;
    release = release;
    kind = kind;
    after = after;
    filters = filters_digest filters;
    expires_at = elim expires_at [ some t ↦ t | none ↦ clock + cursor_ttl ];
  }

  unfoldable pub encode :
      String → String → String → List (String × String) → Option ℕ → Result String
  unfolding cursor_value filters_value codes
  encode release kind after filters expires_at =
      let token = seal (cursor_value (cursor_for release kind after filters expires_at)) in
      if not (bounded 1500 after)
      then raise (value_error "Result key exceeds the bounded cursor size")
      else if not (leb (text_length token) max_cursor_length)
      then raise (value_error "Result key exceeds the bounded cursor size")
      else ok token

  -- What `decode` does with the data of an authentic token.
  unfoldable pub judge_cursor :
      String → List (String × String) → Option String → Option Cursor → Decoded
  unfolding in_scope filters_value
  judge_cursor kind filters release none = invalid
  judge_cursor kind filters release (some c) =
      if not (in_scope kind (filters_digest filters) release c)
      then invalid
      else if leb c.expires_at clock
      then expired
      else decoded c

  unfoldable pub decode : String → String → List (String × String) → Option String → Decoded
  unfolding judge_cursor opened codes
  decode token kind filters release =
      if not (bounded max_cursor_length token)
      then invalid
      else judge_cursor kind filters release (opened (unseal token))
