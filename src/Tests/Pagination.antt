-- ===== src/Tests/Pagination.antt =====
-- adpulse/pagination.py with a cursor of the metric rows of one region.
use ad_pulse.Prelude.{
  ◌<◌, String, ◌≡◌, refl, true, List, [], ◌∷◌, Option, none, some, ok, ℕ_discrete, String_discrete,
}
use ad_pulse.Json.{Value, get_field, digest}
use ad_pulse.Names.{codes, valid_release}
use ad_pulse.Pagination.{
  Cursor, decoded, cursor_value, read_cursor, names_release, filters_digest, encode, decode,
  has_prefix,
}
use ad_pulse.Pagination.RoundTrip.{cursor_round_trip, decode_scope}

abbrev hash : String → String
hash s = "digest"

abbrev filters : List (String × String)
filters = ("region", "EU") ∷ []

abbrev cursor : Cursor
cursor = record {
  version = 1;
  release = "r1";
  kind = "metric";
  after = "m:k";
  filters = "digest";
  expires_at = 5000;
}

abbrev seal : Value → String
seal v = "token"

abbrev unseal : String → Option Value
unseal t = some (cursor_value cursor)

encoded : encode hash seal unseal 4000 "r1" "metric" "m:k" filters (some 5000) ≡ ok "token"
unfolding encode codes ℕ_discrete
encoded = refl

named : valid_release "r1" ≡ true
unfolding valid_release ℕ_discrete
named = refl

prefixed : has_prefix "metric" (codes "m:k") ≡ true
unfolding has_prefix codes ℕ_discrete String_discrete
prefixed = refl

same_name : names_release (some "r1") "r1" ≡ true
unfolding String_discrete
same_name = refl

cursor_round_trip_example :
    decode hash seal unseal 4000 "token" "metric" filters (some "r1") ≡ decoded cursor
unfolding codes digest
cursor_round_trip_example =
    cursor_round_trip hash seal unseal 4000 "r1" "metric" "m:k" filters (some 5000) (some "r1") refl
      refl named prefixed same_name refl encoded

decode_run : decode hash seal unseal 4000 "token" "metric" filters none ≡ decoded cursor
unfolding decode cursor_value read_cursor has_prefix codes valid_release get_field digest ℕ_discrete
    String_discrete
decode_run = refl

decode_scope_example :
    ((v : Value) × (unseal "token" ≡ some v) × (read_cursor v ≡ some cursor))
    × (cursor.kind ≡ "metric")
    × (cursor.filters ≡ filters_digest hash seal unseal 4000 filters)
    × (valid_release cursor.release ≡ true)
    × (names_release none cursor.release ≡ true)
    × (4000 < cursor.expires_at)
decode_scope_example =
    decode_scope hash seal unseal 4000 "token" "metric" filters none cursor decode_run
