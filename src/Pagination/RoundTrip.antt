-- ===== src/Pagination/RoundTrip.antt =====
-- A cursor reads back what it was made of, and nothing that is out of its scope.
use mathlib.Core.Path.{subst}
use ad_pulse.Prelude.{
  ap, ◌∙◌, ℕ, ◌<◌, String, ◌≡◌, refl, Bool, true, false, not, List, Option, none, some,
  if◌then◌else◌, string_eq, nat_eq, leb, ok, arith, String_discrete, ◌&&◌,
}
use ad_pulse.Json.{Value, get_field}
use ad_pulse.Names.{codes, valid_release}
use ad_pulse.Storage.Page.{text_length}
use ad_pulse.Pagination.{
  Cursor, Decoded, decoded, invalid, expired, cursor_value, read_cursor, has_prefix, bounded,
  names_release, in_scope, cursor_for, encode, judge_cursor, opened, decode, max_cursor_length,
  filters_digest,
}

read-cursor_value : (c : Cursor) → read_cursor (cursor_value c) ≡ some c
unfolding read_cursor cursor_value get_field String_discrete
read-cursor_value c = refl

both : {a b : Bool} → a ≡ true → b ≡ true → (a && b) ≡ true
both p q = ground arith

in_scope-parts :
    (kind filters : String) (wanted : Option String) (c : Cursor)
    → in_scope kind filters wanted c ≡ true
    → (c.kind ≡ kind)
      × (c.filters ≡ filters)
      × (valid_release c.release ≡ true)
      × (names_release wanted c.release ≡ true)
unfolding in_scope
in_scope-parts kind filters wanted c h = (ground arith, ground arith, ground arith, ground arith)

parts-in_scope :
    (filters : String) (wanted : Option String) (release kind after : String) (expires_at : ℕ)
    → valid_release release ≡ true
    → names_release wanted release ≡ true
    → bounded 1500 after ≡ true
    → has_prefix kind (codes after) ≡ true
    → in_scope kind filters wanted (record {
      version = 1;
      release = release;
      kind = kind;
      after = after;
      filters = filters;
      expires_at = expires_at;
    })
      ≡ true
unfolding in_scope
parts-in_scope filters wanted release kind after expires_at v n b p = ground arith

branches :
    (s x : Bool) (d c : Cursor)
    → ◌≡◌ {A = Decoded} (if not s then invalid else if x then expired else decoded d) (decoded c)
    → (s ≡ true) × (x ≡ false) × (d ≡ c)
branches false x d c e = absurd (cc)
branches true true d c e = absurd (cc)
branches true false d c e = (refl, refl, cc)

opened-some :
    (o : Option Value) (c : Cursor)
    → opened o ≡ some c
    → (v : Value) × (o ≡ some v) × (read_cursor v ≡ some c)
unfolding opened
opened-some none c h = absurd (cc)
opened-some (some v) c h = (v, refl, h)

module _ (sha256 : String → String) (seal : Value → String) (unseal : String → Option Value)
    (clock : ℕ) where
  judge-decoded :
      (kind : String) (filters : List (String × String)) (wanted : Option String)
      (o : Option Cursor) (c : Cursor)
      → judge_cursor sha256 seal unseal clock kind filters wanted o ≡ decoded c
      → (o ≡ some c)
        × (in_scope kind (filters_digest sha256 seal unseal clock filters) wanted c ≡ true)
        × (clock < c.expires_at)
  unfolding judge_cursor
  judge-decoded kind filters wanted none c e = absurd (cc)
  judge-decoded kind filters wanted (some d) c e =
      let (s, x, same) =
        branches (in_scope kind (filters_digest sha256 seal unseal clock filters) wanted d)
          (leb d.expires_at clock) d c e in
      (
        ap some same,
        subst
            (λ (k : Cursor).
              in_scope kind (filters_digest sha256 seal unseal clock filters) wanted k ≡ true)
            same s,
        subst (λ (k : Cursor). clock < k.expires_at) same (ground arith),
      )

  decoded-judge :
      (kind : String) (filters : List (String × String)) (wanted : Option String) (c : Cursor)
      → in_scope kind (filters_digest sha256 seal unseal clock filters) wanted c ≡ true
      → leb c.expires_at clock ≡ false
      → judge_cursor sha256 seal unseal clock kind filters wanted (some c) ≡ decoded c
  unfolding judge_cursor
  decoded-judge kind filters wanted c s f = rw (s, f) refl

  encode-ok :
      (release kind after : String) (filters : List (String × String)) (expires_at : Option ℕ)
      {token : String}
      → encode sha256 seal unseal clock release kind after filters expires_at ≡ ok token
      → (bounded 1500 after ≡ true)
        × (seal (
              cursor_value
                (cursor_for sha256 seal unseal clock release kind after filters expires_at))
            ≡ token)
        × (leb (text_length token) max_cursor_length ≡ true)
  unfolding encode
  encode-ok release kind after filters expires_at e = (ground arith, ground arith, ground arith)

  decode-judge :
      (token kind : String) (filters : List (String × String)) (wanted : Option String) (c : Cursor)
      → decode sha256 seal unseal clock token kind filters wanted ≡ decoded c
      → judge_cursor sha256 seal unseal clock kind filters wanted (opened (unseal token))
        ≡ decoded c
  unfolding decode
  decode-judge token kind filters wanted c e = ground arith

  judge-decode :
      (token kind : String) (filters : List (String × String)) (wanted : Option String)
      → bounded max_cursor_length token ≡ true
      → decode sha256 seal unseal clock token kind filters wanted
        ≡ judge_cursor sha256 seal unseal clock kind filters wanted (opened (unseal token))
  unfolding decode
  judge-decode token kind filters wanted b = rw b refl

  -- A cursor that `encode` made for a release and a key of its kind decodes to its data before it
  -- expires, in a request of the same kind and filters that names its release or none; if the seal
  -- of the data opens to the data and is not empty.
  pub cursor_round_trip :
      (release kind after : String) (filters : List (String × String)) (expires_at : Option ℕ)
      (wanted : Option String) {token : String}
      → let c = cursor_for sha256 seal unseal clock release kind after filters expires_at in
        unseal (seal (cursor_value c)) ≡ some (cursor_value c)
        → leb 1 (text_length (seal (cursor_value c))) ≡ true
        → valid_release release ≡ true
        → has_prefix kind (codes after) ≡ true
        → names_release wanted release ≡ true
        → leb c.expires_at clock ≡ false
        → encode sha256 seal unseal clock release kind after filters expires_at ≡ ok token
        → decode sha256 seal unseal clock token kind filters wanted ≡ decoded c
  unfolding opened
  cursor_round_trip release kind after filters expires_at wanted {token} open_seal filled valid
        prefix named fresh e =
      let c = cursor_for sha256 seal unseal clock release kind after filters expires_at in
      let (bound, made, room) = encode-ok release kind after filters expires_at e in
      judge-decode token kind filters wanted
        (both (subst (λ t. leb 1 (text_length t) ≡ true) made filled) room)
      ∙ ap (λ o. judge_cursor sha256 seal unseal clock kind filters wanted (opened o))
          (subst (λ t. unseal t ≡ some (cursor_value c)) made open_seal)
      ∙ ap (judge_cursor sha256 seal unseal clock kind filters wanted) (read-cursor_value c)
      ∙ decoded-judge kind filters wanted c
          (parts-in_scope (filters_digest sha256 seal unseal clock filters) wanted release kind
            after c.expires_at valid named bound prefix)
          fresh

  -- What a decoded cursor stands for: an authentic token whose data are of the request's kind and
  -- filters, name a valid release, the one that the request names if it names one, and have not
  -- expired.
  pub decode_scope :
      (token kind : String) (filters : List (String × String)) (wanted : Option String) (c : Cursor)
      → decode sha256 seal unseal clock token kind filters wanted ≡ decoded c
      → ((v : Value) × (unseal token ≡ some v) × (read_cursor v ≡ some c))
        × (c.kind ≡ kind)
        × (c.filters ≡ filters_digest sha256 seal unseal clock filters)
        × (valid_release c.release ≡ true)
        × (names_release wanted c.release ≡ true)
        × (clock < c.expires_at)
  decode_scope token kind filters wanted c e =
      let (o, scope, fresh) =
        judge-decoded kind filters wanted (opened (unseal token)) c
          (decode-judge token kind filters wanted c e) in
      let (k, f, v, n) =
        in_scope-parts kind (filters_digest sha256 seal unseal clock filters) wanted c scope in
      (opened-some (unseal token) c o, k, f, v, n, fresh)
