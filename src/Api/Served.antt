-- ===== src/Api/Served.antt =====
-- What the API serves.
use mathlib.Core.Path.{subst}
use ad_pulse.Prelude.{
  ℕ, zero, suc, String, ◌≡◌, refl, sym, ap, ◌∙◌, true, List, Option, none, some, ok, >>=-eq-ok,
  raise_if-eq-ok, ok-injective, string_eq, arith, Bool-cases, inl, inr,
}
use ad_pulse.Prelude.Dict.{lookup}
use ad_pulse.Json.{Value}
use ad_pulse.Releases.{Db, Release, get_release, can_activate}
use ad_pulse.Releases.Reach.{Reach, Reach-IsSound, passing, vetted}
use ad_pulse.Storage.Page.{Entry}
use ad_pulse.Pagination.{Cursor, decoded, decode}
use ad_pulse.Api.{
  Response, Position, position, position_of, release_of, serve_row, query, next_cursor_of,
  serve_page, result_page,
}

serve_row-ok :
    (o : Option Release) (r : Release)
    → serve_row o ≡ ok r
    → (o ≡ some r) × (can_activate (some r) ≡ true)
unfolding serve_row
serve_row-ok none r e = absurd (cc)
serve_row-ok (some q) r e = elim (Bool-cases (can_activate (some q))) [
  | inl t ↦
      let same : q ≡ r = ok-injective (rw t at e) in
      (ap some same, subst (λ (x : Release). can_activate (some x) ≡ true) same t)
  | inr n ↦ absurd (let f = rw n at e in cc)
]

vetted-passing :
    (r : Release) → vetted (some r) ≡ true → can_activate (some r) ≡ true → passing r.report ≡ true
vetted-passing r v c = ground arith

-- A row that may be served: its status allows it, and its report passed with a complete archive
-- and sink.
abbrev pub IsServed : Db → String → Type 0
IsServed db release =
    (r : Release) × (lookup release db.releases ≡ some r)
    × (can_activate (some r) ≡ true)
    × (passing r.report ≡ true)

module _ (sha256 : String → String) (seal : Value → String) (unseal : String → Option Value)
    (clock : ℕ) (outage : Option String) (table : String → String → List Entry) where
  -- The response names the release that a valid cursor of the request is pinned to.
  abbrev pub IsPinned :
      String → List (String × String) → Option String → Option String → String → Type 0
  IsPinned kind filters release cursor served =
      (token : String) (c : Cursor)
      → cursor ≡ some token
      → decode sha256 seal unseal clock token kind filters release ≡ decoded c
      → served ≡ c.release

  pinned :
      (kind : String) (filters : List (String × String)) (release cursor : Option String)
      (at : Position) (db : Db) (selected : String)
      → position sha256 seal unseal clock outage table kind filters release cursor ≡ ok at
      → release_of at.0 db ≡ ok selected
      → IsPinned kind filters release cursor selected
  unfolding position position_of release_of
  pinned kind filters release cursor at db selected e s token c t d =
      let opened : position_of release (decoded c) ≡ ok at =
        ap (position_of release) (sym d)
        ∙ ap (position sha256 seal unseal clock outage table kind filters release) (sym t)
        ∙ e in
      let named : release_of (some c.release) db ≡ ok selected =
        ap (λ (p : Position). release_of p.0 db) (ok-injective opened) ∙ s in
      sym (ok-injective named)

  serve_page-IsServed :
      (prefix kind : String) (release cursor : Option String) (limit : ℕ)
      (filters : List (String × String)) (db : Db) {resp : Response}
      → Reach sha256 prefix db
      → serve_page sha256 seal unseal clock outage table kind release cursor limit filters db
        ≡ ok resp
      → IsServed db resp.release_id × IsPinned kind filters release cursor resp.release_id
  unfolding serve_page get_release
  serve_page-IsServed prefix kind release cursor limit filters db reached e =
      let (at, e₁, r₁) =
        >>=-eq-ok (position sha256 seal unseal clock outage table kind filters release cursor) _
          e in
      let (selected, e₂, r₂) = >>=-eq-ok (release_of at.0 db) _ r₁ in
      let (_, r₃) = raise_if-eq-ok _ _ _ r₂ in
      let (metadata, e₄, r₄) = >>=-eq-ok (serve_row (get_release selected db)) _ r₃ in
      let (found, e₅, r₅) =
        >>=-eq-ok (query sha256 seal unseal clock outage table selected kind limit filters at.1.0) _
          r₄ in
      let (next, e₆, r₆) =
        >>=-eq-ok
          (next_cursor_of sha256 seal unseal clock outage table selected kind filters at.1.1
            found.1)
          _ r₅ in
      let (there, allowed) = serve_row-ok (get_release selected db) metadata e₄ in
      let sound : vetted (some metadata) ≡ true =
        subst (λ (o : Option Release). vetted o ≡ true) there
          ((Reach-IsSound sha256 prefix reached).vetted_all selected) in
      subst
        (λ (r : Response).
          IsServed db r.release_id × IsPinned kind filters release cursor r.release_id)
        (ok-injective r₆)
        (
          (metadata, there, allowed, vetted-passing metadata sound allowed),
          pinned kind filters release cursor at db selected e₁ e₂,
        )

  -- The handler gives its slot back whatever happens. On release tables that any history of
  -- operations led to, a response names a release that is validated, active or retired and has a
  -- report that passed with a complete archive and sink; and if the request's cursor is valid, the
  -- release is that of the cursor.
  pub result_page_lem :
      (prefix kind : String) (release cursor : Option String) (limit : ℕ)
      (filters : List (String × String)) (db : Db) (slots : ℕ)
      → Reach sha256 prefix db
      → let out =
          result_page sha256 seal unseal clock outage table kind release cursor limit filters db
            slots in
        (out.0 ≡ slots)
        × ((resp : Response)
            → out.1 ≡ ok resp
            → IsServed db resp.release_id × IsPinned kind filters release cursor resp.release_id)
  unfolding result_page
  result_page_lem prefix kind release cursor limit filters db zero reached =
      (refl, λ resp e. absurd (cc))
  result_page_lem prefix kind release cursor limit filters db (suc slots) reached = (
    omega arith,
    λ resp e. serve_page-IsServed prefix kind release cursor limit filters db reached e,
  )
