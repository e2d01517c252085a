-- ===== src/Archive/Verified/Covers.antt =====
-- What `verified_records` answers: the records that the manifests commit, each once.
use mathlib.Core.Path.{subst}
use ad_pulse.Prelude.{
  String, ◌≡◌, refl, sym, ap, ◌∙◌, Bool, true, false, ◌&&◌, ◌||◌, not, List, [], ◌∷◌, Option, some,
  ◌==◌, string_eq, nat_eq, pair_eq, length, Result, ok, ◌>>=◌, >>=-eq-ok, raise_if-eq-ok,
  ok-injective, arith, All, Bool-cases, inl, inr, IsAmong, All-map, All-IsAmong, IsAmong-All,
  some_injective,
}
use ad_pulse.Prelude.Dict.{
  lookup, insert, lookup-insert, lookup-insert_self, IsDict, insert-IsDict, values, AreKeyed,
  insert-AreKeyed, insert-All, values-All, lookup-IsAmong, lookup-among,
}
use ad_pulse.Json.{Value, str, num, Fields, canonical, digest, value_eq}
use ad_pulse.Storage.Payload.{text_at, value_at}
use ad_pulse.Archive.Objects.{Objects, get}
use ad_pulse.Archive.Reconcile.{Archived}
use ad_pulse.Archive.Refresh.{Identity, is_at, read_row}
use ad_pulse.Archive.Readers.{decode_rows}
use ad_pulse.Archive.Verified.{
  identity_of, Unique, clashes, identity_le, place_entry, sort_entries, lines_from, keys_of,
  matches, add_record, add_records, refs_of, read_manifest, add_manifest, add_manifests,
  verified_records,
}

place-IsAmong :
    (e : Identity × Archived) (u : Unique) (row : Archived)
    → (IsAmong row (values (place_entry e u)) → IsAmong row (values (e ∷ u)))
      × (IsAmong row (values (e ∷ u)) → IsAmong row (values (place_entry e u)))
unfolding place_entry
place-IsAmong e [] row = (λ h. h, λ h. h)
place-IsAmong e (f ∷ u) row = elim (Bool-cases (identity_le e.0 f.0)) [
  | inl l ↦ rw l (λ h. h, λ h. h)
  | inr g ↦
      let (to, from) = place-IsAmong e u row in
      rw g (
        λ h. elim h [
          | inl p ↦ inr (inl p)
          | inr q ↦ elim (to q) [ inl p ↦ inl p | inr later ↦ inr (inr later) ]
        ],
        λ h. elim h [
          | inl p ↦ inr (from (inl p))
          | inr q ↦ elim q [ inl p ↦ inl p | inr later ↦ inr (from (inr later)) ]
        ],
      )
]

sort-IsAmong :
    (u : Unique) (row : Archived)
    → (IsAmong row (values (sort_entries u)) → IsAmong row (values u))
      × (IsAmong row (values u) → IsAmong row (values (sort_entries u)))
unfolding sort_entries
sort-IsAmong [] row = (λ h. h, λ h. h)
sort-IsAmong (e ∷ u) row =
    let (to, from) = sort-IsAmong u row in
    let (out, back) = place-IsAmong e (sort_entries u) row in
    (
      λ h. elim (out h) [ inl p ↦ inl p | inr later ↦ inr (to later) ],
      λ h. back (elim h [ inl p ↦ inl p | inr later ↦ inr (from later) ]),
    )

-- `is_at` on the identity of a row
abbrev names : Identity → Fields → Result Bool
names (topic, (part, off)) ref = value_at "topic" ref >>= λ t. value_at "partition" ref >>= λ p.
    value_at "offset" ref >>= λ o. ok (str topic == t && (num part == p && num off == o))

module _ (sha256 : String → String) (loads : String → Result Value) where
  -- The row is the one that the reference names, with its content.
  abbrev pub Refers : Archived → Fields → Type 0
  Refers row ref = (is_at row ref ≡ ok true) × (matches sha256 loads row ref ≡ ok true)

  abbrev IsShown : Unique → Fields → Type 0
  IsShown u ref = (row : Archived) × ((lookup (identity_of row) u ≡ some row) × Refers row ref)

  -- What an accepted row does.
  record Adds (ref : Fields) (u u' : Unique) : Type 0 where
    row : Archived
    added : insert (identity_of row) row u ≡ u'
    refers : Refers row ref
    same_content : clashes (lookup (identity_of row) u) row ≡ false

  add_record-Adds :
      (parsed : Value) (ref : Fields) (u : Unique) {u' : Unique}
      → add_record sha256 loads parsed ref u ≡ ok u'
      → Adds ref u u'
  unfolding add_record
  add_record-Adds parsed ref u h =
      let (row, _, r₁) = >>=-eq-ok (read_row parsed) _ h in
      let (placed, e₂, r₂) = >>=-eq-ok (is_at row ref) _ r₁ in
      let (p, r₃) = raise_if-eq-ok (not placed) _ _ r₂ in
      let (hashed, e₄, r₄) = >>=-eq-ok (matches sha256 loads row ref) _ r₃ in
      let (q, r₅) = raise_if-eq-ok (not hashed) _ _ r₄ in
      let (free, r₆) = raise_if-eq-ok (clashes (lookup (identity_of row) u) row) _ _ r₅ in
      record {
        row = row;
        added = ok-injective r₆;
        refers = (
          e₂ ∙ ap (λ (b : Bool). ok b) (ground arith),
          e₄ ∙ ap (λ (b : Bool). ok b) (ground arith),
        );
        same_content = free;
      }

  -- A row with the same identity and the same canonical value is named by the same references.
  same-Refers :
      (row row' : Archived) (ref : Fields)
      → identity_of row ≡ identity_of row'
      → canonical row.value ≡ canonical row'.value
      → Refers row ref
      → Refers row' ref
  unfolding is_at matches digest
  same-Refers row row' ref i c (p, q) = (
    subst (λ (x : Identity). names x ref ≡ ok true) i p,
    subst
        (λ (s : String). (value_at "sha256" ref >>= λ hash. ok (str (sha256 s) == hash)) ≡ ok true)
        c q,
  )

  Adds-IsShown :
      (ref seen : Fields) (u : Unique) {u' : Unique}
      → Adds ref u u'
      → IsShown u seen
      → IsShown u' seen
  Adds-IsShown ref seen u a (row, (l, r)) =
      subst (λ (x : Unique). IsShown x seen) a.added
        (elim (Bool-cases (identity_of row == identity_of a.row)) [
          | inl e ↦
              let i : identity_of row ≡ identity_of a.row = ground arith in
              let found : lookup (identity_of a.row) u ≡ some row =
                subst (λ (k : Identity). lookup k u ≡ some row) i l in
              let same_content : clashes (some row) a.row ≡ false =
                subst (λ (o : Option Archived). clashes o a.row ≡ false) found a.same_content in
              (
                a.row,
                (
                  lookup-insert_self (identity_of a.row) a.row u,
                  same-Refers row a.row seen i (ground arith) r,
                ),
              )
          | inr e ↦
              (row, (rw (lookup-insert (identity_of row) (identity_of a.row) a.row u, e) l, r))
        ])

  -- What is kept of the dictionary: its keys, and where its rows come from.
  record IsSound (S : Archived → Type 0) (u : Unique) : Type 0 where
    are_keyed : AreKeyed identity_of u
    is_dict : IsDict u
    sources : All (λ (e : Identity × Archived). S e.1) u

  Adds-IsSound :
      (S : Archived → Type 0) (ref : Fields) (u : Unique) {u' : Unique}
      → ((row : Archived) → Refers row ref → S row)
      → Adds ref u u'
      → IsSound S u
      → IsSound S u'
  Adds-IsSound S ref u f a h = subst (IsSound S) a.added (record {
    are_keyed = insert-AreKeyed identity_of a.row u h.are_keyed;
    is_dict = insert-IsDict (identity_of a.row) a.row u h.is_dict;
    sources = insert-All S (identity_of a.row) a.row u (f a.row a.refers) h.sources;
  })

  Adds-shown : (ref : Fields) (u : Unique) {u' : Unique} → Adds ref u u' → IsShown u' ref
  Adds-shown ref u a =
      subst (λ (x : Unique). IsShown x ref) a.added
        (a.row, (lookup-insert_self (identity_of a.row) a.row u, a.refers))

  -- What a run of rows does, for any property of the rows that the references name.
  record AddsAll (refs : List Fields) (u u' : Unique) : Type 1 where
    sound :
        (S : Archived → Type 0)
        → ((ref : Fields) → IsAmong ref refs → (row : Archived) → Refers row ref → S row)
        → IsSound S u
        → IsSound S u'
    shown : All (IsShown u') refs
    keeps : (seen : Fields) → IsShown u seen → IsShown u' seen

  add_records-AddsAll :
      (l : List Value) (refs : List Fields) (u : Unique) {u' : Unique}
      → add_records sha256 loads l refs u ≡ ok u'
      → AddsAll refs u u'
  unfolding add_records
  add_records-AddsAll [] [] u h =
      subst (λ (x : Unique). AddsAll [] u x) (ok-injective h)
        (record { sound = λ S f s. s; shown = tt; keeps = λ seen s. s })
  add_records-AddsAll [] (ref ∷ refs) u h = absurd (cc)
  add_records-AddsAll (parsed ∷ l) [] u h = absurd (cc)
  add_records-AddsAll (parsed ∷ l) (ref ∷ refs) u h =
      let (next, e, r) = >>=-eq-ok (add_record sha256 loads parsed ref u) _ h in
      let first = add_record-Adds parsed ref u e in
      let rest = add_records-AddsAll l refs next r in
      record {
        sound = λ S f s.
            rest.sound S (λ q m. f q (inr m)) (Adds-IsSound S ref u (f ref (inl refl)) first s);
        shown = (rest.keeps ref (Adds-shown ref u first), rest.shown);
        keeps = λ seen s. rest.keeps seen (Adds-IsShown ref seen u first s);
      }

  -- The manifest under the key has these references.
  abbrev pub Lists : Objects → String → List Fields → Type 0
  Lists d key refs =
      (manifest : Fields) × ((read_manifest sha256 loads key d ≡ ok manifest)
        × (refs_of sha256 loads manifest ≡ ok refs))

  add_manifest-AddsAll :
      (key : String) (d : Objects) (u : Unique) {u' : Unique}
      → add_manifest sha256 loads key d u ≡ ok u'
      → (refs : List Fields) × (Lists d key refs × AddsAll refs u u')
  unfolding add_manifest
  add_manifest-AddsAll key d u h =
      let (manifest, e₁, r₁) = >>=-eq-ok (read_manifest sha256 loads key d) _ h in
      let (data_key, _, r₂) = >>=-eq-ok (text_at "data_key" manifest) _ r₁ in
      let (body, _, r₃) = >>=-eq-ok (get data_key d) _ r₂ in
      let (hash, _, r₄) = >>=-eq-ok (value_at "sha256" manifest) _ r₃ in
      let (_, r₅) = raise_if-eq-ok (not (str (sha256 body) == hash)) _ _ r₄ in
      let (rows, _, r₆) = >>=-eq-ok (decode_rows loads (lines_from false body)) _ r₅ in
      let (count, _, r₇) = >>=-eq-ok (value_at "record_count" manifest) _ r₆ in
      let (refs, e₈, r₈) = >>=-eq-ok (refs_of sha256 loads manifest) _ r₇ in
      let (_, r₉) =
        raise_if-eq-ok (not (num (length rows) == count) || not (length rows == length refs)) _ _
          r₈ in
      (refs, ((manifest, (e₁, e₈)), add_records-AddsAll rows refs u r₉))

  -- The row is the one of a reference of one of the manifests.
  abbrev pub IsCommitted : Objects → List String → Archived → Type 0
  IsCommitted d l row =
      (key : String) × (IsAmong key l
        × ((refs : List Fields) × (Lists d key refs
              × ((ref : Fields) × (IsAmong ref refs × Refers row ref)))))

  add_manifests-lem :
      (l : List String) (d : Objects) (u : Unique) {u' : Unique} (S : Archived → Type 0)
      → ((row : Archived) → IsCommitted d l row → S row)
      → add_manifests sha256 loads l d u ≡ ok u'
      → IsSound S u
      → IsSound S u'
        × (All
              (λ (key : String). (refs : List Fields) × (Lists d key refs × All (IsShown u') refs))
              l
            × ((seen : Fields) → IsShown u seen → IsShown u' seen))
  unfolding add_manifests
  add_manifests-lem [] d u S f h s =
      subst
        (λ (x : Unique). IsSound S x × (Unit × ((seen : Fields) → IsShown u seen → IsShown x seen)))
        (ok-injective h) (s, (tt, λ seen q. q))
  add_manifests-lem (key ∷ l) d u S f h s =
      let (next, e, r) = >>=-eq-ok (add_manifest sha256 loads key d u) _ h in
      let (refs, (lists, adds)) = add_manifest-AddsAll key d u e in
      let sound =
        adds.sound S (λ ref m row q. f row (key, (inl refl, (refs, (lists, (ref, (m, q))))))) s in
      let (rest, (shown, keeps)) =
        add_manifests-lem l d next S (λ row (k, (m, q)). f row (k, (inr m, q))) r sound in
      (
        rest,
        (
          ((refs, (lists, All-map refs keeps adds.shown)), shown),
          λ seen q. keeps seen (adds.keeps seen q),
        ),
      )

  -- The records that are returned: each reference of each manifest has its record, each record is
  -- the one of a reference of a manifest, and two records with the same identity are the same.
  pub verified_records_lem :
      (d : Objects) {rows : List Archived}
      → verified_records sha256 loads d ≡ ok rows
      → All
          (λ (key : String).
            (refs : List Fields) × (Lists d key refs
              × All
                  (λ (ref : Fields). (row : Archived) × (IsAmong row rows × Refers row ref))
                  refs))
          (keys_of "manifests/" d)
        × (All (IsCommitted d (keys_of "manifests/" d)) rows
            × ((a b : Archived)
                → IsAmong a rows
                → IsAmong b rows
                → identity_of a ≡ identity_of b
                → a ≡ b))
  unfolding verified_records lookup
  verified_records_lem d h =
      let manifests = keys_of "manifests/" d in
      let (u, e, r) = >>=-eq-ok (add_manifests sha256 loads manifests d []) _ h in
      let (sound, (shown, _)) =
        add_manifests-lem manifests d [] (IsCommitted d manifests) (λ row q. q) e
          (record { are_keyed = tt; is_dict = tt; sources = tt }) in
      subst
        (λ (rows : List Archived).
          All
            (λ (key : String).
              (refs : List Fields) × (Lists d key refs
                × All (λ (ref : Fields). (row : Archived) × (IsAmong row rows × Refers row ref))
                    refs))
            manifests
          × (All (IsCommitted d manifests) rows
              × ((a b : Archived)
                  → IsAmong a rows
                  → IsAmong b rows
                  → identity_of a ≡ identity_of b
                  → a ≡ b)))
        (ok-injective r)
        (
          All-map manifests
              (λ key (refs, (lists, all)). (
                refs,
                (
                  lists,
                  All-map refs
                      (λ ref (row, (found, q)). (
                        row,
                        ((sort-IsAmong u row).1 (lookup-IsAmong (identity_of row) u found), q),
                      ))
                      all,
                ),
              ))
              shown,
          (
            All-IsAmong (values (sort_entries u)) (λ row m.
                IsAmong-All (IsCommitted d manifests) row (values u)
                  (values-All (IsCommitted d manifests) u sound.sources)
                  ((sort-IsAmong u row).0 m)),
            λ a b p q i.
                let found = λ (x : Archived) (m : IsAmong x (values (sort_entries u))).
                  lookup-among identity_of u x sound.is_dict sound.are_keyed
                    ((sort-IsAmong u x).0 m) in
                some_injective a b
                  (sym (found a p) ∙ ap (λ (k : Identity). lookup k u) i ∙ found b q),
          ),
        )
