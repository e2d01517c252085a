-- ===== src/Archive/Refresh/Grows.antt =====
-- What the rows of a manifest do to the records of the index.
use mathlib.Core.Path.{subst}
use ad_pulse.Prelude.{
  ℕ, ◌+◌, String, ◌≡◌, refl, ap, sym, ◌∙◌, Bool, true, false, ◌&&◌, not, List, [], ◌∷◌, some, ◌==◌,
  string_eq, nat_eq, pair_eq, option_eq, Result, ok, >>=-eq-ok, raise_if-eq-ok, ok-injective, ◌⊎◌,
  inl, inr, arith, Bool-cases, if◌then◌else◌,
}
use ad_pulse.Prelude.Dict.{Dict, lookup, contains, lookup-insert}
use ad_pulse.Json.{Value, Fields, digest, canonical, value_eq}
use ad_pulse.Archive.Chunks.{Bytes}
use ad_pulse.Archive.Reconcile.{Archived, ends_with}
use ad_pulse.Storage.Payload.{text_or}
use ad_pulse.Archive.Refresh.{
  Identity, Entry, Index, insert_entry, store_row, index_line, index_lines, read_row, is_at,
  has_hash, columns, text_in, number_in, acknowledge_if, conflicts,
}

-- Where the archive has a row.
abbrev pub place_of : Entry → Identity
place_of e = (e.row.ref.topic, (e.row.ref.part, e.row.ref.off))

-- The records of an index and those after rows with the manifest `key` were added.
pub record Grows (key : String) (old new : Index) : Type 0 where
  pub same_manifests : new.manifests ≡ old.manifests
  pub keeps :
      (id : Identity) (e : Entry) → lookup id old.records ≡ some e → lookup id new.records ≡ some e
  pub adds :
      (id : Identity) (e : Entry)
      → lookup id new.records ≡ some e
      → (lookup id old.records ≡ some e) ⊎ ((e.manifest ≡ key) × (place_of e ≡ id))

pub Grows-refl : (key : String) (i : Index) → Grows key i i
Grows-refl key i = record { same_manifests = refl; keeps = λ id e h. h; adds = λ id e h. inl h }

pub Grows-trans : (key : String) (i j k : Index) → Grows key i j → Grows key j k → Grows key i k
Grows-trans key i j k g h = record {
  same_manifests = h.same_manifests ∙ g.same_manifests;
  keeps = λ id e f. h.keeps id e (g.keeps id e f);
  adds = λ id e f. elim (h.adds id e f) [ inl was ↦ g.adds id e was | inr new ↦ inr new ];
}

pub lookup-insert_entry :
    (j id : Identity) (e : Entry) (d : Dict Identity Entry)
    → lookup j (insert_entry id e d)
      ≡ (if contains id d then lookup j d else if j == id then some e else lookup j d)
unfolding insert_entry
lookup-insert_entry j id e d = elim (Bool-cases (contains id d)) [
  | inl old ↦ rw old refl
  | inr new ↦ rw new (lookup-insert j id e d)
]

pub insert_entry_keeps :
    (j id : Identity) (e : Entry) (d : Dict Identity Entry) {f : Entry}
    → lookup j d ≡ some f
    → lookup j (insert_entry id e d) ≡ some f
insert_entry_keeps j id e d h = ground (arith, lookup-insert_entry j id e d)

insert_entry_adds :
    (j id : Identity) (e : Entry) (d : Dict Identity Entry) {f : Entry}
    → lookup j (insert_entry id e d) ≡ some f
    → (lookup j d ≡ some f) ⊎ ((f ≡ e) × (id ≡ j))
insert_entry_adds j id e d h = elim (Bool-cases (contains id d)) [
  | inl old ↦ inl (ground (arith, lookup-insert_entry j id e d))
  | inr new ↦ elim (Bool-cases (j == id)) [
    | inl same ↦
        inr (
          ground (arith, lookup-insert_entry j id e d),
          ground (arith, lookup-insert_entry j id e d),
        )
    | inr other ↦ inl (ground (arith, lookup-insert_entry j id e d))
  ]
]

-- The entry that a row leaves in the records, if there was none at its place.
pub record Leaves (key topic : String) (part off : ℕ) (serialized hash : String) (e : Entry)
    : Type 0 where
  pub manifest : e.manifest ≡ key
  pub place : place_of e ≡ (topic, (part, off))
  pub text : e.row_json ≡ serialized
  pub hash_of : e.row.ref.hash ≡ hash

module _ (sha256 : String → String) (sha256_bytes : Bytes → String)
    (loads : Bytes → Result Value) where
  pub store_row_lem :
      (key : String) (ordinal : ℕ) (topic : String) (part off : ℕ) (serialized : String)
      (value : Value) (hash : String) (index : Index) {index' : Index}
      → store_row sha256 sha256_bytes loads key ordinal topic part off serialized value hash index
        ≡ ok index'
      → (e : Entry) × Leaves key topic part off serialized hash e
        × (index'.records ≡ insert_entry (topic, (part, off)) e index.records)
        × (index'.manifests ≡ index.manifests)
  unfolding store_row
  store_row_lem key ordinal topic part off serialized value hash index stored =
      let (packet, _, r₁) = >>=-eq-ok (columns (ends_with ".raw" topic) value) _ stored in
      let (receipt, _, r₂) = >>=-eq-ok (text_in "receipt_id" packet) _ r₁ in
      let (received_at, _, r₃) = >>=-eq-ok (number_in "received_at" packet) _ r₂ in
      let (batch, _, r₄) = >>=-eq-ok (text_or "batch_id" "" packet) _ r₃ in
      let (batch_index, _, r₅) = >>=-eq-ok (number_in "index" packet) _ r₄ in
      let (refs, _, r₆) =
        >>=-eq-ok
          (acknowledge_if (not (ends_with ".raw" topic) && ends_with ".receipts" topic) value
            index.ack_refs)
          _ r₅ in
      (
        _,
        record { manifest = refl; place = refl; text = refl; hash_of = refl },
        sym (ap (λ (i : Index). i.records) (ok-injective r₆)),
        sym (ap (λ (i : Index). i.manifests) (ok-injective r₆)),
      )

not-eq-false : (b : Bool) → not b ≡ false → b ≡ true
not-eq-false b h = ground arith

-- Where an archived row stands.
abbrev pub identity : Archived → Identity
identity row = (row.topic, (row.partition, row.offset))

module _ (sha256 : String → String) (sha256_bytes : Bytes → String)
    (loads : Bytes → Result Value) where
  -- What a line of an object and its reference were when they were accepted into an index.
  pub record Line (key : String) (line : Bytes) (ref : Fields) (old new : Index) : Type 0 where
    pub parsed : Value
    pub row : Archived
    pub entry : Entry
    pub is_parsed : loads line ≡ ok parsed
    pub is_row : read_row parsed ≡ ok row
    pub placed : is_at row ref ≡ ok true
    pub hashed : has_hash sha256 sha256_bytes loads row ref ≡ ok true
    pub fits : conflicts (lookup (identity row) old.records) (canonical parsed) ≡ false
    pub leaves :
        Leaves key row.topic row.partition row.offset
          (canonical parsed)
          (digest sha256 row.value)
          entry
    pub records : new.records ≡ insert_entry (identity row) entry old.records
    pub manifests : new.manifests ≡ old.manifests

  pub index_line_lem :
      (key : String) (ordinal : ℕ) (line : Bytes) (ref : Fields) (index : Index) {index' : Index}
      → index_line sha256 sha256_bytes loads key ordinal line ref index ≡ ok index'
      → Line key line ref index index'
  unfolding index_line
  index_line_lem key ordinal line ref index stored =
      let (parsed, e₀, r₀) = >>=-eq-ok (loads line) _ stored in
      let (row, e₁, r₁) = >>=-eq-ok (read_row parsed) _ r₀ in
      let (placed, e₂, r₂) = >>=-eq-ok (is_at row ref) _ r₁ in
      let (p, r₃) = raise_if-eq-ok (not placed) _ _ r₂ in
      let (hashed, e₃, r₄) = >>=-eq-ok (has_hash sha256 sha256_bytes loads row ref) _ r₃ in
      let (h, r₅) = raise_if-eq-ok (not hashed) _ _ r₄ in
      let (fits, r₆) =
        raise_if-eq-ok (conflicts (lookup (identity row) index.records) (canonical parsed)) _ _
          r₅ in
      let (entry, leaves, records, manifests) =
        store_row_lem sha256 sha256_bytes loads key ordinal row.topic row.partition row.offset
          (canonical parsed) row.value (digest sha256 row.value) index r₆ in
      record {
        parsed = parsed;
        row = row;
        entry = entry;
        is_parsed = e₀;
        is_row = e₁;
        placed = e₂ ∙ ap ok (not-eq-false placed p);
        hashed = e₃ ∙ ap ok (not-eq-false hashed h);
        fits = fits;
        leaves = leaves;
        records = records;
        manifests = manifests;
      }

  pub Line-Grows :
      (key : String) (line : Bytes) (ref : Fields) (old new : Index)
      → Line key line ref old new
      → Grows key old new
  Line-Grows key line ref old new l = record {
    same_manifests = l.manifests;
    keeps = λ id e h. rw l.records (insert_entry_keeps id (identity l.row) l.entry old.records h);
    adds = λ id e h.
        elim (insert_entry_adds id (identity l.row) l.entry old.records (rw l.records at h)) [
          | inl was ↦ inl was
          | inr (same, there) ↦ inr (rw same l.leaves.manifest, rw same (l.leaves.place ∙ there))
        ];
  }

  pub index_lines-Grows :
      (key : String) (ordinal : ℕ) (lines : List Bytes) (refs : List Fields) (index : Index) {n : ℕ}
      {index' : Index}
      → index_lines sha256 sha256_bytes loads key ordinal lines refs index ≡ ok (n, index')
      → Grows key index index'
  unfolding index_lines
  index_lines-Grows key ordinal [] refs index h =
      subst (Grows key index) (ap (λ (p : ℕ × Index). p.1) (ok-injective h)) (Grows-refl key index)
  index_lines-Grows key ordinal (line ∷ l) [] index h = cc
  index_lines-Grows key ordinal (line ∷ l) (ref ∷ refs) index {index' = index'} h =
      let (next, e, rest) =
        >>=-eq-ok (index_line sha256 sha256_bytes loads key ordinal line ref index) _ h in
      Grows-trans key index next index'
        (Line-Grows key line ref index next (index_line_lem key ordinal line ref index e))
        (index_lines-Grows key (ordinal + 1) l refs next rest)
