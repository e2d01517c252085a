-- ===== src/Archive/Refresh/Stored.antt =====
-- The rows of an accepted manifest in the index.
use mathlib.Core.Path.{subst}
use ad_pulse.Prelude.{
  ℕ, ◌+◌, String, ◌≡◌, ap, sym, ◌∙◌, true, false, List, [], ◌∷◌, Option, none, some, string_eq,
  nat_eq, pair_eq, option_eq, Result, ok, >>=-eq-ok, ok-injective, inl, inr, arith, Option-cases,
  length,
}
use ad_pulse.Prelude.Dict.{Dict, lookup}
use ad_pulse.Json.{Value, Fields, num, str, obj, canonical, value_eq}
use ad_pulse.Archive.Chunks.{Bytes, chunks}
use ad_pulse.Archive.Reconcile.{Archived}
use ad_pulse.Storage.Payload.{text_at, value_at}
use ad_pulse.Archive.Refresh.{
  Identity, Entry, Index, insert_entry, index_line, index_lines, read_row, is_at, has_hash,
  conflicts, join, max_line, max_object,
}
use ad_pulse.Archive.Refresh.Grows.{
  lookup-insert_entry, insert_entry_keeps, identity, Line, index_line_lem, index_lines-Grows,
}
use ad_pulse.Archive.Refresh.Accepted.{index_object_lem, Accepted}
use ad_pulse.Archive.Refresh.Atomic.{Extends}

insert_entry_new :
    (id : Identity) (e : Entry) (d : Dict Identity Entry)
    → lookup id d ≡ none
    → lookup id (insert_entry id e d) ≡ some e
insert_entry_new id e d h = ground (arith, lookup-insert_entry id id e d)

no_conflict : (e : Entry) (s : String) → conflicts (some e) s ≡ false → e.row_json ≡ s
unfolding conflicts
no_conflict e s h = ground arith

num_injective : {m n : ℕ} → ◌≡◌ {A = Result Value} (ok (num m)) (ok (num n)) → m ≡ n
num_injective h = cc

-- The line holds the row to which its reference refers, and the index has that row.
pub record IsStored (sha256 : String → String) (sha256_bytes : Bytes → String)
    (loads : Bytes → Result Value) (line : Bytes) (ref : Fields) (index : Index) : Type 0 where
  pub parsed : Value
  pub row : Archived
  pub entry : Entry
  pub is_parsed : loads line ≡ ok parsed
  pub is_row : read_row parsed ≡ ok row
  pub placed : is_at row ref ≡ ok true
  pub hashed : has_hash sha256 sha256_bytes loads row ref ≡ ok true
  pub stored : lookup (identity row) index.records ≡ some entry
  pub text : entry.row_json ≡ canonical parsed

module _ (sha256 : String → String) (sha256_bytes : Bytes → String)
    (loads : Bytes → Result Value) where
  -- The same for all lines, each with its reference.
  abbrev pub AreStored : List Bytes → List Fields → Index → Type 0
  AreStored [] refs index = Unit
  AreStored (line ∷ l) [] index = ⊥
  AreStored (line ∷ l) (ref ∷ refs) index =
      IsStored sha256 sha256_bytes loads line ref index × AreStored l refs index

  IsStored-Extends :
      (line : Bytes) (ref : Fields) (old new : Index)
      → ((id : Identity) (e : Entry)
          → lookup id old.records ≡ some e
          → lookup id new.records ≡ some e)
      → IsStored sha256 sha256_bytes loads line ref old
      → IsStored sha256 sha256_bytes loads line ref new
  IsStored-Extends line ref old new keep s = record {
    parsed = s.parsed;
    row = s.row;
    entry = s.entry;
    is_parsed = s.is_parsed;
    is_row = s.is_row;
    placed = s.placed;
    hashed = s.hashed;
    stored = keep (identity s.row) s.entry s.stored;
    text = s.text;
  }

  AreStored-Extends :
      (lines : List Bytes) (refs : List Fields) (old new : Index)
      → ((id : Identity) (e : Entry)
          → lookup id old.records ≡ some e
          → lookup id new.records ≡ some e)
      → AreStored lines refs old
      → AreStored lines refs new
  AreStored-Extends [] refs old new keep s = tt
  AreStored-Extends (line ∷ l) [] old new keep s = s
  AreStored-Extends (line ∷ l) (ref ∷ refs) old new keep s =
      (IsStored-Extends line ref old new keep s.0, AreStored-Extends l refs old new keep s.1)

  -- The row that was there before has the same text, and a new one has the line's.
  Line-IsStored :
      (key : String) (line : Bytes) (ref : Fields) (old new : Index)
      → Line sha256 sha256_bytes loads key line ref old new
      → IsStored sha256 sha256_bytes loads line ref new
  Line-IsStored key line ref old new l = elim (Option-cases (lookup (identity l.row) old.records)) [
    | inl absent ↦ record {
      parsed = l.parsed;
      row = l.row;
      entry = l.entry;
      is_parsed = l.is_parsed;
      is_row = l.is_row;
      placed = l.placed;
      hashed = l.hashed;
      stored = rw l.records (insert_entry_new (identity l.row) l.entry old.records absent);
      text = l.leaves.text;
    }
    | inr (e, there) ↦ record {
      parsed = l.parsed;
      row = l.row;
      entry = e;
      is_parsed = l.is_parsed;
      is_row = l.is_row;
      placed = l.placed;
      hashed = l.hashed;
      stored =
          rw l.records
            (insert_entry_keeps (identity l.row) (identity l.row) l.entry old.records there);
      text = no_conflict e (canonical l.parsed) (rw there at l.fits);
    }
  ]

  index_lines-AreStored :
      (key : String) (ordinal : ℕ) (lines : List Bytes) (refs : List Fields) (index : Index) {n : ℕ}
      {index' : Index}
      → index_lines sha256 sha256_bytes loads key ordinal lines refs index ≡ ok (n, index')
      → AreStored lines refs index' × (n ≡ ordinal + length lines)
  unfolding index_lines
  index_lines-AreStored key ordinal [] refs index {n} h =
      let same : ordinal ≡ n = ap (λ (p : ℕ × Index). p.0) (ok-injective h) in (tt, omega arith)
  index_lines-AreStored key ordinal (line ∷ l) [] index h = absurd (cc)
  index_lines-AreStored key ordinal (line ∷ l) (ref ∷ refs) index {n} {index'} h =
      let (next, e, rest) =
        >>=-eq-ok (index_line sha256 sha256_bytes loads key ordinal line ref index) _ h in
      let first =
        Line-IsStored key line ref index next
          (index_line_lem sha256 sha256_bytes loads key ordinal line ref index e) in
      let grows = index_lines-Grows sha256 sha256_bytes loads key (ordinal + 1) l refs next rest in
      let (others, count) = index_lines-AreStored key (ordinal + 1) l refs next rest in
      ((IsStored-Extends line ref next index' grows.keeps first, others), omega arith)

  -- The store has the manifest and its object, the object has the manifest's hash and a line for
  -- each reference, and the index has all rows.
  pub record IsVerified (store : Dict String (List Bytes)) (key : String) (index : Index)
      : Type 0 where
    pub raw : List Bytes
    pub manifest : Fields
    pub data_key : String
    pub refs : List Fields
    pub blocks : List Bytes
    pub is_raw : lookup key store ≡ some raw
    pub is_manifest : loads (join raw) ≡ ok (obj manifest)
    pub is_data_key : text_at "data_key" manifest ≡ ok data_key
    pub is_blocks : lookup data_key store ≡ some blocks
    pub is_hash : value_at "sha256" manifest ≡ ok (str (sha256_bytes (join blocks)))
    pub counted : length (chunks max_line max_object blocks).pieces ≡ length refs
    pub are_stored : AreStored (chunks max_line max_object blocks).pieces refs index

  pub IsVerified-Extends :
      (store : Dict String (List Bytes)) (key : String) (old new : Index)
      → Extends old new
      → IsVerified store key old
      → IsVerified store key new
  IsVerified-Extends store key old new e v = record {
    raw = v.raw;
    manifest = v.manifest;
    data_key = v.data_key;
    refs = v.refs;
    blocks = v.blocks;
    is_raw = v.is_raw;
    is_manifest = v.is_manifest;
    is_data_key = v.is_data_key;
    is_blocks = v.is_blocks;
    is_hash = v.is_hash;
    counted = v.counted;
    are_stored =
        AreStored-Extends (chunks max_line max_object v.blocks).pieces v.refs old new e.0
          v.are_stored;
  }

  pub Accepted-IsVerified :
      (store : Dict String (List Bytes)) (key : String) (old : Option String) (index : Index)
      (n : ℕ) (index' : Index)
      → Accepted sha256 sha256_bytes loads store key old index n index'
      → IsVerified store key index'
  Accepted-IsVerified store key old index n index' a =
      let (grown, lines, counted, hash, new) =
        index_object_lem sha256 sha256_bytes loads key (join a.raw) a.manifest a.refs a.blocks index
          a.indexed in
      let (stored, count) =
        index_lines-AreStored key 0 (chunks max_line max_object a.blocks).pieces a.refs index
          lines in
      let all : n ≡ length a.refs = num_injective (sym counted ∙ a.counted) in
      record {
        raw = a.raw;
        manifest = a.manifest;
        data_key = a.data_key;
        refs = a.refs;
        blocks = a.blocks;
        is_raw = a.is_raw;
        is_manifest = a.is_manifest;
        is_data_key = a.is_data_key;
        is_blocks = a.is_blocks;
        is_hash = hash;
        counted = omega arith;
        are_stored =
            AreStored-Extends (chunks max_line max_object a.blocks).pieces a.refs grown index'
              (λ id e f. subst (λ (i : Index). lookup id i.records ≡ some e) new f) stored;
      }
