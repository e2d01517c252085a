-- ===== src/Archive/Refresh/Accepted.antt =====
-- What an accepted manifest and its object were.

use ad_pulse.Prelude.{
  ℕ, String, ◌≡◌, ap, sym, ◌∙◌, false, ◌||◌, not, List, Option, some, ◌==◌, string_eq, nat_eq,
  pair_eq, option_eq, Result, ok, >>=-eq-ok, raise_if-eq-ok, ok-injective, arith, or_raise,
  or_raise-eq-ok, key_error, ltb, length,
}
use ad_pulse.Prelude.Dict.{Dict, lookup, insert}
use ad_pulse.Json.{get_field, Value, Fields, num, str, obj, value_eq}
use ad_pulse.Archive.Chunks.{Bytes, chunks}
use ad_pulse.Archive.Reconcile.{object-eq-ok, object, items, objects}
use ad_pulse.Storage.Payload.{text_at, value_at}
use ad_pulse.Archive.Refresh.{
  Index, index_lines, index_object, index_manifest, join, has_changed, max_manifest, valid_data_key,
  max_line, max_object,
}
use ad_pulse.Archive.Refresh.Grows.{Grows, index_lines-Grows}

same_value : (a b : Value) → not (a == b) ≡ false → a ≡ b
same_value a b h = ground arith

-- A manifest entered the index with rows of its own.
pub record Enters (key : String) (old new : Index) : Type 0 where
  pub hash : String
  pub grown : Index
  pub grows : Grows key old grown
  pub is_new : record grown { manifests = insert key hash grown.manifests } ≡ new

module _ (sha256 : String → String) (sha256_bytes : Bytes → String)
    (loads : Bytes → Result Value) where
  pub index_object_lem :
      (key : String) (raw : Bytes) (manifest : Fields) (refs : List Fields) (blocks : List Bytes)
      (index : Index) {n : ℕ} {index' : Index}
      → index_object sha256 sha256_bytes loads key raw manifest refs blocks index ≡ ok (n, index')
      → (grown : Index) × (index_lines sha256 sha256_bytes loads key 0
            (chunks max_line max_object blocks).pieces
            refs
            index
          ≡ ok (n, grown))
        × (value_at "record_count" manifest ≡ ok (num n))
        × (value_at "sha256" manifest ≡ ok (str (sha256_bytes (join blocks))))
        × (record grown { manifests = insert key (sha256_bytes raw) grown.manifests } ≡ index')
  unfolding index_object
  index_object_lem key raw manifest refs blocks index {n} {index'} h =
      let ((count, grown), e₁, r₁) =
        >>=-eq-ok
          (index_lines sha256 sha256_bytes loads key 0 (chunks max_line max_object blocks).pieces
            refs index)
          _ h in
      let (_, _, r₂) = >>=-eq-ok (chunks max_line max_object blocks).outcome _ r₁ in
      let (record_count, e₃, r₃) = >>=-eq-ok (value_at "record_count" manifest) _ r₂ in
      let (expected, e₄, r₄) = >>=-eq-ok (value_at "sha256" manifest) _ r₃ in
      let (clear, r₅) =
        raise_if-eq-ok
          (not (num count == record_count) || not (str (sha256_bytes (join blocks)) == expected)) _
          _ r₄ in
      let same_count : count ≡ n = ap (λ (p : ℕ × Index). p.0) (ok-injective r₅) in
      let found : num count ≡ record_count = ground arith in
      let hash : str (sha256_bytes (join blocks)) ≡ expected = ground arith in
      (
        grown,
        e₁ ∙ ap (λ (m : ℕ). ok (m, grown)) same_count,
        e₃ ∙ ap ok (sym found) ∙ ap (λ (m : ℕ). ok (num m)) same_count,
        e₄ ∙ ap ok (sym hash),
        ap (λ (p : ℕ × Index). p.1) (ok-injective r₅),
      )

  -- What a manifest and its object were when they were accepted.
  pub record Accepted (store : Dict String (List Bytes)) (key : String) (old : Option String)
      (index : Index) (n : ℕ) (index' : Index) : Type 0 where
    pub raw : List Bytes
    pub manifest : Fields
    pub data_key : String
    pub refs : List Fields
    pub blocks : List Bytes
    pub is_raw : lookup key store ≡ some raw
    pub unchanged : has_changed old (sha256_bytes (join raw)) ≡ false
    pub is_manifest : loads (join raw) ≡ ok (obj manifest)
    pub is_data_key : text_at "data_key" manifest ≡ ok data_key
    pub is_blocks : lookup data_key store ≡ some blocks
    pub counted : value_at "record_count" manifest ≡ ok (num (length refs))
    pub indexed :
        index_object sha256 sha256_bytes loads key (join raw) manifest refs blocks index
        ≡ ok (n, index')

  pub index_manifest_lem :
      (store : Dict String (List Bytes)) (key : String) (old : Option String) (index : Index)
      {n : ℕ} {index' : Index}
      → index_manifest sha256 sha256_bytes loads store key old index ≡ ok (n, index')
      → Accepted store key old index n index'
  unfolding index_manifest
  index_manifest_lem store key old index h =
      let (raw, e₀, r₀) = >>=-eq-ok (or_raise (lookup key store) (key_error key)) _ h in
      let (_, r₁) = raise_if-eq-ok (ltb max_manifest (length (join raw))) _ _ r₀ in
      let (unchanged, r₂) = raise_if-eq-ok (has_changed old (sha256_bytes (join raw))) _ _ r₁ in
      let (parsed, e₃, r₃) = >>=-eq-ok (loads (join raw)) _ r₂ in
      let (manifest, e₄, r₄) = >>=-eq-ok (object parsed) _ r₃ in
      let (data_key, e₅, r₅) = >>=-eq-ok (text_at "data_key" manifest) _ r₄ in
      let (_, r₆) = raise_if-eq-ok (not (valid_data_key data_key)) _ _ r₅ in
      let (_, r₇) =
        raise_if-eq-ok (not (get_field "format_version" manifest == some (num 1))) _ _ r₆ in
      let (records, _, r₈) = >>=-eq-ok (value_at "records" manifest) _ r₇ in
      let (record_items, _, r₉) = >>=-eq-ok (items records) _ r₈ in
      let (record_count, e₁₀, r₁₀) = >>=-eq-ok (value_at "record_count" manifest) _ r₉ in
      let (refs, _, r₁₁) = >>=-eq-ok (objects record_items) _ r₁₀ in
      let (same, r₁₂) = raise_if-eq-ok (not (num (length refs) == record_count)) _ _ r₁₁ in
      let (blocks, e₁₃, r₁₃) =
        >>=-eq-ok (or_raise (lookup data_key store) (key_error data_key)) _ r₁₂ in
      let count = same_value (num (length refs)) record_count same in
      record {
        raw = raw;
        manifest = manifest;
        data_key = data_key;
        refs = refs;
        blocks = blocks;
        is_raw = or_raise-eq-ok (lookup key store) (key_error key) {a = raw} e₀;
        unchanged = unchanged;
        is_manifest = e₃ ∙ ap ok (object-eq-ok parsed e₄);
        is_data_key = e₅;
        is_blocks = or_raise-eq-ok (lookup data_key store) (key_error data_key) {a = blocks} e₁₃;
        counted = rw count e₁₀;
        indexed = r₁₃;
      }

  pub Accepted-Enters :
      (store : Dict String (List Bytes)) (key : String) (old : Option String) (index : Index)
      (n : ℕ) (index' : Index)
      → Accepted store key old index n index'
      → Enters key index index'
  Accepted-Enters store key old index n index' a =
      let (grown, lines, _, _, new) =
        index_object_lem key (join a.raw) a.manifest a.refs a.blocks index a.indexed in
      record {
        hash = sha256_bytes (join a.raw);
        grown = grown;
        grows =
            index_lines-Grows sha256 sha256_bytes loads key 0
              (chunks max_line max_object a.blocks).pieces a.refs index lines;
        is_new = new;
      }
