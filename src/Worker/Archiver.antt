-- ===== src/Worker/Archiver.antt =====
-- The archive role: `archive_batch` as the target of the loop.
use ad_pulse.Prelude.{
  String, ◌≡◌, Bool, true, false, List, some, string_eq, Result, ok, raise, inl, inr, Result-cases,
  map, IsAmong, ℕ, Option, if◌then◌else◌, if_both,
}
use ad_pulse.Prelude.Dict.{lookup}
use ad_pulse.Json.{canonical}
use ad_pulse.Archive.Reconcile.{Archived}
use ad_pulse.Archive.Objects.{Objects, put, data_key, manifest_key, body_of, batch_manifest}
use ad_pulse.Archive.Objects.Commit.{put_keeps, lookup-put}
use ad_pulse.Worker.{Message, Target, reaches}

-- `dict(topic=..., partition=..., offset=..., value=...)`
abbrev pub row_of : Message → Archived
row_of m = record { topic = m.topic; partition = m.partition; offset = m.offset; value = m.value }

abbrev after_put : Objects → Result Objects → Objects × Bool
after_put d (raise e) = (d, false)
after_put d (ok d') = (d', true)

module _ (sha256 : String → String) where
  -- `objects.put` as request number `n`
  unfoldable pub put_request : Option ℕ → ℕ → String → String → Objects → Objects × Bool
  unfolding put
  put_request fault n key content d =
      if reaches n fault then after_put d (put key content d) else (d, false)

  -- `archive_batch(target, rows)`, with what it leaves if a put raises.
  unfoldable pub archive_rows : Option ℕ → List Message → Objects → Objects × Bool
  unfolding put_request data_key manifest_key batch_manifest
  archive_rows fault batch d =
      let records = map row_of batch in
      let (d', put_data) =
        put_request fault 0 (data_key sha256 records) (body_of sha256 records) d in
      if put_data
      then put_request fault 1 (manifest_key sha256 records)
          (canonical (batch_manifest sha256 records)) d'
      else (d', false)

  -- A committed batch has the message: the data and the manifest of the batch are there.
  abbrev pub IsArchivedIn : Message → Objects → Type 0
  IsArchivedIn m d =
      (batch : List Message) × IsAmong m batch
      × (lookup (data_key sha256 (map row_of batch)) d ≡ some (body_of sha256 (map row_of batch)))
      × (lookup (manifest_key sha256 (map row_of batch)) d
          ≡ some (canonical (batch_manifest sha256 (map row_of batch))))

  abbrev pub Lasting : Objects → Objects → Type 0
  Lasting d d' = (k v : String) → lookup k d ≡ some v → lookup k d' ≡ some v

  put_request_lem :
      (fault : Option ℕ) (n : ℕ) (key content : String) (d : Objects)
      → Lasting d (put_request fault n key content d).0
        × ((put_request fault n key content d).1 ≡ true
            → lookup key (put_request fault n key content d).0 ≡ some content)
  unfolding put_request
  put_request_lem fault n key content d =
      if_both (λ (r : Objects × Bool). Lasting d r.0 × (r.1 ≡ true → lookup key r.0 ≡ some content))
        (reaches n fault) _ _
        (λ _. elim (Result-cases (put key content d)) [
          | inl (x, e) ↦ rw e (λ k v h. h, λ h. absurd (cc))
          | inr (d', e) ↦
              rw e (λ k v h. put_keeps key content d k v e h, λ h. lookup-put key content d e)
        ])
        (λ _. (λ k v h. h, λ h. absurd (cc)))

  -- What a call on a batch guarantees.
  abbrev Archives : List Message → Objects → Objects × Bool → Type 0
  Archives batch d r =
      Lasting d r.0
      × (r.1 ≡ true
          → (lookup (data_key sha256 (map row_of batch)) r.0
              ≡ some (body_of sha256 (map row_of batch)))
            × (lookup (manifest_key sha256 (map row_of batch)) r.0
                ≡ some (canonical (batch_manifest sha256 (map row_of batch)))))

  pub archive_rows_lem :
      (fault : Option ℕ) (batch : List Message) (d : Objects)
      → Archives batch d (archive_rows fault batch d)
  unfolding archive_rows
  archive_rows_lem fault batch d =
      let records = map row_of batch in
      let first = put_request fault 0 (data_key sha256 records) (body_of sha256 records) d in
      let (kept, there) =
        put_request_lem fault 0 (data_key sha256 records) (body_of sha256 records) d in
      let (kept', there') =
        put_request_lem fault 1 (manifest_key sha256 records)
          (canonical (batch_manifest sha256 records)) first.0 in
      if_both (Archives batch d) first.1 _ _
        (λ done. (λ k v h. kept' k v (kept k v h), λ r. (kept' _ _ (there done), there' r)))
        (λ n. (kept, λ h. absurd (cc)))

  -- The laws of the interface, for the archive.
  abbrev pub archiver : Target Objects
  archiver = record {
    persist = archive_rows;
    holds = IsArchivedIn;
    persists = λ fault batch d r m among.
        let (content, manifest) = (archive_rows_lem fault batch d).1 r in
        (batch, among, content, manifest);
    keeps = λ fault batch d m (b, among, content, manifest).
        let kept = (archive_rows_lem fault batch d).0 in
        (b, among, kept _ _ content, kept _ _ manifest);
  }
