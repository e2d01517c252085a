-- ===== src/Dimensions/Versions.antt =====
-- One row for each version of a campaign.
use ad_pulse.Prelude.{
  String, ◌≡◌, not, ◌||◌, List, [], ◌∷◌, ◌==◌, string_eq, pair_eq, Result, ok, >>=-eq-ok,
  Bool-cases, inl, inr, arith, ok-injective,
}
use mathlib.Core.Path.{subst}
use ad_pulse.Prelude.Dict.{Dict, insert, values, IsDict, insert-IsDict}
use ad_pulse.Json.{Value, null, Fields, value_eq}
use ad_pulse.Storage.Payload.{value_or}
use ad_pulse.Archive.Reconcile.{Archived, object, ends_with}
use ad_pulse.Dimensions.{
  VersionKey, truthy, row_in, is_delete, version_row, version_key, put_version, version_step,
  versions_from, archived_dimensions,
}

module _ (loads : String → Result Value) where
  -- Each row stands under the key of its fields.
  abbrev pub AreKeyed : Dict VersionKey Fields → Type 0
  AreKeyed [] = Unit
  AreKeyed ((k, r) ∷ d) = (version_key loads r ≡ ok k) × AreKeyed d

  insert-AreKeyed :
      (k : VersionKey) (r : Fields) (d : Dict VersionKey Fields)
      → version_key loads r ≡ ok k
      → AreKeyed d
      → AreKeyed (insert k r d)
  unfolding insert
  insert-AreKeyed k r [] e h = (e, tt)
  insert-AreKeyed k r ((j, q) ∷ d) e h = elim (Bool-cases (k == j)) [
    | inl same ↦
        rw same (subst (λ x. version_key loads r ≡ ok x) (let p : k ≡ j = ground arith in p) e, h.1)
    | inr other ↦ rw other (h.0, insert-AreKeyed k r d e h.1)
  ]

  abbrev IsTable : Dict VersionKey Fields → Type 0
  IsTable d = IsDict d × AreKeyed d

  put_version-IsTable :
      (envelope : Fields) (d : Dict VersionKey Fields) {d' : Dict VersionKey Fields}
      → put_version loads envelope d ≡ ok d'
      → IsTable d
      → IsTable d'
  unfolding put_version
  put_version-IsTable envelope d {d'} e h = elim (Bool-cases (truthy (row_in envelope))) [
    | inr n ↦ subst IsTable (ok-injective (rw n at e)) h
    | inl t ↦
        let (row, e₁, r₁) = >>=-eq-ok (object (row_in envelope)) _ (rw t at e) in
        let (r, e₂, r₂) = >>=-eq-ok (version_row loads (is_delete envelope) row) _ r₁ in
        let (key, e₃, r₃) = >>=-eq-ok (version_key loads r) _ r₂ in
        subst IsTable (ok-injective r₃) (insert-IsDict key r d h.0, insert-AreKeyed key r d e₃ h.1)
  ]

  version_step-IsTable :
      (record_row : Archived) (d : Dict VersionKey Fields) {d' : Dict VersionKey Fields}
      → version_step loads record_row d ≡ ok d'
      → IsTable d
      → IsTable d'
  unfolding version_step
  version_step-IsTable a d {d'} e h =
      elim (Bool-cases (not (ends_with "campaign_versions" a.topic) || a.value == null)) [
        | inl skip ↦ subst IsTable (ok-injective (rw skip at e)) h
        | inr n ↦
            let (value, e₁, r₁) = >>=-eq-ok (object a.value) _ (rw n at e) in
            elim (Bool-cases (value_or "payload" a.value value == null)) [
              | inl skip ↦ subst IsTable (ok-injective (rw skip at r₁)) h
              | inr m ↦
                  let (envelope, e₂, r₂) =
                    >>=-eq-ok (object (value_or "payload" a.value value)) _ (rw m at r₁) in
                  put_version-IsTable envelope d r₂ h
            ]
      ]

  versions_from-IsTable :
      (rows : List Archived) (d : Dict VersionKey Fields) {d' : Dict VersionKey Fields}
      → versions_from loads rows d ≡ ok d'
      → IsTable d
      → IsTable d'
  unfolding versions_from
  versions_from-IsTable [] d e h = subst IsTable (ok-injective e) h
  versions_from-IsTable (a ∷ l) d e h =
      let (d₁, e₁, e₂) = >>=-eq-ok (version_step loads a d) _ e in
      versions_from-IsTable l d₁ e₂ (version_step-IsTable a d e₁ h)

  -- When `archived_dimensions` returns, its rows are the values of a dictionary in which no key
  -- stands twice and each row stands under its own campaign, start and source version: there is at
  -- most one row for each version of a campaign.
  pub archived_dimensions_distinct :
      (rows : List Archived) {out : List Fields}
      → archived_dimensions loads rows ≡ ok out
      → (d : Dict VersionKey Fields) × (values d ≡ out) × IsDict d × AreKeyed d
  unfolding archived_dimensions
  archived_dimensions_distinct rows e =
      let (d, e₁, e₂) = >>=-eq-ok (versions_from loads rows []) _ e in
      let (distinct, keyed) = versions_from-IsTable rows [] e₁ (tt, tt) in
      (d, ok-injective e₂, distinct, keyed)
