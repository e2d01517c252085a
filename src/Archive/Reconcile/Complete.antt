-- ===== src/Archive/Reconcile/Complete.antt =====
-- What `reconcile` promises of what was acknowledged.
use mathlib.Core.Path.{subst}
use ad_pulse.Prelude.{
  ◌+◌, String, ◌≡◌, refl, sym, Bool, true, false, ◌&&◌, ◌||◌, not, ◌∷◌, List, [], some, ◌==◌,
  string_eq, Result, ok, ◌>>=◌, ◌∙◌, ◌⊎◌, inl, inr, arith, >>=-eq-ok, raise_if-eq-ok, All,
  ok-injective, length, Bool-cases, Option-cases,
}
use ad_pulse.Prelude.Dict.{Dict, lookup, insert, contains, lookup-insert}
use ad_pulse.Prelude.Distinct.{member, add, member-add}
use ad_pulse.Prelude.Sort.{length-sort_by}
use ad_pulse.Json.{Value, Items, Fields, value_eq}
use ad_pulse.Storage.Payload.{text_at, value_at}
use ad_pulse.Archive.Reconcile.{
  Archived, Coverage, ends_with, object, items, objects, texts, raw_from, manifests_of, add_all,
  receipts_of, subset, agrees, check_refs, check_manifest, acknowledge, dispositions_from, found,
  missing, no_text, coverage, reconcile,
}

-- The receipt of a raw packet.
unfoldable pub receipt_at : Value → Result String
unfolding object text_at
receipt_at v = do packet ← object v; text_at "receipt_id" packet

-- The references of a receipt manifest.
unfoldable pub references : Value → Result (List Fields)
unfolding object value_at items objects
references v = do
  manifest ← object v
  records ← value_at "records" manifest
  record_items ← items records
  objects record_items

-- The row is one of the records, on a raw topic, and its packet has this receipt.
abbrev pub IsArchivedAs : String → Archived → List Archived → Type 0
IsArchivedAs receipt row [] = ⊥
IsArchivedAs receipt row (r ∷ l) =
    ((row ≡ r) × (ends_with ".raw" r.topic ≡ true) × (receipt_at r.value ≡ ok receipt))
    ⊎ IsArchivedAs receipt row l

-- The reference's receipt is archived, with the topic, the partition, the offset and the content
-- hash of the reference.
abbrev pub IsStored : (String → String) → List Archived → Fields → Type 0
IsStored sha256 records ref =
    (receipt : String)
    → text_at "receipt_id" ref ≡ ok receipt
    → (row : Archived) × IsArchivedAs receipt row records × (agrees sha256 row ref ≡ ok true)

abbrev pub IsCovered : (String → String) → List Archived → Value → Type 0
IsCovered sha256 records v =
    (refs : List Fields) → references v ≡ ok refs → All (IsStored sha256 records) refs

-- One row on a raw topic.
raw_here :
    (r : Archived) (l : List Archived) (raw : Dict String Archived) (packet : Fields)
    (receipt k : String) (row : Archived)
    → object r.value ≡ ok packet
    → text_at "receipt_id" packet ≡ ok receipt
    → ends_with ".raw" r.topic ≡ true
    → IsArchivedAs k row l ⊎ (lookup k (insert receipt r raw) ≡ some row)
    → IsArchivedAs k row (r ∷ l) ⊎ (lookup k raw ≡ some row)
unfolding receipt_at
raw_here r l raw packet receipt k row o t e (inl later) = inl (inr later)
raw_here r l raw packet receipt k row o t e (inr here) = elim (Bool-cases (k == receipt)) [
  | inl same ↦ inl (inl (ground (arith, lookup-insert k receipt r raw), e, rw o (ground arith)))
  | inr other ↦ inr (ground (arith, lookup-insert k receipt r raw))
]

raw_from_sound :
    (l : List Archived) (raw : Dict String Archived) {raw' : Dict String Archived} (k : String)
    (row : Archived)
    → raw_from l raw ≡ ok raw'
    → lookup k raw' ≡ some row
    → IsArchivedAs k row l ⊎ (lookup k raw ≡ some row)
unfolding raw_from
raw_from_sound [] raw k row e h = inr (ground arith)
raw_from_sound (r ∷ l) raw {raw'} k row e h = elim (Bool-cases (ends_with ".raw" r.topic)) [
  | inl t ↦
      let e₀ : (object r.value >>= λ packet.
      text_at "receipt_id" packet >>= λ receipt. raw_from l (insert receipt r raw))
          ≡ ok raw' =
        ground arith in
      let (packet, e₁, e₂) = >>=-eq-ok (object r.value) _ e₀ in
      let (receipt, e₃, e₄) = >>=-eq-ok (text_at "receipt_id" packet) _ e₂ in
      raw_here r l raw packet receipt k row e₁ e₃ t
        (raw_from_sound l (insert receipt r raw) k row e₄ h)
  | inr n ↦ elim (raw_from_sound l raw k row (ground arith) h) [
    | inl later ↦ inl (inr later)
    | inr before ↦ inr before
  ]
]

pub length-found-missing :
    {V : Type 0} (d : Dict String V) (l : List String)
    → length (found d l) + length (missing d l) ≡ length l
unfolding found missing
length-found-missing d [] = refl
length-found-missing d (x ∷ l) = ground (arith, length-found-missing d l)

missing-found :
    {V : Type 0} (d : Dict String V) (l : List String) (k : String)
    → no_text (missing d l) ≡ true
    → member k l ≡ true
    → contains k d ≡ true
unfolding missing no_text member
missing-found d [] k e m = ground arith
missing-found d (x ∷ l) k e m = ground (arith, missing-found d l k)

member-subset :
    (l s : List String) (k : String) → subset l s ≡ true → member k l ≡ true → member k s ≡ true
unfolding subset member
member-subset [] s k e m = ground arith
member-subset (x ∷ l) s k e m = ground (arith, member-subset l s k)

member-add_all :
    (l s : List String) (k : String) → member k s ≡ true → member k (add_all l s) ≡ true
unfolding add_all
member-add_all [] s k m = m
member-add_all (x ∷ l) s k m = member-add_all l (add x s) k (ground (arith, member-add k x s))

pub member-add_all_new :
    (l s : List String) (k : String) → member k l ≡ true → member k (add_all l s) ≡ true
unfolding add_all member
member-add_all_new [] s k m = ground arith
member-add_all_new (x ∷ l) s k m =
    ground (arith, member-add_all_new l (add x s) k, member-add_all l (add x s) k, member-add k x s)

-- The receipts of the references are all in the list.
abbrev AreListed : List String → List Fields → Type 0
AreListed s refs =
    All
      (λ ref. (receipt : String) → text_at "receipt_id" ref ≡ ok receipt → member receipt s ≡ true)
      refs

AreListed-weaken :
    (s t : List String) (refs : List Fields)
    → ((k : String) → member k s ≡ true → member k t ≡ true)
    → AreListed s refs
    → AreListed t refs
AreListed-weaken s t [] w h = tt
AreListed-weaken s t (ref ∷ l) w h =
    ((λ receipt e. w receipt (h.0 receipt e)), AreListed-weaken s t l w h.1)

AreListed-cons :
    (ref : Fields) (l : List Fields) (receipt : String) (s : List String)
    → text_at "receipt_id" ref ≡ ok receipt
    → AreListed s l
    → AreListed (receipt ∷ s) (ref ∷ l)
unfolding member
AreListed-cons ref l receipt s e h = (
  (λ r t. ground (arith, ok-injective (sym e ∙ t))),
  AreListed-weaken s (receipt ∷ s) l (λ k m. ground arith) h,
)

receipts_of-AreListed :
    (refs : List Fields) {receipts : List String}
    → receipts_of refs ≡ ok receipts
    → AreListed receipts refs
unfolding receipts_of
receipts_of-AreListed [] e = tt
receipts_of-AreListed (ref ∷ l) e =
    let (receipt, e₁, e₂) = >>=-eq-ok (text_at "receipt_id" ref) _ e in
    let (rest, e₃, e₄) = >>=-eq-ok (receipts_of l) _ e₂ in
    subst (λ s. AreListed s (ref ∷ l)) (ok-injective e₄)
      (AreListed-cons ref l receipt rest e₁ (receipts_of-AreListed l e₃))

pub and_true : (a b : Bool) → (a && b) ≡ true → b ≡ true
and_true a b e = ground arith

passed_subset : (a b c : Bool) → (not a || not (b && c)) ≡ false → c ≡ true
passed_subset a b c e = ground arith

references-eq :
    (v : Value) (manifest : Fields) (records : Value) (record_items : Items) {refs : List Fields}
    → object v ≡ ok manifest
    → value_at "records" manifest ≡ ok records
    → items records ≡ ok record_items
    → objects record_items ≡ ok refs
    → references v ≡ ok refs
unfolding references
references-eq v manifest records record_items e₁ e₂ e₃ e₄ = rw (e₁, e₂, e₃) e₄

module _ (sha256 : String → String) where
  check_refs-agrees :
      (raw : Dict String Archived) (refs : List Fields)
      → check_refs sha256 raw refs ≡ ok tt
      → All
          (λ ref.
            (receipt : String) (row : Archived)
            → text_at "receipt_id" ref ≡ ok receipt
            → lookup receipt raw ≡ some row
            → agrees sha256 row ref ≡ ok true)
          refs
  unfolding check_refs
  check_refs-agrees raw [] e = tt
  check_refs-agrees raw (ref ∷ l) e =
      ((λ receipt row t f. ground arith), check_refs-agrees raw l (ground arith))

  -- The references of a manifest agree with their raw rows, and their receipts are in the set.
  abbrev Agreed : Dict String Archived → List String → Value → Type 0
  Agreed raw s v =
      (refs : List Fields) × (references v ≡ ok refs)
      × (check_refs sha256 raw refs ≡ ok tt)
      × AreListed s refs

  check_manifest-Agreed :
      (raw : Dict String Archived) (v : Value) {ids : List String}
      → check_manifest sha256 raw v ≡ ok ids
      → Agreed raw ids v
  unfolding check_manifest
  check_manifest-Agreed raw v e =
      let (manifest, e₁, r₁) = >>=-eq-ok (object v) _ e in
      let (ids, e₂, r₂) = >>=-eq-ok (value_at "receipt_ids" manifest) _ r₁ in
      let (id_items, e₃, r₃) = >>=-eq-ok (items ids) _ r₂ in
      let (receipt_ids, e₄, r₄) = >>=-eq-ok (texts id_items) _ r₃ in
      let (count, e₅, r₅) = >>=-eq-ok (value_at "count" manifest) _ r₄ in
      let (records, e₆, r₆) = >>=-eq-ok (value_at "records" manifest) _ r₅ in
      let (record_items, e₇, r₇) = >>=-eq-ok (items records) _ r₆ in
      let (refs, e₈, r₈) = >>=-eq-ok (objects record_items) _ r₇ in
      let (receipts, e₉, r₉) = >>=-eq-ok (receipts_of refs) _ r₈ in
      let (passed, r₁₀) = raise_if-eq-ok _ _ _ r₉ in
      let (_, checked, r₁₁) = >>=-eq-ok (check_refs sha256 raw refs) _ r₁₀ in
      (
        refs,
        references-eq v manifest records record_items e₁ e₆ e₇ e₈,
        checked,
        subst (λ s. AreListed s refs) (ok-injective r₁₁)
            (AreListed-weaken receipts receipt_ids refs
              (λ k m. member-subset receipts receipt_ids k (passed_subset _ _ _ passed) m)
              (receipts_of-AreListed refs e₉)),
      )

  acknowledge-keeps :
      (raw : Dict String Archived) (l : List Value) (s : List String) {s' : List String}
      (k : String)
      → acknowledge sha256 raw l s ≡ ok s'
      → member k s ≡ true
      → member k s' ≡ true
  unfolding acknowledge
  acknowledge-keeps raw [] s k e m = ground arith
  acknowledge-keeps raw (v ∷ l) s k e m =
      let (ids, e₁, e₂) = >>=-eq-ok (check_manifest sha256 raw v) _ e in
      acknowledge-keeps raw l (add_all ids s) k e₂ (member-add_all ids s k m)

  acknowledge-Agreed :
      (raw : Dict String Archived) (l : List Value) (s : List String) {s' : List String}
      → acknowledge sha256 raw l s ≡ ok s'
      → All (Agreed raw s') l
  unfolding acknowledge
  acknowledge-Agreed raw [] s e = tt
  acknowledge-Agreed raw (v ∷ l) s {s'} e =
      let (ids, e₁, e₂) = >>=-eq-ok (check_manifest sha256 raw v) _ e in
      let (refs, r, checked, listed) = check_manifest-Agreed raw v e₁ in
      (
        (
          refs,
          r,
          checked,
          AreListed-weaken ids s' refs
              (λ k m. acknowledge-keeps raw l (add_all ids s) k e₂ (member-add_all_new ids s k m))
              listed,
        ),
        acknowledge-Agreed raw l (add_all ids s) e₂,
      )

  module _ (records : List Archived) (raw : Dict String Archived) (s : List String)
      (built : raw_from records [] ≡ ok raw) (full : no_text (missing raw s) ≡ true) where
    refs-IsStored :
        (refs : List Fields)
        → All
            (λ ref.
              (receipt : String) (row : Archived)
              → text_at "receipt_id" ref ≡ ok receipt
              → lookup receipt raw ≡ some row
              → agrees sha256 row ref ≡ ok true)
            refs
        → AreListed s refs
        → All (IsStored sha256 records) refs
    unfolding lookup
    refs-IsStored [] a h = tt
    refs-IsStored (ref ∷ l) a h = (
      (λ receipt e. elim (Option-cases (lookup receipt raw)) [
        | inl n ↦ absurd (ground (arith, missing-found raw s receipt full (h.0 receipt e)))
        | inr (row, f) ↦ (
          row,
          elim (raw_from_sound records [] receipt row built f) [
            | inl there ↦ there
            | inr z ↦ absurd (cc)
          ],
          a.0 receipt row e f,
        )
      ]),
      refs-IsStored l a.1 h.1,
    )

    values-IsCovered : (l : List Value) → All (Agreed raw s) l → All (IsCovered sha256 records) l
    values-IsCovered [] h = tt
    values-IsCovered (v ∷ l) ((refs, r, checked, listed), h) = (
      (λ refs' r'.
          subst (All (IsStored sha256 records)) (ok-injective (sym r ∙ r'))
            (refs-IsStored refs (check_refs-agrees raw refs checked) listed)),
      values-IsCovered l h,
    )

  -- If `reconcile` returns, then the archived and the missing receipts make up the acknowledged
  -- ones, so do the classified and the pending ones, and if it reports the archive complete, then
  -- every reference of every receipt manifest in the archive has its receipt archived: one of the
  -- records is on a raw topic with that receipt, and has the topic, the partition, the offset and
  -- the content hash of the reference.
  pub reconcile_complete :
      (records : List Archived) (quality : List Fields) (expected_receipts : List String)
      {r : Coverage}
      → reconcile sha256 records quality expected_receipts ≡ ok r
      → (r.archived + length r.archive_missing ≡ r.acknowledged)
        × (r.classified + length r.processing_pending ≡ r.acknowledged)
        × (r.archive_complete ≡ true → All (IsCovered sha256 records) (manifests_of records))
  unfolding reconcile coverage
  reconcile_complete records quality expected_receipts e =
      let (raw, e₁, r₁) = >>=-eq-ok (raw_from records []) _ e in
      let (s, e₂, r₂) =
        >>=-eq-ok (acknowledge sha256 raw (manifests_of records) (add_all expected_receipts [])) _
          r₁ in
      let (seen, e₃, r₃) = >>=-eq-ok (dispositions_from quality []) _ r₂ in
      subst
        (λ (r : Coverage).
          (r.archived + length r.archive_missing ≡ r.acknowledged)
          × (r.classified + length r.processing_pending ≡ r.acknowledged)
          × (r.archive_complete ≡ true → All (IsCovered sha256 records) (manifests_of records)))
        (ok-injective r₃)
        (
          omega (arith, length-found-missing raw s, length-sort_by (λ x. x) (missing raw s)),
          omega (arith, length-found-missing seen s, length-sort_by (λ x. x) (missing seen s)),
          λ complete.
              values-IsCovered records raw s e₁ (and_true (not (no_text s)) _ complete)
                (manifests_of records)
                (acknowledge-Agreed raw (manifests_of records) (add_all expected_receipts []) e₂),
        )
