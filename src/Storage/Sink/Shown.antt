-- ===== src/Storage/Sink/Shown.antt =====
-- The rows that `ClickHouse.write_batch` shows of the messages of a batch.
use ad_pulse.Prelude.{
  ℕ, zero, suc, String, ◌≡◌, refl, ◌∷◌, ◌++◌, List, [], string_eq, nat_eq, pair_eq, ok, arith,
  >>=-eq-ok, ok-injective, OnOk-bind, OnOk-raise_if, ◌>>=◌, raise, ap, sym, OnOk, OnOk-elim, ◌⊎◌,
  inl, inr, IsAmong, IsAmong-left, IsAmong-right, Result, not, ◌==◌, value_error,
}
use mathlib.Core.Path.{subst}
use ad_pulse.Prelude.Dict.{lookup, insert}
use ad_pulse.Json.{obj, canonical, arr, nil}
use ad_pulse.Releases.{topic_of}
use ad_pulse.Storage.Payload.{text_at, value_at, value_or}
use ad_pulse.Storage.Sink.{
  Message, Batch, Tables, Write, deliveries, results, quality, receipts, visibility, after,
  apply_write, ResultRow, QualityEntry, ReceiptEntry, identity_of, hash_of, collect, collect_result,
  collect_quality, collect_receipt, batch_step, batch_from, differs, differs_route, route_at,
  deliver, updates_of, visibility_rows,
}

-- One of the rows of the three tables is that of the message.
abbrev pub IsShown : Message → List ResultRow → List QualityEntry → List ReceiptEntry → Type 0
IsShown m r q p =
    ((x : ResultRow) × IsAmong x r
      × ((x.output_topic, (x.output_partition, x.output_offset)) ≡ identity_of m)
      × (x.payload ≡ canonical (obj m.payload)))
    ⊎ (((x : QualityEntry) × IsAmong x q
          × ((x.output_topic, (x.output_partition, x.output_offset)) ≡ identity_of m)
          × (x.payload ≡ canonical (obj m.payload)))
        ⊎ ((x : ReceiptEntry) × IsAmong x p × (x.payload ≡ canonical (obj m.payload))))

pub shown_longer :
    (m : Message) (r r' : List ResultRow) (q q' : List QualityEntry) (p p' : List ReceiptEntry)
    → IsShown m r q p
    → IsShown m (r ++ r') (q ++ q') (p ++ p')
shown_longer m r r' q q' p p' (inl (x, a, e, f)) = inl (x, IsAmong-left x r r' a, e, f)
shown_longer m r r' q q' p p' (inr (inl (x, a, e, f))) = inr (inl (x, IsAmong-left x q q' a, e, f))
shown_longer m r r' q q' p p' (inr (inr (x, a, e))) = inr (inr (x, IsAmong-left x p p' a, e))

-- The rows that are added to a table show it too.
pub shown_later :
    (m : Message) (r r' : List ResultRow) (q q' : List QualityEntry) (p p' : List ReceiptEntry)
    → IsShown m r' q' p'
    → IsShown m (r ++ r') (q ++ q') (p ++ p')
shown_later m r r' q q' p p' (inl (x, a, e, f)) = inl (x, IsAmong-right x r r' a, e, f)
shown_later m r r' q q' p p' (inr (inl (x, a, e, f))) = inr (inl (x, IsAmong-right x q q' a, e, f))
shown_later m r r' q q' p p' (inr (inr (x, a, e))) = inr (inr (x, IsAmong-right x p p' a, e))

apply_write-IsShown :
    (p : Message) (w : Write) (t : Tables)
    → IsShown p t.results t.quality t.receipts
    → IsShown p (apply_write w t).results (apply_write w t).quality (apply_write w t).receipts
unfolding apply_write
apply_write-IsShown p (deliveries l) t s = s
apply_write-IsShown p (results l) t (inl (x, a, e, f)) = inl (x, IsAmong-left x t.results l a, e, f)
apply_write-IsShown p (results l) t (inr s) = inr s
apply_write-IsShown p (quality l) t (inl s) = inl s
apply_write-IsShown p (quality l) t (inr (inl (x, a, e, f))) =
    inr (inl (x, IsAmong-left x t.quality l a, e, f))
apply_write-IsShown p (quality l) t (inr (inr s)) = inr (inr s)
apply_write-IsShown p (receipts l) t (inl s) = inl s
apply_write-IsShown p (receipts l) t (inr (inl s)) = inr (inl s)
apply_write-IsShown p (receipts l) t (inr (inr (x, a, e))) =
    inr (inr (x, IsAmong-left x t.receipts l a, e))
apply_write-IsShown p (visibility l) t s = s

-- What is shown stays shown.
pub after-IsShown :
    (p : Message) (n : ℕ) (writes : List Write) (t : Tables)
    → IsShown p t.results t.quality t.receipts
    → IsShown p (after n writes t).results (after n writes t).quality (after n writes t).receipts
unfolding after
after-IsShown p zero writes t s = s
after-IsShown p (suc n) [] t s = s
after-IsShown p (suc n) (w ∷ l) t s =
    after-IsShown p n l (apply_write w t) (apply_write-IsShown p w t s)

abbrev IsShownIn : Message → Batch → Type 0
IsShownIn m b = IsShown m b.results b.quality b.receipts

-- What is shown of `b` stays in `b'`, and the message is shown.
abbrev Shows : Message → Batch → Batch → Type 0
Shows m b b' = ((n : Message) → IsShownIn n b → IsShownIn n b') × IsShownIn m b'

append_nil : {A : Type 0} (l : List A) → l ++ [] ≡ l
append_nil [] = refl
append_nil (x ∷ l) = ap (λ r. x ∷ r) (append_nil l)

-- The rows of one table get longer.
longer :
    (m : Message) (b : Batch) (r' : List ResultRow) (q' : List QualityEntry)
    (p' : List ReceiptEntry) {r'' : List ResultRow} {q'' : List QualityEntry}
    {p'' : List ReceiptEntry}
    → b.results ++ r' ≡ r''
    → b.quality ++ q' ≡ q''
    → b.receipts ++ p' ≡ p''
    → IsShownIn m b
    → IsShown m r'' q'' p''
longer m b r' q' p' {r''} {q''} {p''} e f g s =
    subst (λ (x : List ResultRow). IsShown m x q'' p'') e
      (subst (λ (y : List QualityEntry). IsShown m (b.results ++ r') y p'') f
        (subst (λ (z : List ReceiptEntry). IsShown m (b.results ++ r') (b.quality ++ q') z) g
          (shown_longer m b.results r' b.quality q' b.receipts p' s)))

module _ (sha256 : String → String) (prefix : String) (tables : Tables) where
  collect_result-Shows :
      (kind : String) (m : Message) (b : Batch)
      → OnOk (Shows m b) (collect_result sha256 prefix tables kind m b)
  unfolding collect_result
  collect_result-Shows kind m b =
      let guard = OnOk-raise_if (Shows m b) in
      OnOk-bind (Shows m b) (text_at "release_id" m.payload) _ (λ release.
        OnOk-bind (Shows m b) (text_at "output_key" m.payload) _ (λ key.
          guard (not (m.topic == topic_of prefix release))
            (value_error "Result release/topic mismatch") _
            (guard (differs_route (lookup (release, key) b.routes) (m.topic, m.partition))
              (value_error "Key changed partition within batch") _
              (guard (differs_route (route_at (release, key) tables.results) (m.topic, m.partition))
                (value_error "Key changed partition; create new release") _
                (OnOk-bind (Shows m b) (updates_of (value_or "receipt_updates" (arr nil) m.payload))
                  _
                  (λ updates. OnOk-bind (Shows m b) (visibility_rows m release updates) _ (λ seen. (
                    λ n s. longer n b _ [] [] refl (append_nil b.quality) (append_nil b.receipts) s,
                    inl (_, IsAmong-right _ b.results _ (inl refl), refl, refl),
                  ))))))))

  collect_quality-Shows :
      (m : Message) (b : Batch) → OnOk (Shows m b) (collect_quality sha256 prefix tables m b)
  unfolding collect_quality
  collect_quality-Shows m b =
      OnOk-bind (Shows m b) (value_at "disposition" m.payload) _ (λ disposition.
        OnOk-bind (Shows m b) (value_at "error_code" m.payload) _ (λ error_code.
          OnOk-bind (Shows m b) (value_at "rule_version" m.payload) _ (λ rule_version. (
            λ n s. longer n b [] _ [] (append_nil b.results) refl (append_nil b.receipts) s,
            inr (inl (_, IsAmong-right _ b.quality _ (inl refl), refl, refl)),
          ))))

  collect_receipt-Shows :
      (m : Message) (b : Batch) → OnOk (Shows m b) (collect_receipt sha256 prefix tables m b)
  unfolding collect_receipt
  collect_receipt-Shows m b = OnOk-bind (Shows m b) (value_at "batch_id" m.payload) _ (λ batch_id.
      OnOk-bind (Shows m b) (value_at "received_at" m.payload) _ (λ received_at.
        OnOk-bind (Shows m b) (value_at "receipt_ids" m.payload) _ (λ receipt_ids. (
          λ n s. longer n b [] [] _ (append_nil b.results) (append_nil b.quality) refl s,
          inr (inr (_, IsAmong-right _ b.receipts _ (inl refl), refl)),
        ))))

  on_collect :
      (P : Batch → Type 0) (m : Message) (b : Batch)
      → ((kind : String) → OnOk P (collect_result sha256 prefix tables kind m b))
      → OnOk P (collect_quality sha256 prefix tables m b)
      → OnOk P (collect_receipt sha256 prefix tables m b)
      → OnOk P (collect sha256 prefix tables m b)
  unfolding collect
  on_collect P m b f g h = ground (arith, f "metric", f "association", g, h)

  on_bind :
      (m : Message) (b : Batch) (r : Result Batch)
      → OnOk (Shows m b) r
      → OnOk (Shows m b) (r >>= λ b'. ok (deliver sha256 prefix tables m b'))
  on_bind m b (ok b') h = h
  on_bind m b (raise e) h = tt

  batch_step-Shows :
      (m : Message) (b : Batch) → OnOk (Shows m b) (batch_step sha256 prefix tables m b)
  unfolding batch_step
  batch_step-Shows m b =
      let next = record b {
        batch_offsets = insert (identity_of m) (hash_of sha256 prefix tables m) b.batch_offsets;
      } in
      let hash = hash_of sha256 prefix tables m in
      OnOk-raise_if (Shows m b) (differs (lookup (identity_of m) b.batch_offsets) hash)
        (value_error "Conflicting content in batch") _
        (OnOk-raise_if (Shows m b) (differs (lookup (identity_of m) tables.deliveries) hash)
          (value_error "Same Kafka offset has conflicting content") _
          (on_bind m b (collect sha256 prefix tables m next) (
            on_collect (Shows m next) m next (λ kind. collect_result-Shows kind m next)
              (collect_quality-Shows m next) (collect_receipt-Shows m next))))

  -- The batch of some messages shows each of them.
  pub batch_from-Shows :
      (l : List Message) (b : Batch) {b' : Batch}
      → batch_from sha256 prefix tables l b ≡ ok b'
      → ((n : Message) → IsShownIn n b → IsShownIn n b')
        × ((n : Message) → IsAmong n l → IsShownIn n b')
  unfolding batch_from
  batch_from-Shows [] b e = (λ n s. subst (IsShownIn n) (ok-injective e) s, λ n a. absurd a)
  batch_from-Shows (m ∷ l) b e =
      let (b₁, e₁, e₂) = >>=-eq-ok (batch_step sha256 prefix tables m b) _ e in
      let (kept, shown) = OnOk-elim (Shows m b) _ (batch_step-Shows m b) e₁ in
      let (kept', shown') = batch_from-Shows l b₁ e₂ in
      (
        λ n s. kept' n (kept n s),
        λ n among. elim among [
          | inl p ↦ kept' n (subst (λ (k : Message). IsShownIn k b₁) (sym p) shown)
          | inr later ↦ shown' n later
        ],
      )
