-- ===== src/Storage/Local/Latest.antt =====
-- Retries change nothing, and the latest offset wins.
use mathlib.Core.Path.{subst}
use ad_pulse.Prelude.{
  ℕ, String, ◌≡◌, ◌≤◌, List, [], ◌∷◌, Option, none, some, string_eq, nat_eq, pair_eq, ok, arith,
  >>=-eq-ok, ◌⊎◌, inl, inr, All, ok-injective, sym, ◌∙◌,
}
use ad_pulse.Prelude.Dict.{lookup, lookup-insert}
use ad_pulse.Json.{obj, Fields, canonical, digest}
use ad_pulse.Storage.Local.{
  RowKey, Row, Store, empty_store, Delivery, row_key, row_of, insert_row, insert_payload,
  insert_deliveries,
}

-- There is a row, on this topic and partition, and at this offset or a later one.
abbrev pub IsAtLeast : String → ℕ → ℕ → Option Row → Type 0
IsAtLeast topic partition offset none = ⊥
IsAtLeast topic partition offset (some r) =
    (offset ≤ r.offset_id) × (r.topic ≡ topic) × (r.partition_id ≡ partition)

module _ (sha256 : String → String) where
  insert_row_retry :
      (key : RowKey) (topic : String) (partition offset : ℕ) (payload : Fields) (db : Store)
      {db' : Store}
      → insert_row sha256 key topic partition offset payload db ≡ ok db'
      → insert_row sha256 key topic partition offset payload db' ≡ ok db'
  unfolding insert_row
  insert_row_retry key topic partition offset payload db e = ground (
    arith,
    lookup-insert (topic, (partition, offset)) (topic, (partition, offset))
        (digest sha256 (obj payload)) db.deliveries,
    lookup-insert key key
        (record {
          topic = topic;
          partition_id = partition;
          offset_id = offset;
          payload = canonical (obj payload);
        })
        db.snapshots,
  )

  insert_row-IsAtLeast :
      (key : RowKey) (topic : String) (partition offset : ℕ) (payload : Fields) (db : Store)
      {db' : Store}
      → insert_row sha256 key topic partition offset payload db ≡ ok db'
      → IsAtLeast topic partition offset (lookup key db'.snapshots)
  unfolding insert_row
  insert_row-IsAtLeast key topic partition offset payload db e = ground (
    arith,
    lookup-insert key key
        (record {
          topic = topic;
          partition_id = partition;
          offset_id = offset;
          payload = canonical (obj payload);
        })
        db.snapshots,
  )

  insert_row_keeps :
      (key : RowKey) (topic : String) (partition offset : ℕ) (payload : Fields) (db : Store)
      {db' : Store} (k : RowKey) (t : String) (p o : ℕ)
      → insert_row sha256 key topic partition offset payload db ≡ ok db'
      → IsAtLeast t p o (lookup k db.snapshots)
      → IsAtLeast t p o (lookup k db'.snapshots)
  unfolding insert_row
  insert_row_keeps key topic partition offset payload db k t p o e h = ground (
    arith,
    h,
    lookup-insert k key
        (record {
          topic = topic;
          partition_id = partition;
          offset_id = offset;
          payload = canonical (obj payload);
        })
        db.snapshots,
  )

  -- A row that is there after a call was written by it, or was there before.
  insert_row-source :
      (key : RowKey) (d : Delivery) (db : Store) {db' : Store} (k : RowKey) (row : Row)
      → insert_row sha256 key d.topic d.partition d.offset d.payload db ≡ ok db'
      → lookup k db'.snapshots ≡ some row
      → ((k ≡ key) × (row ≡ row_of d)) ⊎ (lookup k db.snapshots ≡ some row)
  unfolding insert_row
  insert_row-source key d db k row e h = ground (arith, lookup-insert k key (row_of d) db.snapshots)

-- The row for the key of the delivery is at its offset or a later one.
abbrev pub IsShown : Store → Delivery → Type 0
IsShown db d =
    (key : RowKey)
    → row_key d.payload ≡ ok key
    → IsAtLeast d.topic d.partition d.offset (lookup key db.snapshots)

-- The row was written for one of the deliveries.
abbrev pub IsFrom : List Delivery → RowKey → Row → Type 0
IsFrom [] k row = ⊥
IsFrom (d ∷ l) k row = ((row_key d.payload ≡ ok k) × (row ≡ row_of d)) ⊎ IsFrom l k row

module _ (sha256 : String → String) where
  insert_deliveries_keeps :
      (l : List Delivery) (db : Store) {db' : Store} (k : RowKey) (t : String) (p o : ℕ)
      → insert_deliveries sha256 l db ≡ ok db'
      → IsAtLeast t p o (lookup k db.snapshots)
      → IsAtLeast t p o (lookup k db'.snapshots)
  unfolding insert_deliveries insert_payload
  insert_deliveries_keeps [] db k t p o e h =
      subst (λ (s : Store). IsAtLeast t p o (lookup k s.snapshots)) (ok-injective e) h
  insert_deliveries_keeps (d ∷ l) db k t p o e h =
      let (db₁, e₁, e₂) =
        >>=-eq-ok (insert_payload sha256 d.topic d.partition d.offset d.payload db) _ e in
      let (key, _, e₃) = >>=-eq-ok (row_key d.payload) _ e₁ in
      insert_deliveries_keeps l db₁ k t p o e₂
        (insert_row_keeps sha256 key d.topic d.partition d.offset d.payload db k t p o e₃ h)

  deliveries-IsShown :
      (l : List Delivery) (db : Store) {db' : Store}
      → insert_deliveries sha256 l db ≡ ok db'
      → All (IsShown db') l
  unfolding insert_deliveries insert_payload
  deliveries-IsShown [] db e = tt
  deliveries-IsShown (d ∷ l) db e =
      let (db₁, e₁, e₂) =
        >>=-eq-ok (insert_payload sha256 d.topic d.partition d.offset d.payload db) _ e in
      let (key, r, e₃) = >>=-eq-ok (row_key d.payload) _ e₁ in
      (
        λ k q. insert_deliveries_keeps l db₁ k d.topic d.partition d.offset e₂ (
            subst (λ x. IsAtLeast d.topic d.partition d.offset (lookup x db₁.snapshots))
              (ok-injective (sym r ∙ q))
              (insert_row-IsAtLeast sha256 key d.topic d.partition d.offset d.payload db e₃)),
        deliveries-IsShown l db₁ e₂,
      )

  deliveries-source :
      (l : List Delivery) (db : Store) {db' : Store} (k : RowKey) (row : Row)
      → insert_deliveries sha256 l db ≡ ok db'
      → lookup k db'.snapshots ≡ some row
      → IsFrom l k row ⊎ (lookup k db.snapshots ≡ some row)
  unfolding insert_deliveries insert_payload
  deliveries-source [] db k row e h =
      inr (subst (λ (s : Store). lookup k s.snapshots ≡ some row) (sym (ok-injective e)) h)
  deliveries-source (d ∷ l) db k row e h =
      let (db₁, e₁, e₂) =
        >>=-eq-ok (insert_payload sha256 d.topic d.partition d.offset d.payload db) _ e in
      let (key, r, e₃) = >>=-eq-ok (row_key d.payload) _ e₁ in
      elim (deliveries-source l db₁ k row e₂ h) [
        | inl later ↦ inl (inr later)
        | inr before ↦ elim (insert_row-source sha256 key d db k row e₃ before) [
          | inl (same, written) ↦ inl (inl (rw same r, written))
          | inr older ↦ inr older
        ]
      ]

  -- After deliveries that were all accepted by an empty store: each of them has a row for its
  -- release and key, on its topic and partition, at its offset or a later one; and every row was
  -- written for one of them.
  pub deliveries_latest :
      (l : List Delivery) {db : Store}
      → insert_deliveries sha256 l empty_store ≡ ok db
      → All (IsShown db) l
        × ((k : RowKey) (row : Row) → lookup k db.snapshots ≡ some row → IsFrom l k row)
  unfolding lookup
  deliveries_latest l e = (
    deliveries-IsShown l empty_store e,
    λ k row h. elim (deliveries-source l empty_store k row e h) [
      | inl found ↦ found
      | inr old ↦ absurd (cc)
    ],
  )

  -- A delivery that was accepted is accepted again, and the store does not change.
  pub insert_retry :
      (topic : String) (partition offset : ℕ) (payload : Fields) (db : Store) {db' : Store}
      → insert_payload sha256 topic partition offset payload db ≡ ok db'
      → insert_payload sha256 topic partition offset payload db' ≡ ok db'
  unfolding insert_payload
  insert_retry topic partition offset payload db e =
      let (key, r, e₁) = >>=-eq-ok (row_key payload) _ e in
      rw r (insert_row_retry sha256 key topic partition offset payload db e₁)
