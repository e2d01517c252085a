-- ===== src/Storage/Sink/Safety.antt =====
-- The deliveries that `ClickHouse.write_batch` records before any other row.
use ad_pulse.Prelude.{
  ℕ, zero, suc, String, ◌≡◌, refl, false, ◌∷◌, ◌++◌, List, [], map, some, string_eq, nat_eq, ◌==◌,
  true, pair_eq, ok, arith, >>=-eq-ok, All, OnOk, OnOk-elim, ok-injective, sym, ap,
}
use mathlib.Core.Path.{subst}
use ad_pulse.Prelude.Dict.{Dict, lookup, insert, insert_all, lookup-insert}
use ad_pulse.Storage.Local.{Identity}
use ad_pulse.Storage.Sink.{
  Message, Batch, Tables, Write, identity_of, hash_of, collect, collect_result, collect_quality,
  collect_receipt, batch_step, batch_from, differs, after, apply_write, writes_of, write_batch,
  empty_batch,
}

-- The entry that a dictionary has for a pair is that pair.
abbrev IsIn : Dict Identity String → Identity × String → Type 0
IsIn d p = lookup p.0 d ≡ some p.1

lookup-insert_all :
    (o : Dict Identity String) (l : List (Identity × String)) (d : Dict Identity String)
    (k : Identity) (v : String)
    → All (IsIn o) l
    → lookup k o ≡ some v
    → lookup k d ≡ some v
    → lookup k (insert_all l d) ≡ some v
unfolding insert_all
lookup-insert_all o [] d k v h s e = e
lookup-insert_all o ((j, w) ∷ l) d k v h s e =
    lookup-insert_all o l (insert j w d) k v h.1 s (ground (arith, h.0, lookup-insert k j w d))

insert_all-IsIn :
    (o : Dict Identity String) (l : List (Identity × String)) (d : Dict Identity String)
    → All (IsIn o) l
    → All (IsIn (insert_all l d)) l
unfolding insert_all
insert_all-IsIn o [] d h = tt
insert_all-IsIn o ((j, w) ∷ l) d h = (
  lookup-insert_all o l (insert j w d) j w h.1 h.0 (ground (arith, lookup-insert j j w d)),
  insert_all-IsIn o l (insert j w d) h.1,
)

-- A delivery stays if no entry of the list contradicts it.
insert_all-keeps :
    (l : List (Identity × String)) (d : Dict Identity String) (k : Identity) (v : String)
    → All (λ (p : Identity × String). (k == p.0) ≡ true → p.1 ≡ v) l
    → lookup k d ≡ some v
    → lookup k (insert_all l d) ≡ some v
unfolding insert_all
insert_all-keeps [] d k v h e = e
insert_all-keeps ((j, w) ∷ l) d k v h e =
    insert_all-keeps l (insert j w d) k v h.1 (ground (arith, h.0, lookup-insert k j w d, e))

-- What a collector keeps.
abbrev Keeps : Batch → Batch → Type 0
Keeps b b' = (b'.batch_offsets ≡ b.batch_offsets) × (b'.deliveries ≡ b.deliveries)

module _ (sha256 : String → String) (prefix : String) (tables : Tables) where
  collect_result-Keeps :
      (kind : String) (m : Message) (b : Batch)
      → OnOk (Keeps b) (collect_result sha256 prefix tables kind m b)
  unfolding collect_result
  collect_result-Keeps kind m b = ground arith

  collect-Keeps : (m : Message) (b : Batch) → OnOk (Keeps b) (collect sha256 prefix tables m b)
  unfolding collect collect_quality collect_receipt
  collect-Keeps m b =
      ground (arith, collect_result-Keeps "metric" m b, collect_result-Keeps "association" m b)

  abbrev entry_of : Message → Identity × String
  entry_of m = (identity_of m, hash_of sha256 prefix tables m)

  -- What the recorded deliveries of a message are.
  abbrev IsClear : Message → Type 0
  IsClear m =
      differs (lookup (identity_of m) tables.deliveries) (hash_of sha256 prefix tables m) ≡ false

  abbrev Stepped : Message → Batch → Batch → Type 0
  Stepped m b b' =
      IsClear m
      × (differs (lookup (identity_of m) b.batch_offsets) (hash_of sha256 prefix tables m) ≡ false)
      × (b'.batch_offsets ≡ insert (identity_of m) (hash_of sha256 prefix tables m) b.batch_offsets)
      × (b'.deliveries ≡ b.deliveries ++ entry_of m ∷ [])

  batch_step-Stepped :
      (m : Message) (b : Batch) → OnOk (Stepped m b) (batch_step sha256 prefix tables m b)
  unfolding batch_step
  batch_step-Stepped m b = ground (
    arith,
    collect-Keeps m (record b {
      batch_offsets = insert (identity_of m) (hash_of sha256 prefix tables m) b.batch_offsets;
    }),
  )

  -- From `b` on, the messages are all clear and are delivered in their order, the offsets of `b`
  -- stay, and each message has its own.
  abbrev Collected : List Message → Batch → Batch → Type 0
  Collected l b b' =
      All IsClear l
      × (b'.deliveries ≡ b.deliveries ++ map entry_of l)
      × ((k : Identity) (v : String)
          → lookup k b.batch_offsets ≡ some v
          → lookup k b'.batch_offsets ≡ some v)
      × All (λ m. lookup (identity_of m) b'.batch_offsets ≡ some (hash_of sha256 prefix tables m)) l

  append_nil : (l : List (Identity × String)) → l ++ [] ≡ l
  append_nil [] = refl
  append_nil (x ∷ l) = ap (λ r. x ∷ r) (append_nil l)

  append_one :
      (a : List (Identity × String)) (x : Identity × String) (l : List (Identity × String))
      → (a ++ x ∷ []) ++ l ≡ a ++ x ∷ l
  append_one [] x l = refl
  append_one (y ∷ a) x l = ap (λ r. y ∷ r) (append_one a x l)

  stays :
      (m : Message) (b : Batch) (k : Identity) (v : String)
      → differs (lookup (identity_of m) b.batch_offsets) (hash_of sha256 prefix tables m) ≡ false
      → lookup k b.batch_offsets ≡ some v
      → lookup k (insert (identity_of m) (hash_of sha256 prefix tables m) b.batch_offsets) ≡ some v
  stays m b k v c e =
      ground
        (arith, lookup-insert k (identity_of m) (hash_of sha256 prefix tables m) b.batch_offsets)

  batch_from-Collected :
      (l : List Message) (b : Batch) {b' : Batch}
      → batch_from sha256 prefix tables l b ≡ ok b'
      → Collected l b b'
  unfolding batch_from
  batch_from-Collected [] b e =
      subst (Collected [] b) (ok-injective e) (tt, sym (append_nil b.deliveries), (λ k v h. h), tt)
  batch_from-Collected (m ∷ l) b {b'} e =
      let (b₁, e₁, e₂) = >>=-eq-ok (batch_step sha256 prefix tables m b) _ e in
      let (clear, same, offsets, delivered) =
        OnOk-elim (Stepped m b) _ (batch_step-Stepped m b) e₁ in
      let (rest, deliveries, keeps, own) = batch_from-Collected l b₁ e₂ in
      (
        (clear, rest),
        rw (deliveries, delivered) (append_one b.deliveries (entry_of m) (map entry_of l)),
        (λ k v h. keeps k v (rw offsets (stays m b k v same h))),
        (
          keeps (identity_of m) (hash_of sha256 prefix tables m) (
              rw offsets (
                ground (
                  arith,
                  lookup-insert (identity_of m) (identity_of m) (hash_of sha256 prefix tables m)
                      b.batch_offsets,
                ))),
          own,
        ),
      )

  All-map :
      (d : Dict Identity String) (l : List Message)
      → All (IsIn d) (map entry_of l)
      → All (λ m. lookup (identity_of m) d ≡ some (hash_of sha256 prefix tables m)) l
  All-map d [] h = tt
  All-map d (m ∷ l) h = (h.0, All-map d l h.1)

  map-All :
      (d : Dict Identity String) (l : List Message)
      → All (λ m. lookup (identity_of m) d ≡ some (hash_of sha256 prefix tables m)) l
      → All (IsIn d) (map entry_of l)
  map-All d [] h = tt
  map-All d (m ∷ l) h = (h.0, map-All d l h.1)

  after-deliveries :
      (n : ℕ) (b : Batch)
      → (after (suc n) (writes_of b) tables).deliveries ≡ insert_all b.deliveries tables.deliveries
  unfolding after apply_write writes_of
  after-deliveries zero b = refl
  after-deliveries (suc zero) b = refl
  after-deliveries (suc (suc zero)) b = refl
  after-deliveries (suc (suc (suc zero))) b = refl
  after-deliveries (suc (suc (suc (suc zero)))) b = refl
  after-deliveries (suc (suc (suc (suc (suc n))))) b = refl

  -- If a batch is accepted, then none of its messages conflicts with a delivery that the tables
  -- had, and after any number of its inserts but zero, each of its messages has its content hash
  -- among the deliveries: whatever was shown is recorded, wherever the sink crashed.
  pub write_batch_safety :
      (messages : List Message) (n : ℕ) {writes : List Write}
      → write_batch sha256 prefix tables messages ≡ ok writes
      → All IsClear messages
        × All
            (λ m.
              lookup (identity_of m) (after (suc n) writes tables).deliveries
              ≡ some (hash_of sha256 prefix tables m))
            messages
  unfolding write_batch
  write_batch_safety messages n e =
      let (b, e₁, e₂) = >>=-eq-ok (batch_from sha256 prefix tables messages empty_batch) _ e in
      let (clear, delivered, _, own) = batch_from-Collected messages empty_batch e₁ in
      (
        clear,
        rw (sym (ok-injective e₂), after-deliveries n b, delivered)
            (All-map (insert_all (map entry_of messages) tables.deliveries) messages (
              insert_all-IsIn b.batch_offsets (map entry_of messages) tables.deliveries
                (map-All b.batch_offsets messages own))),
      )

  clear-entries :
      (l : List Message) (k : Identity) (v : String)
      → All IsClear l
      → lookup k tables.deliveries ≡ some v
      → All (λ (p : Identity × String). (k == p.0) ≡ true → p.1 ≡ v) (map entry_of l)
  clear-entries [] k v h e = tt
  clear-entries (m ∷ l) k v h e = (λ same. ground (arith, h.0, e, same), clear-entries l k v h.1 e)

  -- No insert of a batch that is accepted loses or changes a delivery.
  pub write_batch_keeps :
      (messages : List Message) (n : ℕ) {writes : List Write}
      → write_batch sha256 prefix tables messages ≡ ok writes
      → (k : Identity) (v : String) → lookup k tables.deliveries ≡ some v
      → lookup k (after n writes tables).deliveries ≡ some v
  unfolding write_batch after
  write_batch_keeps messages zero e k v h = h
  write_batch_keeps messages (suc n) e k v h =
      let (b, e₁, e₂) = >>=-eq-ok (batch_from sha256 prefix tables messages empty_batch) _ e in
      let (clear, delivered, _, own) = batch_from-Collected messages empty_batch e₁ in
      rw (sym (ok-injective e₂), after-deliveries n b, delivered)
        (insert_all-keeps (map entry_of messages) tables.deliveries k v
          (clear-entries messages k v clear h) h)
