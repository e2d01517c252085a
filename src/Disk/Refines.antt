-- ===== src/Disk/Refines.antt =====
-- A mapping on disk (adpulse/disk.py) against a `dict`, operation by operation.
use mathlib.Core.Path.{subst}
use ad_pulse.Prelude.{
  String, ◌≡◌, refl, true, List, [], ◌∷◌, string_eq, Result, ok, raise, ◌>>=◌, All, >>=-eq-ok,
  raise_if-eq-ok, ok-injective, Option-cases, inl, inr,
}
use ad_pulse.Prelude.Dict.{Dict, lookup, insert, lookup-insert_self, insert_all}
use ad_pulse.Json.{Value, bool, canonical, value_eq}
use ad_pulse.Disk.{
  Workspace, mapping_rows, set_item, add, has_key, size, get_item, item, set_default, items,
  all_values, ordered, decode_row, keep_or_set, tick, write, mapping, set_all,
}
use ad_pulse.Disk.Operations.{
  Operation, Answer, done, get_or, set, set_or, get_at, mark, has, all_items, all_in_order,
  sorted_values, count, disk_step, dict_step, run,
}
use ad_pulse.Disk.Encoded.{
  Holds, IsStable, IsStable-lookup, IsStableDict, IsStableStep, create-Holds, decode_all-encoded,
  decode_entries-encoded, encoded, insert-IsStableDict, insert-encoded, length-encoded,
  lookup-encoded, mapping_of_lem, tables-tick,
}

module _ (loads : String → Result Value) (name : String) where
  set_item-Holds :
      (k v : Value) (d : Dict Value Value) (ws : Workspace)
      → IsStable loads k
      → IsStableDict loads d
      → Holds name d ws
      → (ws' : Workspace) × (set_item name k v ws ≡ ok ws') × Holds name (insert k v d) ws'
  unfolding set_item write
  set_item-Holds k v d ws hk hd h = (
    tick (write name (mapping_rows (insert (canonical k) (canonical v) (encoded d))) ws),
    rw (mapping_of_lem name d ws h) refl,
    rw
        (
          tables-tick
              (write name (mapping_rows (insert (canonical k) (canonical v) (encoded d))) ws),
          lookup-insert_self name (mapping_rows (insert (canonical k) (canonical v) (encoded d)))
              ws.tables,
          insert-encoded loads k v d hk hd,
        )
        refl,
  )

  get_item_lem :
      (k : Value) (d : Dict Value Value) (ws : Workspace)
      → IsStable loads k
      → IsStableDict loads d
      → Holds name d ws
      → get_item loads name k ws ≡ ok (lookup k d)
  unfolding get_item decode_row
  get_item_lem k d ws hk hd h =
      rw (mapping_of_lem name d ws h, lookup-encoded loads k d hk hd)
        (elim (Option-cases (lookup k d)) [
          | inl e ↦ rw e refl
          | inr (v, e) ↦ rw (e, IsStable-lookup loads k d hd e) refl
        ])

  -- The two results are the same error, or the same answer in states that correspond.
  abbrev Simulates : Result (Answer × Workspace) → Result (Answer × Dict Value Value) → Type 0
  Simulates (ok (a, ws)) (ok (b, d)) = (a ≡ b) × Holds name d ws × IsStableDict loads d
  Simulates (raise e) (raise f) = e ≡ f
  Simulates _ _ = ⊥

  write_lem :
      (k v : Value) (d : Dict Value Value) (ws : Workspace) (o : Answer)
      → IsStable loads k
      → IsStable loads v
      → IsStableDict loads d
      → Holds name d ws
      → Simulates (set_item name k v ws >>= λ ws'. ok (o, ws')) (ok (o, insert k v d))
  write_lem k v d ws o hk hv hd h =
      let (ws', e, h') = set_item-Holds k v d ws hk hd h in
      rw e (refl, h', insert-IsStableDict loads k v d hk hv hd)

  set_or_lem :
      (k v : Value) (d : Dict Value Value) (ws : Workspace)
      → IsStable loads k × IsStable loads v
      → IsStableDict loads d
      → Holds name d ws
      → Simulates (disk_step loads name (set_or k v) ws) (dict_step loads (set_or k v) d)
  unfolding disk_step dict_step set_default keep_or_set
  set_or_lem k v d ws ho hd h =
      rw (get_item_lem k d ws ho.0 hd h) (elim (Option-cases (lookup k d)) [
        | inl e ↦ rw e (
            let (ws', written, h') = set_item-Holds k v d ws ho.0 hd h in
            rw written (refl, h', insert-IsStableDict loads k v d ho.0 ho.1 hd))
        | inr (w, e) ↦ rw e (refl, h, hd)
      ])

  items_lem :
      (d : Dict Value Value) (ws : Workspace)
      → IsStableDict loads d
      → Holds name d ws
      → items loads name ws ≡ ok d
  unfolding items
  items_lem d ws hd h = rw (mapping_of_lem name d ws h) (decode_entries-encoded loads d hd)

  after :
      (r : Result (Answer × Workspace)) (q : Result (Answer × Dict Value Value))
      (l : List Operation)
      → Simulates r q
      → ((ws : Workspace) (d : Dict Value Value)
          → IsStableDict loads d
          → Holds name d ws
          → run (disk_step loads name) l ws ≡ run (dict_step loads) l d)
      → (r >>= λ p. run (disk_step loads name) l p.1 >>= λ rest. ok (p.0 ∷ rest))
        ≡ (q >>= λ p. run (dict_step loads) l p.1 >>= λ rest. ok (p.0 ∷ rest))
  after (ok (a, ws)) (ok (b, d)) l s k = rw (s.0, k ws d s.2 s.1) refl
  after (ok _) (raise _) l s k = elim s [ ]
  after (raise _) (ok _) l s k = elim s [ ]
  after (raise e) (raise f) l s k = rw s refl

  step-Simulates :
      (o : Operation) (d : Dict Value Value) (ws : Workspace)
      → IsStableStep loads o
      → IsStableDict loads d
      → Holds name d ws
      → Simulates (disk_step loads name o ws) (dict_step loads o d)
  unfolding disk_step dict_step
  step-Simulates (get_or k default) d ws ho hd h = rw (get_item_lem k d ws ho hd h) (refl, h, hd)
  step-Simulates (set k v) d ws ho hd h = write_lem k v d ws done ho.0 ho.1 hd h
  step-Simulates (set_or k default) d ws ho hd h = set_or_lem k default d ws ho hd h
  step-Simulates (get_at k) d ws ho hd h =
      unfold item in
      rw (get_item_lem k d ws ho hd h)
        (elim (Option-cases (lookup k d)) [ inl e ↦ rw e refl | inr (v, e) ↦ rw e (refl, h, hd) ])
  step-Simulates (mark k) d ws ho hd h =
      unfold add in write_lem k (bool true) d ws done ho.0 ho.1 hd h
  step-Simulates (has k) d ws ho hd h =
      unfold has_key in
      rw (mapping_of_lem name d ws h, lookup-encoded loads k d ho hd)
        (elim (Option-cases (lookup k d)) [
          | inl e ↦ rw e (refl, h, hd)
          | inr (v, e) ↦ rw e (refl, h, hd)
        ])
  step-Simulates all_items d ws ho hd h = rw (items_lem d ws hd h) (refl, h, hd)
  step-Simulates all_in_order d ws ho hd h =
      unfold all_values in
      rw (mapping_of_lem name d ws h, decode_all-encoded loads d hd) (refl, h, hd)
  step-Simulates sorted_values d ws ho hd h =
      unfold ordered in rw (items_lem d ws hd h) (refl, h, hd)
  step-Simulates count d ws ho hd h =
      unfold size in rw (mapping_of_lem name d ws h, length-encoded loads d) (refl, h, hd)

  run-Simulates :
      (l : List Operation) (d : Dict Value Value) (ws : Workspace)
      → All (IsStableStep loads) l
      → IsStableDict loads d
      → Holds name d ws
      → run (disk_step loads name) l ws ≡ run (dict_step loads) l d
  unfolding run
  run-Simulates [] d ws hl hd h = refl
  run-Simulates (o ∷ l) d ws hl hd h =
      after (disk_step loads name o ws) (dict_step loads o d) l (step-Simulates o d ws hl.0 hd h)
        (λ ws' d' hd' h'. run-Simulates l d' ws' hl.1 hd' h')

module _ (loads : String → Result Value) (name : String) where
  abbrev Stored : Dict Value Value → Workspace → Type 0
  Stored d ws = IsStableDict loads d × Holds name d ws

  set_all-Stored :
      (pairs : List (Value × Value)) (d : Dict Value Value) (ws ws' : Workspace)
      → All (λ (e : Value × Value). IsStable loads e.0 × IsStable loads e.1) pairs
      → Stored d ws
      → set_all name pairs ws ≡ ok ws'
      → Stored (insert_all pairs d) ws'
  unfolding set_all insert_all
  set_all-Stored [] d ws ws' hp h made = subst (Stored d) (ok-injective made) h
  set_all-Stored ((k, v) ∷ l) d ws ws' hp h made =
      let (next, e, h') = set_item-Holds loads name k v d ws hp.0.0 h.0 h.1 in
      set_all-Stored l (insert k v d) next ws' hp.1
        (insert-IsStableDict loads k v d hp.0.0 hp.0.1 h.0, h') (rw e at made)

-- A mapping that `mapping` makes, filled with pairs, answers every sequence of operations as the
-- `dict` of the pairs does, up to the same error, if the keys and values that are written come back
-- from their JSON texts.
pub disk_refines_dict :
    (loads : String → Result Value) (name : String) (pairs : List (Value × Value))
    (l : List Operation) (ws ws' : Workspace)
    → All (λ (e : Value × Value). IsStable loads e.0 × IsStable loads e.1) pairs
    → All (IsStableStep loads) l
    → mapping name pairs ws ≡ ok ws'
    → run (disk_step loads name) l ws' ≡ run (dict_step loads) l (insert_all pairs [])
unfolding mapping
disk_refines_dict loads name pairs l ws ws' hp hl made =
    let (valid, rest) = raise_if-eq-ok _ _ _ made in
    let (created, e, filled) = >>=-eq-ok _ _ rest in
    let (hd, h) =
      set_all-Stored loads name pairs [] created ws' hp (tt, create-Holds name ws created e)
        filled in
    run-Simulates loads name l (insert_all pairs []) ws' hl hd h
