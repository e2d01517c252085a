-- ===== src/Disk/Sequence.antt =====
-- `DiskSequence` of adpulse/disk.py against a list.
use mathlib.Core.List.{append-nil, append_assoc}
use mathlib.Core.Path.{subst}
use ad_pulse.Prelude.{
  String, ◌≡◌, refl, ap, List, [], ◌∷◌, ◌++◌, some, string_eq, arith, length, Result, ok, ◌>>=◌,
  All, >>=-eq-ok, raise_if-eq-ok, ok-injective,
}
use ad_pulse.Prelude.Dict.{lookup, lookup-insert_self}
use ad_pulse.Json.{Value, canonical, value_eq}
use ad_pulse.Disk
use ad_pulse.Disk.{
  append, sequence, sequence_of, sequence_in, sequence_rows, each, Workspace, Table, mapping_rows,
  set_item, add, has_key, size, get_item, item, set_default, items, all_values, ordered, mapping_of,
  decode_all, decode_entries, decode_row, mapping_in, keep_or_set, extract, tick, write, commit,
  mapping, create, set_all, create_in,
}
use ad_pulse.Disk.Encoded.{IsStable, create_lem, tables-tick}

-- The texts of a sequence's rows.
texts : List Value → List String
texts [] = []
texts (v ∷ l) = canonical v ∷ texts l

texts-append : (l : List Value) (v : Value) → texts (l ++ v ∷ []) ≡ texts l ++ canonical v ∷ []
unfolding texts
texts-append [] v = refl
texts-append (w ∷ l) v = ap (λ r. canonical w ∷ r) (texts-append l v)

length-texts : (l : List Value) → length (texts l) ≡ length l
unfolding texts
length-texts [] = refl
length-texts (v ∷ l) = omega (arith, length-texts l)

-- The appends of a list, in its order.
unfoldable pub append_all : String → List Value → Workspace → Result Workspace
append_all name [] ws = ok ws
append_all name (v ∷ l) ws = do ws' ← append name v ws; append_all name l ws'

module _ (loads : String → Result Value) (name : String) where
  decode_all-texts : (l : List Value) → All (IsStable loads) l → decode_all loads (texts l) ≡ ok l
  unfolding texts decode_all
  decode_all-texts [] h = refl
  decode_all-texts (v ∷ l) h = rw (h.0, decode_all-texts l h.1) refl

  abbrev HoldsSequence : List Value → Workspace → Type 0
  HoldsSequence l ws = lookup name ws.tables ≡ some (sequence_rows (texts l))

  append-HoldsSequence :
      (l : List Value) (v : Value) (ws ws' : Workspace)
      → HoldsSequence l ws
      → append name v ws ≡ ok ws'
      → HoldsSequence (l ++ v ∷ []) ws'
  unfolding append sequence_of sequence_in
  append-HoldsSequence l v ws ws' h made =
      let written = write name (sequence_rows (texts l ++ canonical v ∷ [])) ws in
      let e : ok (tick written) ≡ ok ws' = rw h at made in
      rw (← ok-injective e, tables-tick written, texts-append l v)
        (unfold write in
          lookup-insert_self name (sequence_rows (texts l ++ canonical v ∷ [])) ws.tables)

  append_all-HoldsSequence :
      (l r : List Value) (ws ws' : Workspace)
      → HoldsSequence l ws
      → append_all name r ws ≡ ok ws'
      → HoldsSequence (l ++ r) ws'
  unfolding append_all
  append_all-HoldsSequence l [] ws ws' h made =
      rw append-nil (subst (HoldsSequence l) (ok-injective made) h)
  append_all-HoldsSequence l (v ∷ r) ws ws' h made =
      let (next, e, rest) = >>=-eq-ok _ _ made in
      rw (← append_assoc l (v ∷ []) r) (
        append_all-HoldsSequence (l ++ v ∷ []) r next ws' (append-HoldsSequence l v ws next h e)
          rest)

-- What `DiskSequence.append` puts into a sequence after `sequence` has made it, one after the
-- other, iteration yields in that order, and the length is their number, if the values come back
-- from their JSON texts.
pub sequence_lem :
    (loads : String → Result Value) (name : String) (l : List Value) (ws made filled : Workspace)
    → All (IsStable loads) l
    → sequence name ws ≡ ok made
    → append_all name l made ≡ ok filled
    → (each loads name filled ≡ ok l) × (Disk.count name filled ≡ ok (length l))
unfolding sequence create texts each sequence_of sequence_in Disk.count
sequence_lem loads name l ws made filled h new appended =
    let (valid, e) = raise_if-eq-ok _ _ _ new in
    let h' =
      append_all-HoldsSequence loads name [] l made filled
        (create_lem (lookup name ws.tables) name (sequence_rows []) ws made e) appended in
    (rw h' (decode_all-texts loads name l h), rw (h', length-texts l) refl)
