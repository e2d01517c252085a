-- ===== src/Disk/Encoded.antt =====
-- The rows of a `dict`, and what the operations of adpulse/disk.py do to them.
use mathlib.Core.Option
use mathlib.Core.Path.{subst}
use ad_pulse.Prelude.{
  some_injective, String, ◌≡◌, refl, ap, true, [], ◌∷◌, Option, none, some, ◌==◌, string_eq, arith,
  length, Result, ok, ok-injective, Bool-cases, inl, inr,
}
use ad_pulse.Prelude.Dict.{Dict, lookup, insert, values, lookup-insert_self}
use ad_pulse.Json.{Value, bool, canonical, value_eq}
use ad_pulse.Disk.{
  Workspace, Table, mapping_rows, mapping_of, decode_all, decode_entries, mapping_in, tick, commit,
  create, create_in,
}
use ad_pulse.Disk.Operations.{Operation, get_or, set, set_or, get_at, mark, has}

-- The rows of a `dict`.
unfoldable pub encoded : Dict Value Value → Dict String String
encoded [] = []
encoded ((k, v) ∷ d) = (canonical k, canonical v) ∷ encoded d

module _ (loads : String → Result Value) where
  -- A value comes back from its text.
  abbrev pub IsStable : Value → Type 0
  IsStable v = loads (canonical v) ≡ ok v

  abbrev pub IsStableStep : Operation → Type 0
  IsStableStep (get_or k default) = IsStable k
  IsStableStep (set k v) = IsStable k × IsStable v
  IsStableStep (set_or k default) = IsStable k × IsStable default
  IsStableStep (get_at k) = IsStable k
  IsStableStep (mark k) = IsStable k × IsStable (bool true)
  IsStableStep (has k) = IsStable k
  IsStableStep _ = Unit

  abbrev pub IsStableDict : Dict Value Value → Type 0
  IsStableDict [] = Unit
  IsStableDict ((k, v) ∷ d) = IsStable k × IsStable v × IsStableDict d

  pub canonical_injective :
      (j k : Value) → IsStable j → IsStable k → canonical j ≡ canonical k → j ≡ k
  canonical_injective j k hj hk e = cc

  pub canonical-beq :
      (j k : Value) → IsStable j → IsStable k → (canonical j == canonical k) ≡ (j == k)
  canonical-beq j k hj hk = ground (arith, canonical_injective j k)

  pub lookup-encoded :
      (k : Value) (d : Dict Value Value)
      → IsStable k
      → IsStableDict d
      → lookup (canonical k) (encoded d) ≡ Option.map canonical (lookup k d)
  unfolding lookup encoded
  lookup-encoded k [] hk h = refl
  lookup-encoded k ((j, v) ∷ d) hk h =
      rw (canonical-beq k j hk h.0) (elim (Bool-cases (k == j)) [
        | inl e ↦ rw e refl
        | inr e ↦ rw e (lookup-encoded k d hk h.2)
      ])

  pub insert-encoded :
      (k v : Value) (d : Dict Value Value)
      → IsStable k
      → IsStableDict d
      → insert (canonical k) (canonical v) (encoded d) ≡ encoded (insert k v d)
  unfolding insert encoded
  insert-encoded k v [] hk h = refl
  insert-encoded k v ((j, w) ∷ d) hk h = rw (canonical-beq k j hk h.0) (elim (Bool-cases (k == j)) [
    | inl e ↦ rw e refl
    | inr e ↦ rw e (ap (λ r. (canonical j, canonical w) ∷ r) (insert-encoded k v d hk h.2))
  ])

  pub insert-IsStableDict :
      (k v : Value) (d : Dict Value Value)
      → IsStable k
      → IsStable v
      → IsStableDict d
      → IsStableDict (insert k v d)
  unfolding insert
  insert-IsStableDict k v [] hk hv h = (hk, hv, tt)
  insert-IsStableDict k v ((j, w) ∷ d) hk hv h = elim (Bool-cases (k == j)) [
    | inl e ↦ rw e (h.0, hv, h.2)
    | inr e ↦ rw e (h.0, h.1, insert-IsStableDict k v d hk hv h.2)
  ]

  pub IsStable-lookup :
      (k : Value) (d : Dict Value Value) {v : Value}
      → IsStableDict d
      → lookup k d ≡ some v
      → IsStable v
  unfolding lookup
  IsStable-lookup k [] h e = cc
  IsStable-lookup k ((j, w) ∷ d) {v} h e = elim (Bool-cases (k == j)) [
    | inl m ↦ subst IsStable (some_injective w v (rw m at e)) h.1
    | inr m ↦ IsStable-lookup k d h.2 (rw m at e)
  ]

  pub length-encoded : (d : Dict Value Value) → length (encoded d) ≡ length d
  unfolding encoded
  length-encoded [] = refl
  length-encoded (e ∷ d) = omega (arith, length-encoded d)

  pub decode_entries-encoded :
      (d : Dict Value Value) → IsStableDict d → decode_entries loads (encoded d) ≡ ok d
  unfolding encoded decode_entries
  decode_entries-encoded [] h = refl
  decode_entries-encoded ((k, v) ∷ d) h = rw (h.0, h.1, decode_entries-encoded d h.2) refl

  pub decode_all-encoded :
      (d : Dict Value Value)
      → IsStableDict d
      → decode_all loads (values (encoded d)) ≡ ok (values d)
  unfolding encoded decode_all
  decode_all-encoded [] h = refl
  decode_all-encoded ((k, v) ∷ d) h = rw (h.1, decode_all-encoded d h.2) refl

pub tables-tick : (ws : Workspace) → (tick ws).tables ≡ ws.tables
unfolding tick commit
tables-tick ws = ground arith

-- The table `name` of the workspace has the rows of the `dict`.
abbrev pub Holds : String → Dict Value Value → Workspace → Type 0
Holds name d ws = lookup name ws.tables ≡ some (mapping_rows (encoded d))

pub mapping_of_lem :
    (name : String) (d : Dict Value Value) (ws : Workspace)
    → Holds name d ws
    → mapping_of name ws ≡ ok (encoded d)
unfolding mapping_of mapping_in
mapping_of_lem name d ws h = rw h refl

pub create_lem :
    (o : Option Table) (name : String) (t : Table) (ws ws' : Workspace)
    → create_in o name t ws ≡ ok ws'
    → lookup name ws'.tables ≡ some t
unfolding create_in
create_lem (some _) name t ws ws' made = cc
create_lem none name t ws ws' made =
    rw (← ap (λ (w : Workspace). w.tables) (ok-injective made))
      (lookup-insert_self name t ws.tables)

pub create-Holds :
    (name : String) (ws ws' : Workspace)
    → create name (mapping_rows []) ws ≡ ok ws'
    → Holds name [] ws'
unfolding create encoded
create-Holds name ws ws' made =
    create_lem (lookup name ws.tables) name (mapping_rows []) ws ws' made
