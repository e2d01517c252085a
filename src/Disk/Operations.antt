-- ===== src/Disk/Operations.antt =====
-- The operations that the oracle makes on a mapping, on disk and on a `dict`.
use ad_pulse.Prelude.{
  ℕ, String, Bool, true, List, [], ◌∷◌, Option, none, some, string_eq, length, Result, ok, ◌>>=◌,
  or_raise, key_error,
}
use ad_pulse.Prelude.Dict.{Dict, lookup, insert, contains, values}
use ad_pulse.Prelude.Sort.{sort_by}
use ad_pulse.Json.{Value, bool, canonical, value_eq}
use ad_pulse.Disk.{
  Workspace, set_item, add, has_key, size, get_item, item, set_default, items, all_values, ordered,
  extract,
}

-- `d.setdefault(k, v)` leaves a `dict` with an entry for `k`.
abbrev pub put_new : Option Value → Value → Value → Dict Value Value → Dict Value Value
put_new (some _) k v d = d
put_new none k v d = insert k v d

-- The operations on a mapping, and what they answer.
pub data Operation : Type 0 where
  get_or set set_or : Value → Value → Operation
  get_at mark has : Value → Operation
  all_items all_in_order sorted_values count : Operation

pub data Answer : Type 0 where
  done : Answer
  value : Value → Answer
  flag : Bool → Answer
  number : ℕ → Answer
  list : List Value → Answer
  entries : List (Value × Value) → Answer

abbrev pub or_default : Option Value → Value → Value
or_default (some v) default = v
or_default none default = default

module _ (loads : String → Result Value) where
  -- The operation on the mapping `name` of a workspace.
  unfoldable pub disk_step : String → Operation → Workspace → Result (Answer × Workspace)
  disk_step name (get_or k default) ws = do
    found ← get_item loads name k ws
    ok (value (or_default found default), ws)
  disk_step name (set k v) ws = do ws' ← set_item name k v ws; ok (done, ws')
  disk_step name (set_or k default) ws = do
    (v, ws') ← set_default loads name k default ws
    ok (value v, ws')
  disk_step name (get_at k) ws = do v ← item loads name k ws; ok (value v, ws)
  disk_step name (mark k) ws = do ws' ← add name k ws; ok (done, ws')
  disk_step name (has k) ws = do b ← has_key name k ws; ok (flag b, ws)
  disk_step name all_items ws = do l ← items loads name ws; ok (entries l, ws)
  disk_step name all_in_order ws = do l ← all_values loads name ws; ok (list l, ws)
  disk_step name sorted_values ws = do l ← ordered loads name ws; ok (list l, ws)
  disk_step name count ws = do n ← size name ws; ok (number n, ws)

  -- The operation on a `dict`.
  unfoldable pub dict_step : Operation → Dict Value Value → Result (Answer × Dict Value Value)
  dict_step (get_or k default) d = ok (value (or_default (lookup k d) default), d)
  dict_step (set k v) d = ok (done, insert k v d)
  dict_step (set_or k default) d =
      ok (value (or_default (lookup k d) default), put_new (lookup k d) k default d)
  dict_step (get_at k) d = or_raise (lookup k d) (key_error (canonical k)) >>= λ v. ok (value v, d)
  dict_step (mark k) d = ok (done, insert k (bool true) d)
  dict_step (has k) d = ok (flag (contains k d), d)
  dict_step all_items d = ok (entries d, d)
  dict_step all_in_order d = ok (list (values d), d)
  dict_step sorted_values d = ok (list (values (sort_by (λ (e : Value × Value). extract e.0) d)), d)
  dict_step count d = ok (number (length d), d)

-- The answers of a sequence of operations, up to an error.
unfoldable pub run {ℓ} :
    {S : Type ℓ} → (Operation → S → Result (Answer × S)) → List Operation → S → Result (List Answer)
run step [] s = ok []
run step (o ∷ l) s = do (a, s') ← step o s; rest ← run step l s'; ok (a ∷ rest)
