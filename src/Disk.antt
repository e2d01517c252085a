-- ===== src/Disk.antt =====
-- adpulse/disk.py: the containers that the oracle keeps on disk. A table has its rows in the order
-- of `seq`; a key and a value are the canonical texts of JSON values, where a tuple is an array, and
-- `loads` is `json.loads`.
pub mod Operations
pub mod Encoded
pub mod Refines
pub mod Sequence
use ad_pulse.Prelude.{
  ℕ, zero, suc, ◌+◌, ◌%◌, String, Bool, true, false, ◌&&◌, ◌||◌, not, List, [], ◌∷◌, ◌++◌, map,
  Option, none, some, if◌then◌else◌, ◌==◌, string_eq, nat_eq, ℕ_discrete, leb, length, Result, ok,
  raise, ◌>>=◌, ◌>>◌, raise_if, or_raise, value_error, key_error, database_error, is_some,
}
use ad_pulse.Prelude.Dict.{Dict, lookup, insert, contains, values}
use ad_pulse.Prelude.Sort.{sort_by}
use ad_pulse.Json.{Value, str, bool, obj, canonical, get, value_eq}
use ad_pulse.Names.{codes}

pub data Table : Type 0 where
  mapping_rows : Dict String String → Table
  sequence_rows : List String → Table

-- `durable` is what the last commit left, and `is_open` says that a transaction is open.
pub record Workspace : Type 0 where
  pub tables : Dict String Table
  pub durable : Dict String Table
  pub is_open : Bool
  pub writes : ℕ

-- `db.commit()`
unfoldable pub commit : Workspace → Workspace
commit ws = record ws { durable = ws.tables; is_open = false }

-- `tick`
unfoldable pub tick : Workspace → Workspace
unfolding commit
tick ws =
    let counted : Workspace = record ws { writes = ws.writes + 1 } in
    if counted.writes % 10000 == 0 then commit counted else counted

-- `close`
unfoldable pub close : Workspace → Workspace
unfolding commit
close ws = commit ws

-- A write to a table opens a transaction.
unfoldable pub write : String → Table → Workspace → Workspace
unfolding insert
write name t ws = record ws { tables = insert name t ws.tables; is_open = true }

-- `CREATE TABLE`, which outside of a transaction is durable at once.
unfoldable pub create_in : Option Table → String → Table → Workspace → Result Workspace
unfolding insert
create_in (some _) name t ws = raise (database_error "table already exists")
create_in none name t ws = ok (record ws {
  tables = insert name t ws.tables;
  durable = if ws.is_open then ws.durable else insert name t ws.tables;
})

unfoldable pub create : String → Table → Workspace → Result Workspace
unfolding lookup create_in
create name t ws = create_in (lookup name ws.tables) name t ws

-- `str.isidentifier` of a name in ASCII
unfoldable pub is_start : ℕ → Bool
unfolding ℕ_discrete
is_start n = (leb b'a' n && leb n b'z') || ((leb b'A' n && leb n b'Z') || n == b'_')

unfoldable pub all_identifier : List ℕ → Bool
unfolding is_start
all_identifier [] = true
all_identifier (n ∷ l) = (is_start n || (leb b'0' n && leb n b'9')) && all_identifier l

unfoldable pub identifier_codes : List ℕ → Bool
unfolding is_start all_identifier
identifier_codes [] = false
identifier_codes (n ∷ l) = is_start n && all_identifier l

-- The rows of a mapping.
unfoldable pub mapping_in : Option Table → Result (Dict String String)
mapping_in (some (mapping_rows rows)) = ok rows
mapping_in _ = raise (database_error "no such table")

unfoldable pub mapping_of : String → Workspace → Result (Dict String String)
unfolding mapping_in lookup
mapping_of name ws = mapping_in (lookup name ws.tables)

unfoldable pub sequence_in : Option Table → Result (List String)
sequence_in (some (sequence_rows rows)) = ok rows
sequence_in _ = raise (database_error "no such table")

unfoldable pub sequence_of : String → Workspace → Result (List String)
unfolding sequence_in lookup
sequence_of name ws = sequence_in (lookup name ws.tables)

-- What a query yields, decoded value by value.
unfoldable pub decode_all : (String → Result Value) → List String → Result (List Value)
decode_all loads [] = ok []
decode_all loads (t ∷ l) = do v ← loads t; rest ← decode_all loads l; ok (v ∷ rest)

-- `json_extract(key, '$')`: a text itself, and the JSON text of an array
abbrev pub extract : Value → String
extract (str s) = s
extract v = canonical v

-- `DiskMap.__setitem__`
unfoldable pub set_item : String → Value → Value → Workspace → Result Workspace
unfolding mapping_of insert tick write
set_item name key value ws = do
  rows ← mapping_of name ws
  ok (tick (write name (mapping_rows (insert (canonical key) (canonical value) rows)) ws))

-- `DiskMap.add`
unfoldable pub add : String → Value → Workspace → Result Workspace
unfolding set_item
add name key ws = set_item name key (bool true) ws

-- `DiskMap.__contains__`
unfoldable pub has_key : String → Value → Workspace → Result Bool
unfolding mapping_of lookup
has_key name key ws = do rows ← mapping_of name ws; ok (is_some (lookup (canonical key) rows))

-- `DiskMap.__len__`
unfoldable pub size : String → Workspace → Result ℕ
unfolding mapping_of
size name ws = do rows ← mapping_of name ws; ok (length rows)

unfoldable pub set_all : String → List (Value × Value) → Workspace → Result Workspace
unfolding set_item
set_all name [] ws = ok ws
set_all name ((key, value) ∷ l) ws = do ws' ← set_item name key value ws; set_all name l ws'

-- `DiskWorkspace.mapping` with `DiskMap.__init__`
unfoldable pub mapping : String → List (Value × Value) → Workspace → Result Workspace
unfolding create set_all identifier_codes codes
mapping name pairs ws = do
  raise_if (not (identifier_codes (codes name))) (value_error "Invalid internal table name")
  created ← create name (mapping_rows []) ws
  set_all name pairs created

-- `DiskWorkspace.sequence` with `DiskSequence.__init__`
unfoldable pub sequence : String → Workspace → Result Workspace
unfolding create identifier_codes codes
sequence name ws = do
  raise_if (not (identifier_codes (codes name))) (value_error "Invalid internal table name")
  create name (sequence_rows []) ws

-- `DiskSequence.append`
unfoldable pub append : String → Value → Workspace → Result Workspace
unfolding sequence_of tick write
append name value ws = do
  rows ← sequence_of name ws
  ok (tick (write name (sequence_rows (rows ++ canonical value ∷ [])) ws))

-- `DiskSequence.__len__`
unfoldable pub count : String → Workspace → Result ℕ
unfolding sequence_of
count name ws = do rows ← sequence_of name ws; ok (length rows)

abbrev pub association_key : Value → String
association_key v = elim (get "association_key" v) [ some k ↦ extract k | none ↦ "" ]

module _ (loads : String → Result Value) where
  -- `json.loads(row[0]) if row else default`, where `none` is the caller's default
  unfoldable pub decode_row : Option String → Result (Option Value)
  decode_row none = ok none
  decode_row (some t) = do value ← loads t; ok (some value)

  -- `DiskMap.get`
  unfoldable pub get_item : String → Value → Workspace → Result (Option Value)
  unfolding mapping_of lookup decode_row
  get_item name key ws = do rows ← mapping_of name ws; decode_row (lookup (canonical key) rows)

  -- `DiskMap.__getitem__`
  unfoldable pub item : String → Value → Workspace → Result Value
  unfolding get_item
  item name key ws = do found ← get_item name key ws; or_raise found (key_error (canonical key))

  unfoldable pub keep_or_set :
      String → Value → Value → Workspace → Option Value → Result (Value × Workspace)
  unfolding set_item
  keep_or_set name key default ws (some value) = ok (value, ws)
  keep_or_set name key default ws none = do ws' ← set_item name key default ws; ok (default, ws')

  -- `DiskMap.setdefault`
  unfoldable pub set_default : String → Value → Value → Workspace → Result (Value × Workspace)
  unfolding get_item keep_or_set
  set_default name key default ws = do
    found ← get_item name key ws
    keep_or_set name key default ws found

  unfoldable pub decode_entries : Dict String String → Result (List (Value × Value))
  decode_entries [] = ok []
  decode_entries ((k, t) ∷ l) = do
    key ← loads k
    value ← loads t
    rest ← decode_entries l
    ok ((key, value) ∷ rest)

  -- `DiskMap.items`
  unfoldable pub items : String → Workspace → Result (List (Value × Value))
  unfolding mapping_of decode_entries
  items name ws = do rows ← mapping_of name ws; decode_entries rows

  -- `DiskMap.values`
  unfoldable pub all_values : String → Workspace → Result (List Value)
  unfolding mapping_of decode_all
  all_values name ws = do rows ← mapping_of name ws; decode_all loads (values rows)

  -- `DiskMap.ordered`
  unfoldable pub ordered : String → Workspace → Result (List Value)
  unfolding items sort_by
  ordered name ws = do
    entries ← items name ws
    ok (values (sort_by (λ (e : Value × Value). extract e.0) entries))

  -- `DiskSequence.__iter__`
  unfoldable pub each : String → Workspace → Result (List Value)
  unfolding sequence_of decode_all
  each name ws = do rows ← sequence_of name ws; decode_all loads rows

  -- `DiskSequence.ordered`
  unfoldable pub ordered_by : String → String → Workspace → Result (List Value)
  unfolding each sort_by
  ordered_by name field ws = do
    raise_if (not (field == "association_key")) (value_error "Unknown sort field")
    found ← each name ws
    ok (sort_by association_key found)
