-- ===== src/Json.antt =====
-- adpulse/common.py and the standard library's `json`: JSON values, the canonical text of one and
-- its digest. A number is a natural: the program's counts, offsets and epoch milliseconds. The
-- texts that it hashes hold no float and no negative number.
use Prim.Native.Char.{code}
use Prim.Native.String.{compare, ◌++◌}
use Prim.Native.Nat.{Ordering}
use native.Mathlib.Decide.{ℕ_discrete}
use ad_pulse.Prelude.{
  ℕ, zero, suc, ◌/◌, ◌%◌, String, ◌≡◌, refl, Bool, ◌-◌, true, false, List, [], ◌∷◌, Option, none,
  some, ltb, if◌then◌else◌, Eq, is_some, ◌==◌, string_eq, nat_eq, String_discrete,
}

mutual
  pub data Value : Type 0 where
    null : Value
    bool : Bool → Value
    num : ℕ → Value
    str : String → Value
    obj : Fields → Value
    arr : Items → Value

  pub data Fields : Type 0 where
    end : Fields
    field : String → Value → Fields → Fields

  pub data Items : Type 0 where
    nil : Items
    cons : Value → Items → Items

hex_digits : List String
hex_digits =
    "0" ∷ "1" ∷ "2" ∷ "3" ∷ "4" ∷ "5" ∷ "6" ∷ "7" ∷ "8" ∷ "9" ∷ "a" ∷ "b" ∷ "c" ∷ "d" ∷ "e" ∷ "f"
    ∷ []

pick : List String → ℕ → String
pick [] i = ""
pick (s ∷ l) zero = s
pick (s ∷ l) (suc i) = pick l i

-- A digit, decimal or hexadecimal.
digit_text : ℕ → String
unfolding hex_digits pick
digit_text d = pick hex_digits d

-- A number in decimal. The fuel is above the number, and each round divides that by ten.
decimal_from : ℕ → ℕ → String → String
unfolding digit_text
decimal_from zero n rest = rest
decimal_from (suc fuel) n rest =
    let front = digit_text (n % 10) ++ rest in
    let more = decimal_from fuel (n / 10) front in if ltb n 10 then front else more

unfoldable pub decimal : ℕ → String
unfolding decimal_from
decimal n = decimal_from (suc n) n ""

-- What `json.dumps` with `ensure_ascii=False` writes for the character with the code `n`.
escape : ℕ → String → String
unfolding digit_text
escape n plain =
    if n == 34
    then "\\\""
    else if n == 92
    then "\\\\"
    else if n == 10
    then "\\n"
    else if n == 13
    then "\\r"
    else if n == 9
    then "\\t"
    else if n == 12
    then "\\f"
    else if n == 8
    then "\\b"
    else if ltb n 16
    then "\\u000" ++ digit_text n
    else if ltb n 32
    then "\\u001" ++ digit_text (n - 16)
    else plain

escape_all : String → String
unfolding escape
escape_all String.[] = ""
escape_all (String.◌∷◌ c s) = escape (code c) (String.◌∷◌ c "") ++ escape_all s

quote : String → String
unfolding escape_all
quote s = "\"" ++ (escape_all s ++ "\"")

-- `sort_keys=True`: members by the order of code points, which is that of the UTF-8 bytes.
insert_member : String × String → List (String × String) → List (String × String)
insert_member m [] = m ∷ []
insert_member (k, t) ((j, u) ∷ l) = elim (compare k j) [
  | Ordering.lt ↦ (k, t) ∷ (j, u) ∷ l
  | _ ↦ (j, u) ∷ insert_member (k, t) l
]

sort_members : List (String × String) → List (String × String)
unfolding insert_member
sort_members [] = []
sort_members (m ∷ l) = insert_member m (sort_members l)

join_members : List (String × String) → String
unfolding quote
join_members [] = ""
join_members ((k, t) ∷ []) = quote k ++ (":" ++ t)
join_members ((k, t) ∷ (j, u) ∷ l) = quote k ++ (":" ++ (t ++ ("," ++ join_members ((j, u) ∷ l))))

bool_text : Bool → String
bool_text true = "true"
bool_text false = "false"

unfoldable mutual
  unfolding decimal quote sort_members join_members bool_text

  pub canonical : Value → String
  canonical null = "null"
  canonical (bool b) = bool_text b
  canonical (num n) = decimal n
  canonical (str s) = quote s
  canonical (arr xs) = "[" ++ (canonical_items xs ++ "]")
  canonical (obj fs) = "{" ++ (join_members (sort_members (canonical_fields fs)) ++ "}")

  pub canonical_items : Items → String
  canonical_items nil = ""
  canonical_items (cons x nil) = canonical x
  canonical_items (cons x (cons y xs)) = canonical x ++ ("," ++ canonical_items (cons y xs))

  pub canonical_fields : Fields → List (String × String)
  canonical_fields end = []
  canonical_fields (field k v fs) = (k, canonical v) ∷ canonical_fields fs

-- `hashlib.sha256` of the canonical text; the hash function is the argument.
unfoldable pub digest : (String → String) → Value → String
digest sha256 v = sha256 (canonical v)

-- `d.get(k)` of an object
unfoldable pub get_field : String → Fields → Option Value
get_field k end = none
get_field k (field j v fs) = if k == j then some v else get_field k fs

abbrev pub get : String → Value → Option Value
get k (obj fs) = get_field k fs
get k _ = none

-- A list as a JSON array.
abbrev pub array : List Value → Items
array [] = nil
array (v ∷ l) = cons v (array l)

canonical_example :
    canonical
      (obj (field "b" (arr (cons (num 120) (cons null nil))) (field "a\n" (str "x\"\u{1f}") end)))
    ≡ "{\"a\\n\":\"x\\\"\\u001f\",\"b\":[120,null]}"
unfolding canonical ℕ_discrete
canonical_example = refl

unfoldable pub Value_discrete : Discrete Value
Value_discrete = hlevel (ℕ_discrete, String_discrete)

instance abbrev pub value_eq : Eq Value
value_eq = record { dec = Value_discrete }

-- `d[k] = v` of an object: a key that is there keeps its place
unfoldable pub set_field : String → Value → Fields → Fields
set_field k v end = field k v end
set_field k v (field j w fs) = if k == j then field j v fs else field j w (set_field k v fs)

-- `d.pop(k)` of an object that has `k`
unfoldable pub pop_field : String → Fields → Fields
pop_field k end = end
pop_field k (field j w fs) = if k == j then fs else field j w (pop_field k fs)

-- `k in d` of an object
abbrev pub has_field : String → Fields → Bool
has_field k fs = is_some (get_field k fs)
