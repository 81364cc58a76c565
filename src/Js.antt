-- ===== src/Js.antt =====
-- The values of the dynamic language: what a JSON payload of the control plane holds, and the
-- operators by which frontend/src reads it.
--
-- A number of the payload (a count, a port, an id, a number of bytes) is a natural number; a
-- conversion that fails gives NaN. Built-ins whose definition is a table or an open grammar
-- (Unicode case mapping, white space, the numeric and the date grammar) are the record `Builtins`.
pub mod Text
use ai_routing_panel.Prelude.{
  ℕ, ◌+◌, leb, String, ◌⧺◌, ◌===◌, Bool, true, false, not, ◌&&◌, ◌||◌, List, [], ◌∷◌, ◌==◌,
  if◌then◌else◌,
}
use ai_routing_panel.Js.Text.{show}

mutual
  pub data Fields : Type 0 where
    end : Fields
    field : String → Value → Fields → Fields

  pub data Value : Type 0 where
    undefined null : Value
    bool : Bool → Value
    num : ℕ → Value
    str : String → Value
    obj : Fields → Value
    arr : Items → Value

  pub data Items : Type 0 where
    no_items : Items
    before : Value → Items → Items

-- A result of `Number(v)`.
pub data Num : Type 0 where
  nan : Num
  nat : ℕ → Num

pub record Builtins : Type 0 where
  -- `String.prototype.toLowerCase` and `trim`
  pub to_lower : String → String
  pub trim : String → String
  -- `Number(s)` of a text
  pub parse_number : String → Num
  -- `Number.isFinite(Date.parse(s))`
  pub is_date : String → Bool
  -- a text as JSON, with its quotes
  pub quote : String → String
  -- the message of a TypeError
  pub type_error : String
  -- `encodeURIComponent`
  pub encode : String → String

pub items : Items → List Value
items no_items = []
items (before v vs) = v ∷ items vs

pub of_list : List Value → Items
of_list [] = no_items
of_list (v ∷ vs) = before v (of_list vs)

-- `Boolean(v)`
unfoldable pub truthy : Value → Bool
truthy undefined = false
truthy null = false
truthy (bool b) = b
truthy (num n) = not (n == 0)
truthy (str s) = not (s === "")
truthy (arr vs) = true
truthy (obj fs) = true

-- `a || b`
unfoldable pub or_else : Value → Value → Value
or_else a b = if truthy a then a else b

unfoldable pub lookup_field : String → Fields → Value
lookup_field k end = undefined
lookup_field k (field j v fs) = if j === k then v else lookup_field k fs

-- `v?.k` for a name `k` that the payload defines
unfoldable pub get : Value → String → Value
get (obj fs) k = lookup_field k fs
get _ k = undefined

unfoldable pub is_nullish : Value → Bool
is_nullish undefined = true
is_nullish null = true
is_nullish _ = false

-- `a ?? b`
unfoldable pub coalesce : Value → Value → Value
coalesce a b = if is_nullish a then b else a

-- `v === true`, `v === false`, `v === "s"`
unfoldable pub is_true : Value → Bool
is_true (bool b) = b
is_true _ = false

unfoldable pub is_false : Value → Bool
is_false (bool b) = not b
is_false _ = false

unfoldable pub is_str : Value → String → Bool
is_str (str t) s = t === s
is_str _ s = false

-- `a === b` for values of different places of a payload, where two objects are never identical
unfoldable pub same : Value → Value → Bool
same undefined undefined = true
same null null = true
same (bool true) (bool b) = b
same (bool false) (bool b) = not b
same (num n) (num m) = n == m
same (str s) (str t) = s === t
same _ _ = false

unfoldable pub is_array : Value → Bool
is_array (arr vs) = true
is_array _ = false

-- `v && typeof v === "object" && !Array.isArray(v)`
unfoldable pub is_object : Value → Bool
is_object (obj fs) = true
is_object _ = false

-- The elements of an array, and none of any other value.
unfoldable pub elements : Value → List Value
unfolding items
elements (arr vs) = items vs
elements _ = []

-- `{ ...v, [k]: w }`
unfoldable pub put_field : String → Value → Fields → Fields
put_field k w end = field k w end
put_field k w (field j v fs) = if j === k then field k w fs else field j v (put_field k w fs)

unfoldable pub put : String → Value → Value → Value
put k w (obj fs) = obj (put_field k w fs)
put k w _ = obj (field k w end)

-- `String(v)`; the elements of an array are joined by commas.
unfoldable mutual
  pub to_str : Value → String
  to_str undefined = "undefined"
  to_str null = "null"
  to_str (bool b) = if b then "true" else "false"
  to_str (num n) = show n
  to_str (str s) = s
  to_str (arr vs) = join_items vs
  to_str (obj fs) = "[object Object]"

  pub join_items : Items → String
  join_items no_items = ""
  join_items (before v no_items) = (if is_nullish v then "" else to_str v)
  join_items (before v (before w vs)) =
      (if is_nullish v then "" else to_str v) ⧺ "," ⧺ join_items (before w vs)

-- `Number(v)`
unfoldable pub to_num : Builtins → Value → Num
to_num js undefined = nan
to_num js null = nat 0
to_num js (bool b) = if b then nat 1 else nat 0
to_num js (num n) = nat n
to_num js (str s) = js.parse_number s
to_num js (arr vs) = js.parse_number (join_items vs)
to_num js (obj fs) = nan

-- `Number(v || 0)`
unfoldable pub number : Builtins → Value → Num
number js v = to_num js (or_else v (num 0))

-- `a + b` and `a >= b` on numbers
unfoldable pub add_num : Num → Num → Num
add_num (nat a) (nat b) = nat (a + b)
add_num _ _ = nan

unfoldable pub le_num : Num → Num → Bool
le_num (nat a) (nat b) = leb a b
le_num _ _ = false

-- `n > 0`
unfoldable pub is_positive : Num → Bool
is_positive nan = false
is_positive (nat n) = not (n == 0)

-- `Array.prototype.join(",")` and an array of given elements
unfoldable pub join : List Value → String
unfolding of_list
join vs = join_items (of_list vs)

unfoldable pub array : List Value → Value
unfolding of_list
array vs = arr (of_list vs)

-- An object literal.
unfoldable pub fields_of : List (String × Value) → Fields
fields_of [] = end
fields_of ((k, v) ∷ kvs) = field k v (fields_of kvs)

abbrev pub object : List (String × Value) → Value
object kvs = obj (fields_of kvs)

-- `JSON.stringify(v)`: an undefined field is left out, an undefined element is `null`.
unfoldable mutual
  pub stringify : Builtins → Value → String
  stringify js undefined = "null"
  stringify js null = "null"
  stringify js (bool b) = if b then "true" else "false"
  stringify js (num n) = show n
  stringify js (str s) = js.quote s
  stringify js (arr vs) = "[" ⧺ stringify_items js vs ⧺ "]"
  stringify js (obj fs) = "{" ⧺ stringify_fields js "" fs ⧺ "}"

  pub stringify_items : Builtins → Items → String
  stringify_items js no_items = ""
  stringify_items js (before v no_items) = stringify js v
  stringify_items js (before v (before w vs)) =
      stringify js v ⧺ "," ⧺ stringify_items js (before w vs)

  -- `comma` stands before the next field that is not left out.
  pub stringify_fields : Builtins → String → Fields → String
  stringify_fields js comma end = ""
  stringify_fields js comma (field k undefined fs) = stringify_fields js comma fs
  stringify_fields js comma (field k v fs) =
      comma ⧺ js.quote k ⧺ ":" ⧺ stringify js v ⧺ stringify_fields js "," fs
