-- ===== src/Block.antt =====
-- The unit of the ledger: crates/agent-ledger/src/block.rs, and the JSON values (serde_json) of a
-- row's payload with the accessors that the code uses.
--
-- A block's id is a row number of SQLite, which counts from 1; a cursor of 0 confirms nothing. Ids
-- are compared and never computed with, so they are natural numbers here.
use ronna_core.Prelude.{
  ℕ, String, Bool, Option, none, some, List, [], ◌∷◌, str_eq, leb, if◌then◌else◌, then_some,
}

pub data Role : Type 0 where
  user assistant system tool : Role

pub Role-discrete : Discrete Role
Role-discrete = hlevel

-- A JSON value. A number is a non-negative integer, a negative one (-(n + 1)) or any other.
mutual
  pub data Value : Type 0 where
    null : Value
    bool : Bool → Value
    uint : ℕ → Value
    nint : ℕ → Value
    float : String → Value
    str : String → Value
    arr : Items → Value
    obj : Members → Value

  pub data Items : Type 0 where
    nil : Items
    cons : Value → Items → Items

  pub data Members : Type 0 where
    end : Members
    member : String → Value → Members → Members

-- `serde_json::Map`, which holds a key once: `get` reads the first entry of the key.
abbrev pub Fields : Type 0
Fields = List (String × Value)

unfoldable pub get : Fields → String → Option Value
get [] key = none
get ((k, v) ∷ fields) key = if str_eq k key then some v else get fields key

unfoldable pub as_str : Value → Option String
as_str (str s) = some s
as_str _ = none

unfoldable pub as_bool : Value → Option Bool
as_bool (bool b) = some b
as_bool _ = none

-- The greatest i64, and one more than the greatest u64 and u32.
abbrev pub i64_max : ℕ
i64_max = 9223372036854775807

abbrev pub u64_mod : ℕ
u64_mod = 18446744073709551616

-- `as_i64`, of the values that are not negative; every reader drops the others.
unfoldable pub as_natural_i64 : Value → Option ℕ
as_natural_i64 (uint n) = then_some (leb n i64_max) n
as_natural_i64 _ = none

-- `as_array`, each element read by `as_str` and the others dropped.
strings : Items → List String
strings nil = []
strings (cons (str s) items) = s ∷ strings items
strings (cons _ items) = strings items

unfoldable pub as_strings : Value → Option (List String)
unfolding strings
as_strings (arr items) = some (strings items)
as_strings _ = none

pub record Block : Type 0 where
  pub id : ℕ
  pub role : Option Role
  pub block_type : String
  pub created_at : String
  pub dispatch_anchor : Option ℕ
  pub fields : Fields

-- The names of a row's header, which a payload may not use.
abbrev pub reserved_field_names : List String
reserved_field_names = "id" ∷ "role" ∷ "type" ∷ "created_at" ∷ "dispatch_anchor" ∷ []

unfoldable pub role_as_str : Role → String
role_as_str Role.user = "user"
role_as_str Role.assistant = "assistant"
role_as_str Role.system = "system"
role_as_str Role.tool = "tool"
