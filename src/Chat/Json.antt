-- ===== src/Chat/Json.antt =====
-- The readings of a JSON value (serde_json) that providers/chat/sse.rs makes.
use ronna_core.Prelude.{
  ℕ, String, Option, none, some, List, [], ◌∷◌, str_eq, ltb, if◌then◌else◌, then_some, get_or,
}
use ronna_core.Block.{Value, Items, Members}

abbrev pub u32_mod : ℕ
u32_mod = 4294967296

member_of : Members → String → Option Value
member_of Members.end key = none
member_of (Members.member k v rest) key = if str_eq k key then some v else member_of rest key

-- `value[key]`: null where there is no such key, and on what is not an object.
unfoldable pub index : Value → String → Value
unfolding member_of
index (Value.obj members) key = get_or (member_of members key) Value.null
index _ key = Value.null

items_of : Items → List Value
items_of Items.nil = []
items_of (Items.cons value items) = value ∷ items_of items

unfoldable pub as_array : Value → Option (List Value)
unfolding items_of
as_array (Value.arr items) = some (items_of items)
as_array _ = none

-- `value.get(0)`
unfoldable pub get_first : Value → Option Value
get_first (Value.arr (Items.cons value items)) = some value
get_first _ = none

unfoldable pub as_u64 : Value → Option ℕ
as_u64 (Value.uint n) = some n
as_u64 _ = none

unfoldable pub as_object : Value → Option Value
as_object (Value.obj members) = some (Value.obj members)
as_object _ = none

-- `u32::try_from(n).ok()`
unfoldable pub as_u32 : ℕ → Option ℕ
as_u32 n = then_some (ltb n u32_mod) n

-- `filter(|t| !t.is_empty())` of a text that may be absent
unfoldable pub nonempty : Option String → Option String
nonempty none = none
nonempty (some text) = if str_eq text "" then none else some text
