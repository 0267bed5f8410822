-- ===== src/Tools/Registry.antt =====
-- `ToolRegistry` of tools/mod.rs: a map by name, in the order of the names. A handler is known by
-- its facts; what it executes is a consumer's.
pub mod Ordered
pub mod TextOrder
use ronna_core.Prelude.{String, Bool, Option, none, some, List, [], ◌∷◌, str_eq, if◌then◌else◌}
use Prim.Native.String.{compare}
use Prim.Native.Nat.{Ordering}
use ronna_core.Block.{Value}

pub record ToolDefinition : Type 0 where
  pub name : String
  pub description : String
  pub parameters : Value

pub record ToolHandler : Type 0 where
  pub definition : ToolDefinition
  pub gated : Bool
  pub interactive : Bool
  pub ends_turn : Bool
  pub runs_in_order : Bool

abbrev pub ToolRegistry : Type 0
ToolRegistry = List (String × ToolHandler)

unfoldable pub get : ToolRegistry → String → Option ToolHandler
get [] name = none
get ((key, handler) ∷ rest) name = if str_eq key name then some handler else get rest name

unfoldable pub names : ToolRegistry → List String
names [] = []
names ((key, handler) ∷ rest) = key ∷ names rest

unfoldable pub definitions : ToolRegistry → List ToolDefinition
definitions [] = []
definitions ((key, handler) ∷ rest) = handler.definition ∷ definitions rest

-- `entry(name)`: a second handler of one name panics.
unfoldable pub insert_handler : String → ToolHandler → ToolRegistry → Option ToolRegistry
insert_handler name handler [] = some ((name, handler) ∷ [])
insert_handler name handler ((key, h) ∷ rest) =
    let later = insert_handler name handler rest in
    elim (compare name key) [
      | Ordering.lt ↦ some ((name, handler) ∷ (key, h) ∷ rest)
      | Ordering.eq ↦ none
      | Ordering.gt ↦ elim later [ none ↦ none | some r ↦ some ((key, h) ∷ r) ]
    ]

-- The debug assertions on the handler's facts are compiled out of a release build.
unfoldable pub register : String → ToolHandler → ToolRegistry → Option ToolRegistry
register name handler registry = insert_handler name handler registry
