-- ===== src/Tools/Choice.antt =====
-- `ResolvedTools` of tools/choice.rs: the tools that a conversation has.
use ronna_core.Prelude.{
  String, Bool, true, Option, none, some, List, str_eq, if◌then◌else◌, any, filter, filter_map,
  find_map, rev, bind,
}
use ronna_core.Block.{Block}
use ronna_core.Agency.Records.{ToolChoice}
use ronna_core.Agency.Kinds.{BlockKind, from_block}
use ronna_core.Tools.Registry.{ToolRegistry, ToolHandler, ToolDefinition, get, names}

unfoldable pub choice_of : BlockKind → Option ToolChoice
choice_of (BlockKind.tool_choice choice) = some choice
choice_of _ = none

-- `ToolChoice::newest_in`
unfoldable pub newest_in : List Block → Option ToolChoice
unfolding choice_of
newest_in ledger = find_map (λ block. choice_of (from_block block)) (rev ledger)

unfoldable pub holds : List String → String → Bool
holds held name = any (λ h. str_eq h name) held

unfoldable pub chosen : Option ToolChoice → String → Bool
unfolding holds
chosen none name = true
chosen (some choice) name = holds choice.names name

pub record ResolvedTools : Type 0 where
  pub registry : ToolRegistry
  pub names : List String

unfoldable pub from_choice : Option ToolChoice → ToolRegistry → ResolvedTools
from_choice recorded registry = record {
  registry = registry;
  names = filter (chosen recorded) (names registry);
}

unfoldable pub of_ledger : List Block → ToolRegistry → ResolvedTools
of_ledger ledger registry = from_choice (newest_in ledger) registry

unfoldable pub handler : ResolvedTools → String → Option ToolHandler
unfolding holds
handler tools name =
    bind (get tools.registry name) (λ h. if holds tools.names name then some h else none)

unfoldable pub tool_definitions : ResolvedTools → List ToolDefinition
tool_definitions tools =
    filter_map (λ name. bind (get tools.registry name) (λ h. some h.definition)) tools.names
