-- ===== src/Agency/Records.antt =====
-- The kinds that record a fact about the conversation: crates/agent-ledger/src/agency/{records,
-- approval_request, approval_decision, tool_choice, ancestor_reference, metadata_title_request}.rs.
use ronna_core.Prelude.{
  ℕ, String, Bool, false, ◌||◌, Option, none, some, List, [], str_eq, bind, get_or,
}
use ronna_core.Block.{Role, Block, Value, get, as_str, as_strings}
use ronna_core.Agency.Fields.{string_field, id_field}

pub record Status : Type 0 where
  pub role : Option Role
  pub status : String

unfoldable pub parse_status : Block → Status
parse_status block = record { role = block.role; status = string_field block "status" }

abbrev pub turn_ended_closed : String
turn_ended_closed = "turn_ended:closed"

abbrev pub turn_ended_errored : String
turn_ended_errored = "turn_ended:errored"

abbrev pub tool_calls_exhausted : String
tool_calls_exhausted = "tool_calls_exhausted"

unfoldable pub records_turn_end : Status → Bool
records_turn_end status =
    str_eq status.status turn_ended_closed
    || str_eq status.status turn_ended_errored
    || str_eq status.status tool_calls_exhausted

pub record ApprovalRequest : Type 0 where
  pub id : ℕ
  pub for_block_id : Option ℕ

unfoldable pub parse_approval_request : Block → ApprovalRequest
parse_approval_request block = record {
  id = block.id;
  for_block_id = id_field block "for_block_id";
}

-- The choice as a decision row stores it: `ApprovalChoice` of types.rs.
pub data ApprovalChoice : Type 0 where
  approved denied : ApprovalChoice

unfoldable pub choice_as_str : ApprovalChoice → String
choice_as_str approved = "approved"
choice_as_str denied = "denied"

pub record ApprovalDecision : Type 0 where
  pub id : ℕ
  pub for_block_id : Option ℕ
  pub approved : Bool

is_text : Option String → String → Bool
is_text none s = false
is_text (some r) s = str_eq r s

unfoldable pub parse_approval_decision : Block → ApprovalDecision
unfolding is_text choice_as_str
parse_approval_decision block = record {
  id = block.id;
  for_block_id = id_field block "for_block_id";
  approved = is_text (bind (get block.fields "decision") as_str) (choice_as_str approved);
}

pub record ToolChoice : Type 0 where
  pub names : List String
  pub response_schema : Option Value

unfoldable pub parse_tool_choice : Block → ToolChoice
parse_tool_choice block = record {
  names = get_or (bind (get block.fields "names") as_strings) [];
  response_schema = get block.fields "response_schema";
}

pub record MetadataTitleRequest : Type 0 where
  pub id : ℕ

unfoldable pub parse_title_request : Block → MetadataTitleRequest
parse_title_request block = record { id = block.id }

pub record AncestorReference : Type 0 where
  pub conversation_id : Option ℕ

unfoldable pub parse_ancestor_reference : Block → AncestorReference
parse_ancestor_reference block = record {
  conversation_id = id_field block "ancestor_conversation_id";
}

pub record Unknown : Type 0 where
  pub role : Option Role

unfoldable pub parse_unknown : Block → Unknown
parse_unknown block = record { role = block.role }
