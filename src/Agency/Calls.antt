-- ===== src/Agency/Calls.antt =====
-- A tool call and its two outcomes: the data and the pure hooks of
-- crates/agent-ledger/src/agency/{tool_call, tool_result, tool_error}.rs.
use ronna_core.Prelude.{ℕ, String, Bool, true, false, not, Option, some, if◌then◌else◌, then_some}
use ronna_core.Block.{Role, Block}
use ronna_core.Agency.Fields.{string_field, bool_field, id_field}
use ronna_core.Agency.Awaiting.{Awaiting}

pub record ToolCall : Type 0 where
  pub id : ℕ
  pub role : Option Role
  pub tool_call_id : String
  pub name : String
  pub input : String
  pub interactive : Bool

unfoldable pub parse_tool_call : Block → ToolCall
parse_tool_call block = record {
  id = block.id;
  role = block.role;
  tool_call_id = string_field block "tool_call_id";
  name = string_field block "name";
  input = string_field block "input";
  interactive = bool_field block "interactive";
}

unfoldable pub tool_call_awaiting : ToolCall → Option Awaiting
tool_call_awaiting call = some (if call.interactive then Awaiting.user else Awaiting.system)

pub record ToolResult : Type 0 where
  pub tool_call_id : String
  pub call_block_id : Option ℕ
  pub content : String
  pub ends_turn : Bool

unfoldable pub parse_tool_result : Block → ToolResult
parse_tool_result block = record {
  tool_call_id = string_field block "tool_call_id";
  call_block_id = id_field block "source_block_id";
  content = string_field block "content";
  ends_turn = bool_field block "ends_turn";
}

unfoldable pub tool_result_awaiting : ToolResult → Option Awaiting
tool_result_awaiting result = then_some (not result.ends_turn) Awaiting.model

unfoldable pub tool_result_transparent : ToolResult → Bool
tool_result_transparent result = result.ends_turn

pub data Refusal : Type 0 where
  refused failed : Refusal

unfoldable pub is_refusal : Refusal → Bool
is_refusal refused = true
is_refusal failed = false

unfoldable pub from_stored : Bool → Refusal
from_stored refusal = if refusal then refused else failed

pub record ToolError : Type 0 where
  pub tool_call_id : String
  pub call_block_id : Option ℕ
  pub error : String
  pub refusal : Refusal

unfoldable pub parse_tool_error : Block → ToolError
parse_tool_error block = record {
  tool_call_id = string_field block "tool_call_id";
  call_block_id = id_field block "source_block_id";
  error = string_field block "error";
  refusal = from_stored (bool_field block "refusal");
}

unfoldable pub records_refusal : ToolError → Bool
records_refusal error = is_refusal error.refusal

unfoldable pub tool_error_awaiting : ToolError → Option Awaiting
tool_error_awaiting error = some Awaiting.model

-- `CallOutcome` of tool_call.rs.
pub data CallOutcome : Type 0 where
  result : ToolResult → CallOutcome
  error : ToolError → CallOutcome
