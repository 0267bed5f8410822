-- ===== src/Tools/Runner.antt =====
-- The runner of tool calls, tools/runner.rs: its state, its order and what it asks. What a
-- consumer's handler does is asked of the consumer.
pub mod Pass
pub mod Claims
pub mod Admits
use ronna_core.Prelude.{
  ℕ, suc, String, Bool, true, false, not, ◌&&◌, ◌||◌, Option, none, some, List, [], ◌∷◌, ◌++◌, ltb,
  ◌==◌, str_eq, if◌then◌else◌, bind, is_some, any, filter, find_map, is_none,
}
use Prim.Native.String.{◌++◌ as str_append}
use ronna_core.Block.{Block}
use ronna_core.Store.{M, Result, ok, err}
use ronna_core.Agency.Calls.{ToolCall, Refusal}
use ronna_core.Agency.Kinds.{BlockKind, from_block}
use ronna_core.Agency.Outcomes.{resolved_in, earlier_unresolved_call}
use ronna_core.Agency.Window.{Clock, calls_in_trailing_window}
use ronna_core.Agency.Approval.{ApprovalState, approval_state}
use ronna_core.Tools.Registry.{ToolRegistry, ToolHandler}
use ronna_core.Tools.Choice.{ResolvedTools, of_ledger, handler}

pub data ToolOutcome : Type 0 where
  done error declined : String → ToolOutcome
  pending : ToolOutcome

pub data Admission : Type 0 where
  admit : Admission
  refuse : String → Admission

pub data GateDecision : Type 0 where
  proceed : GateDecision
  refuse : String → GateDecision
  defer : GateDecision

pub record ToolWindowBound : Type 0 where
  pub calls : ℕ
  pub seconds : ℕ

-- The store and the consumer as a pass calls them, for one conversation, with the windows in force
-- and the digits of a number.
pub record Runtime (S : Type 0) : Type 0 where
  pub conversation_id : ℕ
  pub list_blocks : M S (List Block)
  pub fail_call : ToolCall → String → Refusal → M S (Option ℕ)
  pub complete_call : ToolCall → String → Bool → M S (Option ℕ)
  pub insert_approval_request : ℕ → M S (Option ℕ)
  pub consumer_admit : ToolHandler → ToolCall → List Block → S → Admission × S
  pub gate : ToolHandler → String → S → GateDecision × S
  pub execute : ToolHandler → ToolCall → S → ToolOutcome × S
  pub registry : ToolRegistry
  pub window : ToolWindowBound
  pub tool_windows : List (String × ToolWindowBound)
  pub decimal : ℕ → String

-- The calls in flight, and the calls whose bodies ran, in order.
pub record ToolRunner : Type 0 where
  pub in_flight : List (ℕ × ℕ)
  pub executed : List ℕ

abbrev pub Pass : Type 0 → Type 0
Pass S = ToolRunner → S → ToolRunner × S

unfoldable pub stand_down : {S : Type 0} → Pass S
stand_down runner s = (runner, s)

unfoldable pub claimed : ToolRunner → ℕ → ℕ → Bool
claimed runner conversation call =
    any (λ key. (key.0 == conversation) && (key.1 == call)) runner.in_flight

unfoldable pub claim : ℕ → ℕ → ToolRunner → ToolRunner
claim conversation call runner = record runner {
  in_flight = (conversation, call) ∷ runner.in_flight;
}

unfoldable pub release : ℕ → ℕ → ToolRunner → ToolRunner
release conversation call runner = record runner {
  in_flight = filter (λ key. not ((key.0 == conversation) && (key.1 == call))) runner.in_flight;
}

call_of : BlockKind → Option ToolCall
call_of (BlockKind.tool_call call) = some call
call_of _ = none

unfoldable pub call_in : List Block → ℕ → Option ToolCall
unfolding call_of
call_in ledger call_block_id =
    find_map (λ block. call_of (from_block block))
      (filter (λ block. block.id == call_block_id) ledger)

unfoldable pub no_tools_refusal : String
no_tools_refusal = "this conversation has no tools, so no tool call can be answered."

unfoldable pub rate_limit_prefix : String
rate_limit_prefix = "tool-call rate limit:"

-- The texts between its arguments, of a `format!`.
unfoldable pub concat_texts : List String → String
concat_texts [] = ""
concat_texts (t ∷ texts) = str_append t (concat_texts texts)

unfoldable pub rate_limit_refusal : (ℕ → String) → ToolWindowBound → String
rate_limit_refusal decimal bound = concat_texts (
    rate_limit_prefix
    ∷ " this conversation has spent its "
    ∷ decimal bound.calls
    ∷ " tool calls for the last "
    ∷ decimal bound.seconds
    ∷ " seconds, and this call was not run. Answer with what you already have, "
    ∷ "or wait before calling tools again."
    ∷ [])

unfoldable pub per_tool_rate_limit_refusal : (ℕ → String) → String → ToolWindowBound → String
per_tool_rate_limit_refusal decimal name bound = concat_texts (
    rate_limit_prefix
    ∷ " this conversation has spent its "
    ∷ decimal bound.calls
    ∷ " "
    ∷ name
    ∷ " calls for the last "
    ∷ decimal bound.seconds
    ∷ " seconds, and this call was not run. Answer with what you already have, "
    ∷ "or use a different tool, or wait before calling this one again."
    ∷ [])

joined : List String → String
joined [] = ""
joined (name ∷ []) = name
joined (name ∷ names) = str_append name (str_append ", " (joined names))

unfoldable pub unresolved_tool : String → List String → String
unfolding joined
unresolved_tool name tools =
    concat_texts ("unknown tool: " ∷ name ∷ ". This conversation's tools are: " ∷ joined tools ∷ [])

unfoldable pub ends_turn_deferral_refusal : String
ends_turn_deferral_refusal =
    str_append "an ends-turn tool must resolve at once: deferring the end of a turn "
      "is a contract defect, and this call is refused."

unfoldable pub bound_of : List (String × ToolWindowBound) → String → Option ToolWindowBound
bound_of [] name = none
bound_of ((key, bound) ∷ rest) name = if str_eq key name then some bound else bound_of rest name

-- Whether the order binds a call: by the handler of its name.
unfoldable pub runs_in_order : ResolvedTools → ToolCall → Bool
runs_in_order resolved call = elim (handler resolved call.name) [
  | none ↦ false
  | some h ↦ h.runs_in_order
]

unfoldable pub earlier_call_to_act_first : ToolCall → List Block → ResolvedTools → Option ℕ
earlier_call_to_act_first call ledger resolved =
    if runs_in_order resolved call
    then earlier_unresolved_call ledger call (runs_in_order resolved)
    else none

unfoldable pub is_approved : ApprovalState → Bool
is_approved ApprovalState.approved = true
is_approved _ = false
