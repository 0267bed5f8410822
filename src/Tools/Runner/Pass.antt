-- ===== src/Tools/Runner/Pass.antt =====
-- The admission of a call, from its wakeup to the recorded outcome: tools/runner.rs.
use ronna_core.Prelude.{
  ℕ, String, Bool, ◌||◌, Option, none, some, List, [], ◌∷◌, ◌++◌, ltb, if◌then◌else◌, bind, is_some,
}
use ronna_core.Block.{Block}
use ronna_core.Store.{Result, ok, err}
use ronna_core.Agency.Calls.{ToolCall, Refusal}
use ronna_core.Agency.Outcomes.{resolved_in}
use ronna_core.Agency.Window.{Clock, calls_in_trailing_window}
use ronna_core.Agency.Approval.{ApprovalState, approval_state}
use ronna_core.Tools.Registry.{ToolHandler}
use ronna_core.Tools.Choice.{ResolvedTools, of_ledger, handler}
use ronna_core.Tools.Runner.{
  rate_limit_refusal, per_tool_rate_limit_refusal, unresolved_tool, ToolOutcome, Admission,
  GateDecision, ToolWindowBound, Runtime, ToolRunner, Pass, stand_down, claimed, claim, release,
  call_in, no_tools_refusal, ends_turn_deferral_refusal, earlier_call_to_act_first, is_approved,
  bound_of,
}

module _ {S : Type 0} (clock : Clock) (runtime : Runtime S) where
  open runtime use {
    conversation_id, list_blocks, fail_call, complete_call, insert_approval_request, consumer_admit,
    gate, execute, registry, window, tool_windows, decimal,
  }

  unfoldable pub window_spent : List Block → ToolWindowBound → Option String → Bool
  window_spent ledger bound of_tool =
      ltb bound.calls (calls_in_trailing_window clock ledger bound.seconds of_tool)

  -- A lost or failed write is stood down.
  unfoldable pub resolve_with_error : ToolCall → String → Refusal → Pass S
  resolve_with_error call text refusal runner s = (runner, (fail_call call text refusal s).1)

  -- The window that refuses a call, as the words of its refusal.
  unfoldable pub window_refusal : ToolRunner → List Block → ToolCall → ApprovalState → Option String
  unfolding bound_of
  window_refusal runner ledger call clearance =
      if call.interactive || claimed runner conversation_id call.id
      then none
      else if is_approved clearance
      then none
      else if window_spent ledger window none
      then some (rate_limit_refusal decimal window)
      else bind (bound_of tool_windows call.name) (λ bound.
        if window_spent ledger bound (some call.name)
        then some (per_tool_rate_limit_refusal decimal call.name bound)
        else none)

  -- The outcome of a body is recorded, and the claim released unless a backing system has the call.
  unfoldable pub record_outcome :
      ToolHandler → ToolCall → ToolOutcome × S → ToolRunner → ToolRunner × S
  record_outcome h call (ToolOutcome.done result, s) runner =
      (release conversation_id call.id runner, (complete_call call result h.ends_turn s).1)
  record_outcome h call (ToolOutcome.error text, s) runner =
      resolve_with_error call text Refusal.failed (release conversation_id call.id runner) s
  record_outcome h call (ToolOutcome.declined reason, s) runner =
      resolve_with_error call reason Refusal.refused (release conversation_id call.id runner) s
  record_outcome h call (ToolOutcome.pending, s) runner =
      if h.ends_turn
      then resolve_with_error call ends_turn_deferral_refusal Refusal.failed
          (release conversation_id call.id runner) s
      else (runner, s)

  unfoldable pub run_executed : ToolHandler → ToolCall → Pass S
  run_executed h call runner s =
      record_outcome h call (execute h call s)
        (record runner { executed = runner.executed ++ (call.id ∷ []) })

  -- Under the claim, the ledger is read again.
  unfoldable pub run_claimed :
      ToolHandler → ToolCall → Result (List Block) × S → ToolRunner → ToolRunner × S
  run_claimed h call (ok ledger, s) runner =
      if resolved_in call ledger
      then (release conversation_id call.id runner, s)
      else run_executed h call runner s
  run_claimed h call (err e, s) runner = (release conversation_id call.id runner, s)

  unfoldable pub run_body : ToolHandler → ToolCall → Pass S
  run_body h call runner s =
      if claimed runner conversation_id call.id
      then (runner, s)
      else run_claimed h call (list_blocks s) (claim conversation_id call.id runner)

  -- A gated call that has no request yet is asked of its gate.
  unfoldable pub gated : ToolHandler → ToolCall → GateDecision × S → ToolRunner → ToolRunner × S
  gated h call (GateDecision.proceed, s) runner = run_body h call runner s
  gated h call (GateDecision.refuse reason, s) runner =
      resolve_with_error call reason Refusal.failed runner s
  gated h call (GateDecision.defer, s) runner = (runner, (insert_approval_request call.id s).1)

  unfoldable pub cleared : ToolHandler → ToolCall → ApprovalState → Pass S
  cleared h call ApprovalState.approved = run_body h call
  cleared h call ApprovalState.undecided = stand_down
  cleared h call ApprovalState.denied = stand_down
  cleared h call ApprovalState.unrequested = λ runner s. gated h call (gate h call.input s) runner

  unfoldable pub consumer_admits :
      ToolHandler → ToolCall → ApprovalState → Admission × S → ToolRunner → ToolRunner × S
  consumer_admits h call clearance (Admission.admit, s) runner =
      if h.gated then cleared h call clearance runner s else run_body h call runner s
  consumer_admits h call clearance (Admission.refuse reason, s) runner =
      resolve_with_error call reason Refusal.refused runner s

  -- The handler of the call's name, or the error that there is none.
  unfoldable pub with_handler :
      List Block → ToolCall → ApprovalState → ResolvedTools → Option ToolHandler → Pass S
  with_handler ledger call clearance resolved none runner s = elim resolved.names [
    | [] ↦ resolve_with_error call no_tools_refusal Refusal.refused runner s
    | _ ∷ _ ↦
        resolve_with_error call (unresolved_tool call.name resolved.names) Refusal.failed runner s
  ]
  with_handler ledger call clearance resolved (some h) runner s =
      consumer_admits h call clearance (consumer_admit h call ledger s) runner

  unfoldable pub within_windows :
      List Block → ToolCall → ApprovalState → ResolvedTools → Option String → Pass S
  within_windows ledger call clearance resolved (some refusal) =
      resolve_with_error call refusal Refusal.refused
  within_windows ledger call clearance resolved none =
      with_handler ledger call clearance resolved (handler resolved call.name)

  unfoldable pub execute_call : List Block → Option ToolCall → Pass S
  execute_call ledger none runner s = (runner, s)
  execute_call ledger (some call) runner s =
      let clearance = approval_state ledger call.id in
      let resolved = of_ledger ledger registry in
      if resolved_in call ledger || is_some (earlier_call_to_act_first call ledger resolved)
      then (runner, s)
      else within_windows ledger call clearance resolved
          (window_refusal runner ledger call clearance) runner s

  unfoldable pub execute_over : ℕ → Result (List Block) × S → ToolRunner → ToolRunner × S
  execute_over call_block_id (ok ledger, s) runner =
      execute_call ledger (call_in ledger call_block_id) runner s
  execute_over call_block_id (err e, s) runner = (runner, s)

  unfoldable pub execute_ready_call : ℕ → Pass S
  execute_ready_call call_block_id runner s = execute_over call_block_id (list_blocks s) runner

  unfoldable pub run_wakeup : Bool → ℕ → Pass S
  run_wakeup latched call_block_id runner s =
      if latched then (runner, s) else execute_ready_call call_block_id runner s
