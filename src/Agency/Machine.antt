-- ===== src/Agency/Machine.antt =====
-- The library's own kinds as the machinery runs them: the work of a tool call and of a title
-- request, and the two ledgers of a conversation. crates/agent-ledger/src/agency/{mod, tool_call,
-- metadata_title_request, ratchet}.rs.
use ronna_core.Prelude.{ℕ, Bool, true, false, Option, none, List, if◌then◌else◌}
use ronna_core.Block.{Block}
use ronna_core.Event.{CoreEvent}
use ronna_core.Store.{M, pure, ◌>>=◌, LedgerSource}
use ronna_core.Agency.Calls.{ToolCall}
use ronna_core.Agency.Records.{MetadataTitleRequest}
use ronna_core.Agency.Kinds.{BlockKind, from_block, awaiting, durable, frontier_transparent}
use ronna_core.Agency.Interface.{RuntimeKind}
use ronna_core.Agency.Outcomes.{resolved_in}
use ronna_core.Agency.Approval.{request_post_gate_id, decision_post_gate_id}
use ronna_core.Agency.Title.{settled_in}

-- The store and the bus as a hook reaches them; the database and the bus themselves are the
-- state's.
pub record AgencyCtx (S : Type 0) : Type 0 where
  pub conversation_id : ℕ
  pub list_blocks : M S (List Block)
  pub latest_block : M S (Option Block)
  pub cursor : M S (Option ℕ)
  pub update_cursor : ℕ → M S (Unit {0})
  pub list_metadata_blocks : M S (List Block)
  pub latest_metadata_block : M S (Option Block)
  pub metadata_cursor : M S (Option ℕ)
  pub update_metadata_cursor : ℕ → M S (Unit {0})
  pub emit : CoreEvent → M S (Unit {0})

module _ {S : Type 0} (ctx : AgencyCtx S) where
  open ctx use {conversation_id, list_blocks, list_metadata_blocks, emit}

  unfoldable pub run_tool_call : ToolCall → M S Bool
  run_tool_call call =
      if call.interactive
      then pure true
      else (list_blocks >>= λ ledger.
          if resolved_in call ledger
          then pure true
          else (emit (CoreEvent.tool_call_ready conversation_id call.id) >>= λ _. pure false))

  unfoldable pub run_title_request : MetadataTitleRequest → M S Bool
  run_title_request request = list_metadata_blocks >>= λ ledger.
      if settled_in request ledger
      then pure true
      else (emit (CoreEvent.metadata_request_ready conversation_id request.id) >>= λ _. pure false)

  unfoldable pub run : BlockKind → M S Bool
  run (BlockKind.tool_call call) = run_tool_call call
  run (BlockKind.metadata_title_request request) = run_title_request request
  run _ = pure true

  unfoldable pub post_gate_id : BlockKind → List Block → Option ℕ
  post_gate_id (BlockKind.approval_request request) ledger = request_post_gate_id request ledger
  post_gate_id (BlockKind.approval_decision decision) ledger = decision_post_gate_id decision ledger
  post_gate_id _ ledger = none

  unfoldable pub run_post_gate : BlockKind → M S (Unit {0})
  run_post_gate (BlockKind.tool_call call) = run_tool_call call >>= λ _. pure tt
  run_post_gate _ = pure tt

  abbrev pub library_kind : RuntimeKind BlockKind S
  library_kind = record {
    from_block = from_block;
    awaiting = awaiting;
    durable = durable;
    frontier_transparent = frontier_transparent;
    run = run;
    post_gate_id = post_gate_id;
    run_post_gate = run_post_gate;
  }

  abbrev pub conversation_ledger : LedgerSource S
  conversation_ledger = record {
    list = list_blocks;
    tail = ctx.latest_block;
    cursor = ctx.cursor;
    persist_cursor = ctx.update_cursor;
  }

  abbrev pub metadata_ledger : LedgerSource S
  metadata_ledger = record {
    list = list_metadata_blocks;
    tail = ctx.latest_metadata_block;
    cursor = ctx.metadata_cursor;
    persist_cursor = ctx.update_metadata_cursor;
  }
