-- ===== src/Agency/Approval.antt =====
-- The approval chain as the ledger holds it: the reads of
-- crates/agent-ledger/src/agency/approval_request.rs and approval_decision.rs, and the state that
-- crates/agent-ledger/src/tools/admission.rs reads from them.
pub mod State
use ronna_core.Prelude.{
  ℕ, Bool, true, false, not, ◌&&◌, Option, none, some, List, [], ◌∷◌, ◌==◌, if◌then◌else◌, is_id,
  is_some, bind, then_some, find, find_map,
}
use ronna_core.Block.{Block}
use ronna_core.Agency.Records.{ApprovalRequest, ApprovalDecision}
use ronna_core.Agency.Kinds.{BlockKind, from_block}
use ronna_core.Agency.Outcomes.{unresolved_call_named}

covering_kind : ℕ → BlockKind → Option ApprovalRequest
covering_kind call_block_id (BlockKind.approval_request request) =
    then_some (is_id request.for_block_id call_block_id) request
covering_kind call_block_id _ = none

-- The request that covers a call.
unfoldable pub covering : List Block → ℕ → Option ApprovalRequest
unfolding covering_kind
covering ledger call_block_id =
    find_map (λ block. covering_kind call_block_id (from_block block)) ledger

deciding_kind : ℕ → BlockKind → Option ApprovalDecision
deciding_kind request_id (BlockKind.approval_decision decision) =
    then_some (is_id decision.for_block_id request_id) decision
deciding_kind request_id _ = none

-- The decision that answers a request.
unfoldable pub decision_in : ApprovalRequest → List Block → Option ApprovalDecision
unfolding deciding_kind
decision_in request ledger = find_map (λ block. deciding_kind request.id (from_block block)) ledger

unfoldable pub request_post_gate_id : ApprovalRequest → List Block → Option ℕ
request_post_gate_id request ledger =
    let routed = unresolved_call_named ledger request.for_block_id in
    elim (decision_in request ledger) [
      | none ↦ none
      | some decision ↦ if decision.approved then routed else none
    ]

unfoldable pub route_kind : List Block → ℕ → BlockKind → Option ℕ
route_kind ledger answered (BlockKind.approval_request request) =
    then_some (is_some (unresolved_call_named ledger request.for_block_id)) answered
route_kind ledger answered _ = none

unfoldable pub decision_post_gate_id : ApprovalDecision → List Block → Option ℕ
unfolding route_kind
decision_post_gate_id decision ledger =
    let routed = bind decision.for_block_id (λ answered.
      bind (find (λ block. block.id == answered) ledger)
        (λ request_block. route_kind ledger answered (from_block request_block))) in
    if decision.approved then routed else none

pub data ApprovalState : Type 0 where
  unrequested undecided approved denied : ApprovalState

abbrev decided : Option ApprovalDecision → ApprovalState
decided none = undecided
decided (some decision) = if decision.approved then approved else denied

abbrev state_of : List Block → Option ApprovalRequest → ApprovalState
state_of ledger none = unrequested
state_of ledger (some request) = decided (decision_in request ledger)

unfoldable pub approval_state : List Block → ℕ → ApprovalState
approval_state ledger call_block_id = state_of ledger (covering ledger call_block_id)
