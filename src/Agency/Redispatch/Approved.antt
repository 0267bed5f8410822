-- ===== src/Agency/Redispatch/Approved.antt =====
-- The walk over the library's kinds: an approval reaches the call that it clears, and no other.
use ronna_core.Event.{tool_call_ready}
use ronna_core.Prelude.{
  ℕ, suc, ◌≡◌, ◌≢◌, refl, ◌∙◌, true, false, not, Option, none, some, List, [], ◌∷◌, ◌++◌, ◌==◌,
  find, contains, last?, length, then_some, arith,
}
use ronna_core.Block.{Block}
use ronna_core.Store.{ok, Result, pure, ◌>>=◌, after, err}
use ronna_core.Agency.Calls.{ToolCall}
use ronna_core.Agency.Records.{ApprovalRequest, ApprovalDecision}
use ronna_core.Agency.Kinds.{BlockKind, from_block}
use ronna_core.Agency.Interface.{RuntimeKind}
use ronna_core.Agency.Outcomes.{resolved_in, unresolved_call_named}
use ronna_core.Agency.Approval.{
  decision_in, request_post_gate_id, decision_post_gate_id, route_kind,
}
use ronna_core.Agency.Machine.{AgencyCtx, run_tool_call, post_gate_id, run_post_gate, library_kind}
use ronna_core.Agency.Redispatch.{
  route, visit, walk_chain, run_chain, run_routed, walk_from, walk, run_found,
}

module _ {K S : Type 0} (kind : RuntimeKind K S) where
  -- A round that follows the routing to a row it has not visited.
  walk_chain-visit :
      (fuel : ℕ) (ledger : List Block) (head : K) (visited : List ℕ) (chain : List K) (id : ℕ)
      (row : Block)
      → kind.post_gate_id head ledger ≡ some id
      → contains visited id ≡ false
      → find (λ block. block.id == id) ledger ≡ some row
      → walk_chain kind (suc fuel) ledger head visited chain
        ≡ walk_chain kind fuel ledger
            (kind.from_block row)
            (visited ++ (id ∷ []))
            (kind.from_block row ∷ chain)
  unfolding walk_chain
  walk_chain-visit fuel ledger head visited chain id row routed new found =
      rw (routed, route, new, found, visit)

  walk_chain-stop :
      (fuel : ℕ) (ledger : List Block) (head : K) (visited : List ℕ) (chain : List K)
      → kind.post_gate_id head ledger ≡ none
      → walk_chain kind (suc fuel) ledger head visited chain ≡ some chain
  unfolding walk_chain
  walk_chain-stop fuel ledger head visited chain routed = rw (routed, route)

two_rows :
    (ledger : List Block) (i j : ℕ) (a b : Block)
    → find (λ block. block.id == i) ledger ≡ some a
    → find (λ block. block.id == j) ledger ≡ some b
    → i ≢ j
    → (n : ℕ) × (length ledger ≡ suc (suc n))
unfolding find
two_rows [] i j a b p q ne = cc
two_rows (x ∷ []) i j a b p q ne = absurd (ground arith)
two_rows (x ∷ y ∷ rows) i j a b p q ne = (length rows, refl)

-- A ledger that ends in an approval of a call: the decision is its last row, it answers a request
-- whose first decision is an approval, and the request covers a call with no outcome yet.
pub record IsCleared (ledger : List Block) (call : ToolCall) : Type 0 where
  pub decision_row : Block
  pub request_row : Block
  pub call_row : Block
  pub decision : ApprovalDecision
  pub request : ApprovalRequest
  pub first : ApprovalDecision
  pub last : last? ledger ≡ some decision_row
  pub is_decision : from_block decision_row ≡ BlockKind.approval_decision decision
  pub is_approval : decision.approved ≡ true
  pub answers : decision.for_block_id ≡ some request_row.id
  pub requested : find (λ block. block.id == request_row.id) ledger ≡ some request_row
  pub is_request : from_block request_row ≡ BlockKind.approval_request request
  pub decided : decision_in request ledger ≡ some first
  pub stands : first.approved ≡ true
  pub covers : request.for_block_id ≡ some call_row.id
  pub called : find (λ block. block.id == call_row.id) ledger ≡ some call_row
  pub is_call : from_block call_row ≡ BlockKind.tool_call call
  pub unresolved : resolved_in call ledger ≡ false
  pub apart :
      (decision_row.id ≢ request_row.id)
      × (decision_row.id ≢ call_row.id)
      × (request_row.id ≢ call_row.id)

module _ {S : Type 0} (ctx : AgencyCtx S) (ledger : List Block) (call : ToolCall)
    (c : IsCleared ledger call) where
  named : unresolved_call_named ledger c.request.for_block_id ≡ some c.call_row.id
  unfolding unresolved_call_named
  named = rw (c.covers, c.called) (open_row c.call_row (from_block c.call_row) c.is_call)
    where
      open_row :
          (row : Block) (kind : BlockKind)
          → kind ≡ BlockKind.tool_call call
          → ◌≡◌ {A = Option ℕ}
              (elim kind [
                | BlockKind.tool_call k ↦ then_some (not (resolved_in k ledger)) row.id
                | _ ↦ none
              ])
              (some row.id)
      open_row row kind e = rw (e, c.unresolved)

  decision_routes : decision_post_gate_id c.decision ledger ≡ some c.request_row.id
  unfolding decision_post_gate_id
  decision_routes = rw (c.is_approval, c.answers, c.requested, c.is_request, route_kind, named)

  request_routes : request_post_gate_id c.request ledger ≡ some c.call_row.id
  unfolding request_post_gate_id
  request_routes = ground (arith, c.decided, c.stands, named)

  abbrev chain : List BlockKind
  chain =
      BlockKind.tool_call call
      ∷ BlockKind.approval_request c.request
      ∷ BlockKind.approval_decision c.decision
      ∷ []

  reaches :
      (n : ℕ)
      → walk_chain
          (library_kind ctx)
          (suc (suc (suc n)))
          ledger
          (from_block c.decision_row)
          (c.decision_row.id ∷ [])
          (from_block c.decision_row ∷ [])
        ≡ some chain
  unfolding contains post_gate_id
  reaches n = rw c.is_decision (
      walk_chain-visit (library_kind ctx) (suc (suc n)) ledger
        (BlockKind.approval_decision c.decision) (c.decision_row.id ∷ [])
        (BlockKind.approval_decision c.decision ∷ []) c.request_row.id c.request_row decision_routes
        (ground (arith, c.apart)) c.requested
      ∙ rw c.is_request (
          walk_chain-visit (library_kind ctx) (suc n) ledger (BlockKind.approval_request c.request)
            (c.decision_row.id ∷ c.request_row.id ∷ [])
            (BlockKind.approval_request c.request ∷ BlockKind.approval_decision c.decision ∷ [])
            c.call_row.id c.call_row request_routes (ground (arith, c.apart)) c.called
          ∙ rw c.is_call (
              walk_chain-stop (library_kind ctx) n ledger (BlockKind.tool_call call)
                (c.decision_row.id ∷ c.request_row.id ∷ c.call_row.id ∷ []) chain refl)))

  -- What is left of a chain's run after the wakeup.
  wakeup_only :
      (r : Result (Unit {0}) × S)
      → after (λ _. pure tt) (after (λ _. pure tt) (after (λ _. pure false) r))
        ≡ after (λ _. pure tt) r
  wakeup_only (ok u, s) = refl
  wakeup_only (err e, s) = refl

  run_tool_call-wakes :
      (s : S)
      → ctx.list_blocks s ≡ (ok ledger, s)
      → call.interactive ≡ false
      → run_tool_call ctx call s
        ≡ after (λ _. pure false) (ctx.emit (tool_call_ready ctx.conversation_id call.id) s)
  unfolding run_tool_call
  run_tool_call-wakes s listed remote = simp remote (simp listed (simp c.unresolved refl))

  -- When the ledger ends in an approval that clears an unresolved call which no human answers, the
  -- walk emits that call's wakeup, once, and does nothing else.
  pub walk_approved :
      (s : S)
      → ctx.list_blocks s ≡ (ok ledger, s)
      → call.interactive ≡ false
      → walk (library_kind ctx) ctx.list_blocks s
        ≡ (ctx.emit (tool_call_ready ctx.conversation_id call.id) >>= λ _. pure tt) s
  unfolding walk walk_from run_found run_routed run_chain run_post_gate
  walk_approved s listed remote =
      let (n, rows) =
        two_rows ledger c.request_row.id c.call_row.id c.request_row c.call_row c.requested c.called
          c.apart.2 in
      rw (listed, c.last, rows, reaches n, run_tool_call-wakes s listed remote)
        (wakeup_only (ctx.emit (tool_call_ready ctx.conversation_id call.id) s))
