-- ===== src/Agency/Outcomes.antt =====
-- What a ledger says of its tool calls: the queries of
-- crates/agent-ledger/src/agency/tool_call.rs. Each reads the rows through the library's own kinds.
pub mod Debt
pub mod Refusals
pub mod Resolution
use ronna_core.Prelude.{
  ℕ, suc, Bool, true, false, not, ◌&&◌, ◌||◌, Option, none, some, List, [], ◌∷◌, ltb, ◌==◌, is_some,
  is_id, bind, or_else, then_some, length, drop, take, rev, position, find, filter, take_while, any,
  all, find_map, filter_map, contains,
}
use ronna_core.Block.{Block}
use ronna_core.Agency.Calls.{ToolCall, CallOutcome, result, error, records_refusal}
use ronna_core.Agency.Kinds.{BlockKind, from_block}

answered_kind : BlockKind → Option (ℕ × CallOutcome)
answered_kind (BlockKind.tool_result r) = bind r.call_block_id (λ named. some (named, result r))
answered_kind (BlockKind.tool_error e) = bind e.call_block_id (λ named. some (named, error e))
answered_kind _ = none

-- The call that a row answers, and its outcome.
unfoldable pub answered_call : Block → Option (ℕ × CallOutcome)
unfolding answered_kind
answered_call block = answered_kind (from_block block)

unfoldable pub answered_by : ToolCall → Block → Option CallOutcome
answered_by call block =
    bind (answered_call block) (λ (named, outcome). then_some (named == call.id) outcome)

unfoldable pub outcome_in : ToolCall → List Block → Option CallOutcome
outcome_in call ledger = find_map (answered_by call) ledger

unfoldable pub outcome_position_in : ToolCall → List Block → Option ℕ
outcome_position_in call ledger = position (λ block. is_some (answered_by call block)) ledger

unfoldable pub resolved_in : ToolCall → List Block → Bool
resolved_in call ledger = is_some (outcome_position_in call ledger)

-- A `HashSet`, of which the code asks only what it contains.
unfoldable pub answered_call_ids : List Block → List ℕ
answered_call_ids ledger =
    filter_map (λ block. bind (answered_call block) (λ (named, outcome). some named)) ledger

-- The id of a row that is an unanswered call of interest.
unanswered_kind : List ℕ → (ToolCall → Bool) → BlockKind → Option ℕ
unanswered_kind answered of_interest (BlockKind.tool_call call) =
    then_some (not (contains answered call.id) && of_interest call) call.id
unanswered_kind answered of_interest _ = none

unfoldable pub earlier_unresolved_call : List Block → ToolCall → (ToolCall → Bool) → Option ℕ
unfolding unanswered_kind
earlier_unresolved_call ledger before of_interest =
    let answered = answered_call_ids ledger in
    bind (position (λ block. block.id == before.id) ledger) (λ own.
      find_map (λ block. unanswered_kind answered of_interest (from_block block)) (take own ledger))

-- A row that is an unanswered call which no human has to answer.
owed_kind : List ℕ → BlockKind → Bool
owed_kind answered (BlockKind.tool_call call) =
    not call.interactive && not (contains answered call.id)
owed_kind answered _ = false

unfoldable pub is_owed : List ℕ → Block → Bool
unfolding owed_kind
is_owed answered block = owed_kind answered (from_block block)

unfoldable pub system_owed_calls : List Block → List Block → List Block
system_owed_calls ledger candidates = filter (is_owed (answered_call_ids ledger)) candidates

-- `next().is_some()`
is_inhabited : List Block → Bool
is_inhabited [] = false
is_inhabited (block ∷ blocks) = true

unfoldable pub system_owed_call_from : List Block → ℕ → Bool
unfolding is_inhabited
system_owed_call_from ledger from = is_inhabited (system_owed_calls ledger (drop from ledger))

unfoldable pub system_owed_call_anchored_in : List Block → ℕ → Bool
system_owed_call_anchored_in ledger anchor =
    any (λ block. is_id block.dispatch_anchor anchor) (system_owed_calls ledger ledger)

asks_kind : BlockKind → Bool
asks_kind (BlockKind.tool_result r) = not r.ends_turn
asks_kind (BlockKind.tool_error e) = true
asks_kind _ = false

unfoldable pub outcome_asks_for_a_continuation : Block → Bool
unfolding asks_kind
outcome_asks_for_a_continuation block = asks_kind (from_block block)

unfoldable pub outcomes_anchored_in : List Block → ℕ → ℕ
outcomes_anchored_in ledger anchor = length (
    filter (λ block. is_id block.dispatch_anchor anchor && outcome_asks_for_a_continuation block)
      ledger)

refusal_kind : BlockKind → Option Bool
refusal_kind (BlockKind.tool_error e) = some (records_refusal e)
refusal_kind (BlockKind.tool_result r) = some false
refusal_kind _ = none

-- Whether a row is a refusal, or another outcome.
unfoldable pub refusal_of : Block → Option Bool
unfolding refusal_kind
refusal_of block = refusal_kind (from_block block)

unfoldable pub trailing_refusal_run : List Block → ℕ → ℕ
trailing_refusal_run ledger anchor =
    let newer = take_while (λ block. ltb anchor block.id) (rev ledger) in
    let anchored = filter (λ block. is_id block.dispatch_anchor anchor) newer in
    length (take_while (λ refusal. refusal) (filter_map refusal_of anchored))

-- `iter().enumerate().rev().find(p)`: the last row that passes, with its index from `i` on.
unfoldable pub rfind : (Block → Bool) → ℕ → List Block → Option (ℕ × Block)
rfind p i [] = none
rfind p i (x ∷ xs) = or_else (rfind p (suc i) xs) (then_some (p x) (i, x))

closes_kind : BlockKind → Bool
closes_kind (BlockKind.text t) = true
closes_kind (BlockKind.status s) = true
closes_kind _ = false

-- A text or a status: the rows that end a turn.
unfoldable pub closes_turn : Block → Bool
unfolding closes_kind
closes_turn block = closes_kind (from_block block)

unfoldable pub unanswered_outcome_anchor : List Block → Option ℕ
unanswered_outcome_anchor ledger =
    bind (rfind outcome_asks_for_a_continuation 0 ledger) (λ (position, outcome).
      bind outcome.dispatch_anchor (λ anchor.
        then_some
          (all (λ block. not (is_id block.dispatch_anchor anchor) || not (closes_turn block))
            (drop (suc position) ledger))
          anchor))

unfoldable pub unresolved_call_named : List Block → Option ℕ → Option ℕ
unresolved_call_named ledger id = bind id (λ named.
    bind (find (λ block. block.id == named) ledger) (λ call_block. elim (from_block call_block) [
      | BlockKind.tool_call call ↦ then_some (not (resolved_in call ledger)) named
      | _ ↦ none
    ]))
