-- ===== src/Agency/Frontier.antt =====
-- The pure reads of the ratchet: where a drive resumes, which row speaks for the frontier, and
-- whether it owes a turn. crates/agent-ledger/src/agency/ratchet.rs.
pub mod Resume
pub mod Speaker
use ronna_core.Prelude.{
  ℕ, Bool, true, false, not, ◌&&◌, ◌||◌, Option, none, some, List, [], ◌∷◌, ◌++◌, leb, ◌==◌,
  if◌then◌else◌, get_or, or_else, is_none, bind, position, contains, all, rev, last?,
}
use ronna_core.Block.{Block}
use ronna_core.Agency.Awaiting.{is_model}
use ronna_core.Agency.Interface.{RuntimeKind}
use ronna_core.Agency.Outcomes.{system_owed_call_from, unanswered_outcome_anchor}

unfoldable pub resume_at : List Block → ℕ → ℕ
resume_at ledger cursor =
    get_or
      (or_else (position (λ block. block.id == cursor) ledger)
        (position (λ block. leb cursor block.id) ledger))
      0

-- A row's anchor is among the disowned turns.
unfoldable pub is_disowned : List ℕ → Option ℕ → Bool
is_disowned disowned none = false
is_disowned disowned (some anchor) = contains disowned anchor

-- The anchor of a transparent row joins the disowned turns, once.
unfoldable pub disown : Option ℕ → List ℕ → List ℕ
disown none disowned = disowned
disown (some anchor) disowned =
    if contains disowned anchor then disowned else disowned ++ (anchor ∷ [])

module _ {K S : Type 0} (kind : RuntimeKind K S) where
  open kind use {from_block, awaiting, durable, frontier_transparent}

  unfoldable pub awaits_model : Block → Bool
  awaits_model block = is_model (awaiting (from_block block))

  -- The walk over the rows, newest first.
  unfoldable pub frontier_loop : Block → List ℕ → List Block → Block
  unfolding disown is_disowned
  frontier_loop tail disowned [] = tail
  frontier_loop tail disowned (block ∷ older) =
      let closed = frontier_loop tail (disown block.dispatch_anchor disowned) older in
      let passed = frontier_loop tail disowned older in
      if frontier_transparent (from_block block)
      then closed
      else if is_disowned disowned block.dispatch_anchor
      then passed
      else if contains disowned block.id
      then tail
      else block

  unfoldable pub frontier_block : List Block → Option Block
  frontier_block snapshot =
      bind (last? snapshot) (λ tail. some (frontier_loop tail [] (rev snapshot)))

  unfoldable pub frontier_owes_turn : List Block → ℕ → Bool
  frontier_owes_turn snapshot cursor =
      elim (frontier_block snapshot) [ none ↦ false | some block ↦ awaits_model block ]
      && not (system_owed_call_from snapshot (resume_at snapshot cursor))

  unfoldable pub fresh_turn_anchor : List Block → Block → ℕ
  fresh_turn_anchor snapshot tail =
      get_or (or_else tail.dispatch_anchor (unanswered_outcome_anchor snapshot)) tail.id

  unfoldable pub ledger_turn_durably_over : List Block → Bool
  ledger_turn_durably_over ledger =
      all (λ block. durable (from_block block)) ledger && is_none (unanswered_outcome_anchor ledger)
