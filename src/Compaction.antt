-- ===== src/Compaction.antt =====
-- Where a ledger splits for a compaction: crates/agent-ledger/src/store/compaction.rs, with
-- `role_run` of store/conversations.rs. An index that the source would panic on is none.
pub mod Straddling
use ronna_core.Prelude.{
  ℕ, zero, suc, ◌+◌, ◌-◌, ◌/◌, Bool, true, false, ◌&&◌, Option, none, some, List, [], ◌∷◌, bind,
  or_else, min, if◌then◌else◌, ltb, leb, ◌==◌, length, get_elem?, take, drop, rev,
}
use ronna_core.Block.{Block, Role, Role-discrete}
use ronna_core.Agency.Kinds.{BlockKind, from_block}
use ronna_core.Agency.Outcomes.{outcome_position_in}

pub record LedgerCut : Type 0 where
  pub first_half_ends : ℕ
  pub second_half_begins : ℕ

role_eq : Option Role → Option Role → Bool
role_eq none none = true
role_eq (some a) (some b) = elim (Role-discrete a b) [ yes _ ↦ true | no _ ↦ false ]
role_eq _ _ = false

-- How many rows of the role stand at the front.
run_length : Option Role → List Block → ℕ
unfolding role_eq
run_length role [] = 0
run_length role (block ∷ blocks) =
    let rest = run_length role blocks in if role_eq block.role role then suc rest else 0

-- The rows of one role around an index: the loop down, and the loop up.
unfoldable pub role_run : List Block → ℕ → Option (ℕ × ℕ)
unfolding run_length
role_run blocks index = bind (get_elem? blocks index) (λ block. some (
  index - run_length block.role (rev (take index blocks)),
  index + run_length block.role (drop (suc index) blocks),
))

answered_pair : List Block → ℕ → BlockKind → Option (ℕ × ℕ)
answered_pair blocks at (BlockKind.tool_call call) =
    bind (outcome_position_in call blocks) (λ to. some (at, to))
answered_pair blocks at _ = none

push_found : Option (ℕ × ℕ) → List (ℕ × ℕ) → List (ℕ × ℕ)
push_found none found = found
push_found (some pair) found = pair ∷ found

-- `enumerate` from an index on: the calls and where their outcomes stand in the ledger.
unfoldable pub answered_from : List Block → ℕ → List Block → List (ℕ × ℕ)
unfolding answered_pair push_found
answered_from ledger at [] = []
answered_from ledger at (block ∷ blocks) =
    push_found (answered_pair ledger at (from_block block)) (answered_from ledger (suc at) blocks)

unfoldable pub straddles : ℕ → ℕ × ℕ → Bool
straddles end (call, outcome) = leb call end && ltb end outcome

nearer : ℕ → Option ℕ → ℕ
nearer outcome none = outcome
nearer outcome (some other) = min outcome other

-- The nearest outcome of a call that the cut would part from it.
unfoldable pub nearest : List (ℕ × ℕ) → ℕ → Option ℕ
unfolding nearer
nearest [] end = none
nearest (pair ∷ answered) end =
    let rest = nearest answered end in
    if straddles end pair then some (nearer pair.1 rest) else rest

-- A round of the extension, given what the rest of the loop does.
extend_round : (ℕ → Option ℕ) → List Block → ℕ → Option ℕ → Option ℕ
extend_round next blocks end none = some end
extend_round next blocks end (some outcome) = bind (role_run blocks outcome) (λ run. next run.1)

unfoldable pub extend : ℕ → List Block → List (ℕ × ℕ) → ℕ → Option ℕ
unfolding extend_round
extend zero blocks answered end = none
extend (suc fuel) blocks answered end =
    extend_round (λ e. extend fuel blocks answered e) blocks end (nearest answered end)

-- The cut after an index, unless nothing is left behind it.
unfoldable pub cut_at : List Block → ℕ → Option LedgerCut
cut_at blocks end =
    if leb (length blocks) (end + 1)
    then none
    else bind (get_elem? blocks end) (λ first.
      bind (get_elem? blocks (end + 1))
        (λ second. some (record { first_half_ends = first.id; second_half_begins = second.id })))

-- The end moves on with each round, so the number of rows is enough fuel.
unfoldable pub cut_extended_from : List Block → ℕ → Option LedgerCut
cut_extended_from blocks end =
    bind (extend (length blocks) blocks (answered_from blocks 0 blocks) end) (λ e. cut_at blocks e)

near_side : List Block → ℕ → Option LedgerCut
near_side blocks zero = none
near_side blocks (suc before) = cut_extended_from blocks before

unfoldable pub ledger_cut : List Block → Option LedgerCut
unfolding near_side
ledger_cut blocks =
    if ltb (length blocks) 2
    then none
    else bind (role_run blocks (length blocks / 2)) (λ straddling.
      or_else (cut_extended_from blocks straddling.1) (near_side blocks straddling.0))
