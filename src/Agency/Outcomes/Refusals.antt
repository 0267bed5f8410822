-- ===== src/Agency/Outcomes/Refusals.antt =====
-- The run of refusals at a turn's end: `trailing_refusal_run` of
-- crates/agent-ledger/src/agency/tool_call.rs, against a running count.
use ronna_core.Prelude.{
  ℕ, suc, ◌≡◌, refl, Bool, true, false, Option, none, some, List, [], ◌∷◌, ◌++◌, if◌then◌else◌,
  is_id, ltb, rev, rev-snoc, filter, take_while, filter_map, scan, scan_unique, arith,
}
use ronna_core.Block.{Block}
use ronna_core.Agency.Outcomes.{refusal_of, trailing_refusal_run}

count_refusal : Option Bool → ℕ → ℕ
count_refusal none run = run
count_refusal (some true) run = suc run
count_refusal (some false) run = 0

-- A row from before the turn, by its id, resets the run; a row of another turn or one that is no
-- outcome leaves it; a refusal of the turn adds one, and any other outcome of it resets the run.
pub run_step : ℕ → Block → ℕ → ℕ
unfolding count_refusal
run_step anchor block run =
    if ltb anchor block.id
    then (if is_id block.dispatch_anchor anchor then count_refusal (refusal_of block) run else run)
    else 0

trailing-snoc :
    (anchor : ℕ) (ledger : List Block) (b : Block)
    → trailing_refusal_run (ledger ++ (b ∷ [])) anchor
      ≡ run_step anchor b (trailing_refusal_run ledger anchor)
unfolding trailing_refusal_run run_step filter take_while filter_map
trailing-snoc anchor ledger b = rw (rev-snoc ledger b) (ground arith)

-- The run that the code reads off the ledger's end is the count that one pass over the ledger
-- keeps.
pub trailing_refusal_run-scan :
    (anchor : ℕ) (ledger : List Block)
    → trailing_refusal_run ledger anchor ≡ scan (run_step anchor) 0 ledger
unfolding trailing_refusal_run filter take_while filter_map rev
trailing_refusal_run-scan anchor =
    scan_unique (run_step anchor) 0 (λ ledger. trailing_refusal_run ledger anchor) refl
      (trailing-snoc anchor)
