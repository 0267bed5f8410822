-- ===== src/Tests/Ledgers.antt =====
-- The reads of a ledger, at concrete rows.
use ronna_core.Prelude.{
  ℕ, suc, true, none, some, List, [], ◌∷◌, ◌++◌, ◌≡◌, refl, arith, scan, ltb, length, filter,
  take_while, not, rev,
}
use ronna_core.Block.{Block}
use ronna_core.Store.{pure, ◌>>=◌}
use ronna_core.Agency.Calls.{ToolCall, parse_tool_call}
use ronna_core.Agency.Records.{parse_approval_decision, parse_approval_request}
use ronna_core.Agency.Kinds.{from_block, BlockKind}
use ronna_core.Agency.Outcomes.{
  earlier_unresolved_call, trailing_refusal_run, unanswered_outcome_anchor,
}
use ronna_core.Agency.Outcomes.Debt.{debt_step, unanswered_outcome_anchor-scan}
use ronna_core.Agency.Outcomes.Refusals.{run_step, trailing_refusal_run-scan}
use ronna_core.Agency.Outcomes.Resolution.{IsEarlierUnresolved, earlier_unresolved_call_sound}
use ronna_core.Agency.Window.{Clock, calls_in_trailing_window}
use ronna_core.Agency.Window.Bounds.{
  cutoff_of, is_counted, is_old_call, calls_in_trailing_window_lem,
}
use ronna_core.Agency.Approval.{approval_state}
use ronna_core.Agency.Approval.State.{Moves, approval_state-Moves}
use ronna_core.Agency.Title.{settled_in}
use ronna_core.Agency.Title.Pairing.{open_step, responses, turns_of, settled_in_lem}
use ronna_core.Agency.Machine.{library_kind}
use ronna_core.Event.{tool_call_ready}
use ronna_core.Agency.Redispatch.{walk_chain, walk}
use ronna_core.Agency.Redispatch.Ends.{walk_chain_total}
use ronna_core.Agency.Redispatch.Approved.{IsCleared, walk_approved}
use ronna_core.Tests.Evaluated.{evaluated}
use ronna_core.Tests.Session.{
  ctx, session, ask, call, refuse, request, approve, title_request, title_response,
}

abbrev refused : List Block
refused = ask 1 ∷ call 2 ∷ refuse 3 2 ∷ call 4 ∷ refuse 5 4 ∷ []

refused_twice : trailing_refusal_run refused 1 ≡ 2
unfolding evaluated
refused_twice = refl

trailing_refusal_run-scan_example : trailing_refusal_run refused 1 ≡ scan (run_step 1) 0 refused
trailing_refusal_run-scan_example = trailing_refusal_run-scan 1 refused

debt_open : unanswered_outcome_anchor refused ≡ some 1
unfolding evaluated
debt_open = refl

unanswered_outcome_anchor-scan_example :
    unanswered_outcome_anchor refused ≡ scan debt_step none refused
unanswered_outcome_anchor-scan_example = unanswered_outcome_anchor-scan refused

abbrev first_call : ToolCall
unfolding evaluated
first_call = parse_tool_call (call 2)

abbrev second_call : ToolCall
unfolding evaluated
second_call = parse_tool_call (call 3)

abbrev two_calls : List Block
two_calls = ask 1 ∷ call 2 ∷ call 3 ∷ []

waits_for_first : earlier_unresolved_call two_calls second_call (λ c. true) ≡ some 2
unfolding evaluated
waits_for_first = refl

earlier_unresolved_call_sound_example : IsEarlierUnresolved two_calls second_call (λ c. true) 2
earlier_unresolved_call_sound_example =
    earlier_unresolved_call_sound two_calls second_call (λ c. true) waits_for_first

-- A clock in seconds, on which every row is written at second 5.
abbrev clock : Clock
clock = record {
  Span = ℕ;
  now_instant = 9;
  zero_span = 0;
  try_seconds = λ n. some n;
  checked_sub_signed = λ now span. some 4;
  parse_stamp = λ stamp. some 5;
}

calls_in_trailing_window_lem_example :
    calls_in_trailing_window clock two_calls 5 none ≡ elim (cutoff_of clock 5) [
      | none ↦ 0
      | some cutoff ↦ length (
          filter
            (is_counted clock cutoff none)
            (take_while (λ b. not (is_old_call clock cutoff b)) (rev two_calls)))
    ]
calls_in_trailing_window_lem_example = calls_in_trailing_window_lem clock two_calls 5 none

abbrev asked : List Block
asked = ask 1 ∷ call 2 ∷ request 3 2 ∷ []

approval_state-Moves_example :
    Moves (approval_state asked 2) (approval_state (asked ++ (approve 4 3 ∷ [])) 2)
approval_state-Moves_example = approval_state-Moves asked (approve 4 3 ∷ []) 2

abbrev cleared : List Block
cleared = ask 1 ∷ call 2 ∷ request 3 2 ∷ approve 4 3 ∷ []

is_cleared : IsCleared cleared first_call
unfolding evaluated
is_cleared = record {
  decision_row = approve 4 3;
  request_row = request 3 2;
  call_row = call 2;
  decision = parse_approval_decision (approve 4 3);
  request = parse_approval_request (request 3 2);
  first = parse_approval_decision (approve 4 3);
  last = refl;
  is_decision = refl;
  is_approval = refl;
  answers = refl;
  requested = refl;
  is_request = refl;
  decided = refl;
  stands = refl;
  covers = refl;
  called = refl;
  is_call = refl;
  unresolved = refl;
  apart = omega arith;
}

walk_approved_example :
    walk (library_kind ctx) ctx.list_blocks (session cleared)
    ≡ (ctx.emit (tool_call_ready 1 2) >>= λ _. pure tt) (session cleared)
unfolding evaluated
walk_approved_example = walk_approved ctx cleared first_call is_cleared (session cleared) refl refl

walk_chain_total_example :
    (result : List BlockKind) × (walk_chain
        (library_kind ctx)
        (suc (length cleared))
        cleared
        (from_block (approve 4 3))
        (4 ∷ [])
        (from_block (approve 4 3) ∷ [])
      ≡ some result)
walk_chain_total_example =
    walk_chain_total (library_kind ctx) cleared (from_block (approve 4 3)) (4 ∷ [])
      (from_block (approve 4 3) ∷ [])

settled_in_lem_example :
    settled_in (record { id = 2 }) (title_request 1 ∷ title_request 2 ∷ title_response 3 ∷ [])
    ≡ ltb
        (scan open_step 0 (turns_of (title_request 1 ∷ [])))
        (responses (turns_of (title_response 3 ∷ [])))
unfolding evaluated
settled_in_lem_example =
    settled_in_lem (record { id = 2 }) (title_request 1 ∷ []) (title_request 2)
      (title_response 3 ∷ []) refl (omega arith, tt)
