-- ===== src/Tests/Wakeups.antt =====
-- Wakeups of a call: a tool that answers, and one whose backing system will.
use ronna_core.Prelude.{ℕ, true, false, ◌≡◌, ◌⊎◌, refl, none, some, [], ◌∷◌, ◌++◌, ◌-◌}
use ronna_core.Block.{Value}
use ronna_core.Store.{ok}
use ronna_core.Agency.Window.{Clock}
use ronna_core.Tools.Registry.{ToolHandler}
use ronna_core.Tools.Runner.{Runtime, ToolRunner, ToolOutcome, Admission, GateDecision}
use ronna_core.Tools.Runner.Pass.{execute_ready_call}
use ronna_core.Tools.Runner.Claims.{Ran}
use ronna_core.Tools.Runner.Admits.{execute_ready_call-Ran}
use ronna_core.Tests.Evaluated.{evaluated}
use ronna_core.Tests.Session.{Session, session, ask, call, answer}

abbrev clock : Clock
clock = record {
  Span = ℕ;
  now_instant = 100;
  zero_span = 0;
  try_seconds = λ n. some n;
  checked_sub_signed = λ at span. some (at - span);
  parse_stamp = λ stamp. some 100;
}

abbrev read_tool : ToolHandler
read_tool = record {
  definition = record { name = "read"; description = ""; parameters = Value.null };
  gated = true;
  interactive = false;
  ends_turn = false;
  runs_in_order = true;
}

abbrev runtime : ToolOutcome → ℕ → Runtime Session
runtime outcome calls = record {
  conversation_id = 1;
  list_blocks = λ s. (ok s.ledger, s);
  fail_call =
      λ call text refusal s. (ok (some 3), record s { ledger = s.ledger ++ (answer 3 2 ∷ []) });
  complete_call =
      λ call result stamp s. (ok (some 3), record s { ledger = s.ledger ++ (answer 3 2 ∷ []) });
  insert_approval_request = λ id s. (ok none, s);
  consumer_admit = λ h call ledger s. (Admission.admit, s);
  gate = λ h input s. (GateDecision.proceed, s);
  execute = λ h call s. (outcome, s);
  registry = ("read", read_tool) ∷ [];
  window = record { calls = calls; seconds = 60 };
  tool_windows = [];
  decimal = λ n. "9";
}

abbrev idle : ToolRunner
idle = record { in_flight = []; executed = [] }

abbrev waiting : Session
waiting = session (ask 1 ∷ call 2 ∷ [])

-- A body that answers leaves no claim; one whose answer is pending does, and is not run again; a
-- spent window runs nothing.
answered :
    (execute_ready_call clock (runtime (ToolOutcome.done "yes") 1) 2 idle waiting).0
    ≡ record { in_flight = []; executed = 2 ∷ [] }
unfolding evaluated
answered = refl

abbrev held : ToolRunner
held = record { in_flight = (1, 2) ∷ []; executed = 2 ∷ [] }

deferred : (execute_ready_call clock (runtime ToolOutcome.pending 1) 2 idle waiting).0 ≡ held
unfolding evaluated
deferred = refl

not_twice : (execute_ready_call clock (runtime ToolOutcome.pending 1) 2 held waiting).0 ≡ held
unfolding evaluated
not_twice = refl

limited : (execute_ready_call clock (runtime (ToolOutcome.done "yes") 0) 2 idle waiting).0 ≡ idle
unfolding evaluated
limited = refl

execute_ready_call-Ran_example :
    let after = (execute_ready_call clock (runtime ToolOutcome.pending 1) 2 idle waiting).0 in
    (after ≡ idle) ⊎ Ran clock (runtime ToolOutcome.pending 1) 2 idle waiting after
execute_ready_call-Ran_example =
    execute_ready_call-Ran clock (runtime ToolOutcome.pending 1) 2 idle waiting
