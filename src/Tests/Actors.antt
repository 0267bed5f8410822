-- ===== src/Tests/Actors.antt =====
-- An actor on a conversation in memory, and the tools and levels that its requests carry.
use ronna_core.Prelude.{
  ◌+◌, ◌≤◌, Bool, true, false, ◌≡◌, ◌⊎◌, refl, none, some, List, [], ◌∷◌, ◌++◌, length, scan,
  if◌then◌else◌,
}
use ronna_core.Block.{Role, Block, Value}
use ronna_core.Store.{ok}
use ronna_core.Event.{CoreEvent}
use ronna_core.Render.{Projection}
use ronna_core.Agency.Interface.{RuntimeKind}
use ronna_core.Agency.Kinds.{BlockKind}
use ronna_core.Agency.Machine.{library_kind}
use ronna_core.Tools.Registry.{ToolRegistry, ToolHandler, get, register}
use ronna_core.Tools.Choice.{of_ledger, handler}
use ronna_core.Tools.Offered.{note_choice, is_among, handler-of_ledger}
use ronna_core.Tools.Registry.Ordered.{Registers, register-Registers, IsOrdered-one}
use ronna_core.Actor.State.{Outside, ConversationActor, new_actor}
use ronna_core.Actor.Dispatch.{handle_blocks_ready}
use ronna_core.Actor.Handle.{Signal, SchedulerSignal, unlatch, mail, scheduled, given_up, run}
use ronna_core.Actor.Sends.{Sent, handle_blocks_ready-sends}
use ronna_core.Actor.Flight.{IsInFlight, closings, flag, nudges}
use ronna_core.Actor.Flight.Runs.{run-IsInFlight, run-sent, run-nudges}
use ronna_core.Actor.Latch.{IsStopped, run-latches}
use ronna_core.Tests.Evaluated.{evaluated}
use ronna_core.Tests.Session.{Session, session, ctx, ask, closed, tool_choice}

abbrev read_tool : ToolHandler
read_tool = record {
  definition = record { name = "read"; description = ""; parameters = Value.null };
  gated = false;
  interactive = false;
  ends_turn = false;
  runs_in_order = false;
}

abbrev registry : ToolRegistry
registry = ("read", read_tool) ∷ []

-- A store that does as it is asked, and a provider that takes every request.
abbrev outside : Outside Session
outside = record {
  error_text = λ e. "failed";
  promote_draft = λ s. (ok [], s);
  insert_user_blocks = λ blocks s. (ok [], record s { ledger = s.ledger ++ (ask 9 ∷ []) });
  insert_call = λ latched id name input s. (ok 5, s);
  submit_approval = λ request decision system_reason user_reason s. (ok 6, s);
  delete_streaming_blocks = λ s. (ok 0, s);
  insert_status_block =
      λ anchor label subtitle s. (ok 7, record s { ledger = s.ledger ++ (closed 7 ∷ []) });
  list_blocks = λ s. (ok s.ledger, s);
  cursor = λ s. (ok s.cursor, s);
  find_conversation = λ s.
      (ok (some (record { provider_id = "p"; external_id = "m"; reasoning = some "high" })), s);
  find_provider_type = λ id s. (ok (some "chat"), s);
  has_module = λ type. true;
  has_config = λ type id s. (ok true, s);
  bind = λ type id generation s. s;
  is_closed = λ tx s. false;
  send = λ tx request s. (true, s);
  registry = registry;
  consecutive_limit = 3;
}

abbrev kind : RuntimeKind BlockKind Session
kind = library_kind ctx

abbrev heads : BlockKind → Bool
heads k = true

abbrev projection : Projection BlockKind
projection = record {
  group_role = λ k. some Role.user;
  llm_parts = λ k. none;
  llm_text = λ k. some "hi";
  forces_parts = λ k. false;
}

abbrev actor : ConversationActor
unfolding new_actor unlatch
actor = unlatch (new_actor 1)

abbrev asked : Session
asked = session (ask 1 ∷ [])

-- The owed turn is sent over a fresh channel, and is the turn of the question.
sent_once :
    let a = (handle_blocks_ready kind heads projection outside actor asked).0 in
    (a.streaming ≡ true) × (a.open_turn ≡ some 1) × (length a.sent ≡ 1) × (a.provider_tx ≡ some 1)
unfolding evaluated
sent_once = (refl, refl, refl, refl)

handle_blocks_ready-sends_example :
    let a = (handle_blocks_ready kind heads projection outside actor asked).0 in
    ((a.sent ≡ actor.sent) × (a.streaming ≡ actor.streaming) × (a.latched ≡ actor.latched))
    ⊎ Sent kind heads projection outside actor asked a
handle_blocks_ready-sends_example =
    handle_blocks_ready-sends kind heads projection outside actor asked

-- A turn is sent; another is owed while it streams; the stream closes, and it is sent.
abbrev two_turns : List Signal
two_turns =
    scheduled SchedulerSignal.owes_turn
    ∷ scheduled SchedulerSignal.owes_turn
    ∷ given_up 1 1
    ∷ mail (CoreEvent.stream_closed 1 (some 1))
    ∷ scheduled SchedulerSignal.owes_turn
    ∷ []

sent_twice :
    let a = (run kind heads projection outside two_turns actor asked).0 in
    (length a.sent ≡ 2) × (a.recheck ≡ 1) × (a.stream_generation ≡ 2)
unfolding evaluated
sent_twice = (refl, refl, refl)

run-IsInFlight_example : IsInFlight (run kind heads projection outside two_turns actor asked).0
unfolding evaluated
run-IsInFlight_example = run-IsInFlight kind heads projection outside two_turns actor asked tt

run-sent_example :
    let a = (run kind heads projection outside two_turns actor asked).0 in
    length a.sent + flag actor.streaming ≤ length actor.sent + flag a.streaming + closings two_turns
run-sent_example = run-sent kind heads projection outside two_turns actor asked

run-nudges_example :
    nudges actor ≤ nudges (run kind heads projection outside two_turns actor asked).0
run-nudges_example = run-nudges kind heads projection outside two_turns actor asked

run-latches_example :
    IsStopped actor
      (run kind heads projection outside
        (mail (CoreEvent.interrupt_requested 1)
          ∷ scheduled SchedulerSignal.owes_turn
          ∷ mail (CoreEvent.stream_closed 1 none)
          ∷ [])
        actor
        asked).0
run-latches_example =
    run-latches kind heads projection outside (CoreEvent.interrupt_requested 1)
      (scheduled SchedulerSignal.owes_turn ∷ mail (CoreEvent.stream_closed 1 none) ∷ []) actor asked
      refl refl

-- A choice of the tool after a choice of none.
abbrev chosen_rows : List Block
chosen_rows = tool_choice 1 [] ∷ tool_choice 2 ("read" ∷ []) ∷ ask 3 ∷ []

has_read : handler (of_ledger chosen_rows registry) "read" ≡ some read_tool
unfolding evaluated tool_choice
has_read = refl

handler-of_ledger_example :
    handler (of_ledger chosen_rows registry) "read"
    ≡ (if is_among "read" (scan note_choice none chosen_rows) then get registry "read" else none)
handler-of_ledger_example = handler-of_ledger chosen_rows registry "read"

-- A second handler of a name panics; another name is put in its place.
registers_twice : register "read" read_tool registry ≡ none
unfolding evaluated
registers_twice = refl

registers_ask : register "ask" read_tool registry ≡ some (("ask", read_tool) ∷ registry)
unfolding evaluated
registers_ask = refl

register-Registers_example : Registers "ask" read_tool registry (register "ask" read_tool registry)
register-Registers_example =
    register-Registers "ask" read_tool registry (IsOrdered-one "read" read_tool)
