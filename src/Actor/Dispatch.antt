-- ===== src/Actor/Dispatch.antt =====
-- The dispatch of an owed turn: `handle_blocks_ready` of actor.rs, over any kind.
use ronna_core.Prelude.{
  ℕ, String, Bool, true, false, not, Option, none, some, List, [], ◌∷◌, ◌++◌, leb, if◌then◌else◌,
  get_or, bind,
}
use ronna_core.Block.{Block}
use ronna_core.Event.{CoreEvent}
use ronna_core.Agency.Interface.{RuntimeKind}
use ronna_core.Agency.Records.{ToolChoice, tool_calls_exhausted}
use ronna_core.Agency.Frontier.{frontier_block, frontier_owes_turn, fresh_turn_anchor}
use ronna_core.Agency.Outcomes.{outcomes_anchored_in, trailing_refusal_run}
use ronna_core.Ingestion.Reader.{set_anchor, clear_anchor}
use ronna_core.Render.{Projection, blocks_to_messages}
use ronna_core.Tools.Registry.{ToolRegistry}
use ronna_core.Tools.Choice.{newest_in, from_choice, tool_definitions}
use ronna_core.Actor.State.{
  Outside, ConversationActor, Conversation, ProviderRequest, Act, stay, try_call, tell, from_key,
}
use ronna_core.Actor.Close.{turn_continuation_due, drop_turn}
use ronna_core.Actor.Bind.{ensure_provider}

-- The held identity of a turn that goes on, or that of a fresh one.
unfoldable pub held_turn : ConversationActor → List Block → Option ℕ → Option ℕ
held_turn actor blocks none = none
held_turn actor blocks (some held) =
    if turn_continuation_due actor blocks held then some held else none

unfoldable pub headless_error : String
headless_error = "the ledger does not open with its head kind, so no turn is dispatched for it"

module _ {K S : Type 0} (kind : RuntimeKind K S) where
  open kind use {from_block}

  unfoldable pub turn_identity : ConversationActor → List Block → Block → ℕ
  turn_identity actor blocks tail =
      get_or (held_turn actor blocks actor.open_turn) (fresh_turn_anchor kind blocks tail)

  unfoldable pub does_the_ledger_open_with_its_head_kind : (K → Bool) → List Block → Bool
  does_the_ledger_open_with_its_head_kind heads_the_ledger [] = false
  does_the_ledger_open_with_its_head_kind heads_the_ledger (head ∷ blocks) =
      heads_the_ledger (from_block head)

  -- The request of a turn.
  unfoldable pub request_of :
      Projection K → ToolRegistry → List Block → Conversation → ProviderRequest
  request_of projection registry blocks conv =
      let choice = newest_in blocks in
      ProviderRequest.stream (record {
        messages = blocks_to_messages projection from_block blocks;
        model = conv.external_id;
        tools = tool_definitions (from_choice choice registry);
        reasoning = bind conv.reasoning from_key;
        response_schema = bind choice (λ (c : ToolChoice). c.response_schema);
      })

-- The channel took the request, or it had closed.
unfoldable pub sent_to :
    {S : Type 0}
    → ℕ
    → ProviderRequest
    → List Block
    → ℕ
    → ConversationActor
    → Bool × S
    → ConversationActor × S
sent_to tx request blocks anchor actor (true, s) = (
  record actor {
    streaming = true;
    stream_stop = none;
    answered_outcomes = outcomes_anchored_in blocks anchor;
    open_turn = some anchor;
    sent = actor.sent ++ ((tx, request) ∷ []);
  },
  s,
)
sent_to tx request blocks anchor actor (false, s) =
    (record actor { turn_anchor = clear_anchor actor.turn_anchor }, s)

module _ {K S : Type 0} (kind : RuntimeKind K S) (heads_the_ledger : K → Bool)
    (projection : Projection K) (outside : Outside S) where
  open outside use {
    insert_status_block, list_blocks, cursor, find_conversation, send, registry, consecutive_limit,
  }

  unfoldable pub send_turn : List Block → ℕ → Conversation → ℕ → Act S
  send_turn blocks anchor conv tx actor s =
      let request = request_of kind projection registry blocks conv in
      sent_to tx request blocks anchor
        (record actor { turn_anchor = set_anchor anchor actor.turn_anchor }) (send tx request s)

  unfoldable pub dispatch_for : List Block → ℕ → Option Conversation → Act S
  dispatch_for blocks anchor none = stay
  dispatch_for blocks anchor (some conv) = ensure_provider outside (send_turn blocks anchor conv)

  -- A run of refused calls ends its turn instead.
  unfoldable pub end_or_dispatch : List Block → ℕ → Act S
  end_or_dispatch blocks anchor actor s =
      if leb consecutive_limit (trailing_refusal_run blocks anchor)
      then try_call (insert_status_block (some anchor) tool_calls_exhausted none)
          (λ _ a. stay (drop_turn a)) (λ _. stay) actor s
      else try_call find_conversation (dispatch_for blocks anchor) (λ _. stay) actor s

  unfoldable pub dispatch_over : List Block → ℕ → Option Block → Act S
  dispatch_over blocks at none actor s = (actor, s)
  dispatch_over blocks at (some tail) actor s =
      if not (frontier_owes_turn kind blocks at)
      then (actor, s)
      else if not (does_the_ledger_open_with_its_head_kind kind heads_the_ledger blocks)
      then (tell (CoreEvent.stream_error actor.id headless_error none) actor, s)
      else end_or_dispatch blocks (turn_identity kind actor blocks tail) actor s

  unfoldable pub with_cursor : Option ℕ → Act S
  with_cursor none = stay
  with_cursor (some at) =
      try_call list_blocks (λ blocks. dispatch_over blocks at (frontier_block kind blocks))
        (λ _. stay)

  unfoldable pub handle_blocks_ready : Act S
  handle_blocks_ready actor s =
      if actor.latched
      then (actor, s)
      else if actor.streaming
      then (record actor { owed_turn_deferred = true }, s)
      else try_call cursor with_cursor (λ _. stay) actor s
