-- ===== src/Metadata/Fulfillment.antt =====
-- The delivery loop's handling of one event, the request for a title and the provider's binding:
-- `fulfillment_loop`, `request_title_stream` and `ensure_provider` of agent-ledger/src/metadata.rs.
--
-- One event is handled as a whole; the reader of a channel runs between events.
pub mod Delivery
pub mod Due
pub mod Provided
pub mod Served
use ronna_core.Prelude.{
  ℕ, String, Bool, true, false, not, ◌&&◌, Option, none, some, List, [], ◌∷◌, ◌++◌, ◌==◌, str_eq,
  if◌then◌else◌, filter, find, get_or,
}
use ronna_core.Block.{Role, Block, Value}
use ronna_core.Store.{M, Result, ok, err}
use ronna_core.Event.{CoreEvent}
use ronna_core.Agency.Interface.{RuntimeKind}
use ronna_core.Agency.Kinds.{BlockKind, from_block}
use ronna_core.Agency.Records.{MetadataTitleRequest}
use ronna_core.Agency.Title.{settled_in}
use ronna_core.Render.{Projection, blocks_to_messages}
use ronna_core.Actor.State.{Conversation}
use ronna_core.Metadata.Throttle.{ThrottleState, record_failure, suppressed}
use ronna_core.Metadata.Turns.{TurnState, open_turn, close_unsent, is_open, bind_turn}
use ronna_core.Metadata.Outside.{Outside, TitleStream, ModelSelector, ok_or}

-- What the loop holds, and the requests that channels took, in order.
pub record Fulfillment : Type 0 where
  pub conv_id : ℕ
  pub turn : TurnState
  pub throttle : ThrottleState
  pub provider_tx : Option ℕ
  pub requested : List (ℕ × TitleStream)

abbrev pub Act : Type 0 → Type 0
Act S = Fulfillment → S → Fulfillment × S

abbrev pub stay : {S : Type 0} → Act S
stay f s = (f, s)

unfoldable pub speaks : Option Role → Bool
speaks (some Role.user) = true
speaks (some Role.assistant) = true
speaks _ = false

unfoldable pub has_text : Option String → Bool
has_text none = false
has_text (some text) = not (str_eq text "")

-- The instruction that is appended to the prose.
abbrev pub instruction : Block
instruction = record {
  id = 0;
  role = some Role.user;
  block_type = "text";
  created_at = "";
  dispatch_anchor = none;
  fields =
      (
        "content",
        Value.str
            "Generate a concise title (3-7 words) for this conversation. Return ONLY the title text, no quotes, no explanation.",
      )
      ∷ [];
}

module _ {K : Type 0} (from_block : Block → K) (projection : Projection K) where
  open projection use {group_role, llm_text}

  unfoldable pub title_source_blocks : List Block → List Block
  title_source_blocks blocks =
      filter
        (λ block. speaks (group_role (from_block block)) && has_text (llm_text (from_block block)))
        blocks

  unfoldable pub title_request : List Block → Conversation → TitleStream
  title_request blocks conv = record {
    messages = blocks_to_messages projection from_block (blocks ++ (instruction ∷ []));
    model = ModelSelector.lightweight conv.external_id;
    tools = [];
    reasoning = none;
    response_schema = none;
  }

module _ {S : Type 0} (outside : Outside S) where
  open outside use {
    clock, list_blocks, find_conversation, find_provider_type, has_module, has_config, bind,
    is_closed, send,
  }

  -- The channel took the request, or the turn that was opened for it is closed again.
  unfoldable pub sent_title : ℕ → TitleStream → Fulfillment → Bool × S → Fulfillment × S
  sent_title tx request f (true, s) =
      (record f { requested = f.requested ++ ((tx, request) ∷ []) }, s)
  sent_title tx request f (false, s) = (record f { turn = close_unsent f.turn }, s)

  unfoldable pub unsent : Act S
  unsent f s = (record f { turn = close_unsent f.turn }, s)

  -- No provider could be bound: the window of the next attempt opens.
  unfoldable pub unbound : Act S
  unbound f s = (record f { throttle = (record_failure (clock s) f.throttle).0 }, s)

  unfoldable pub on_config :
      (ℕ → Act S) → String → String → Fulfillment → Result Bool × S → Fulfillment × S
  on_config next provider_type provider_id f (ok true, s) =
      let (turn, generation) = bind_turn f.turn in
      next generation (record f { turn = turn; provider_tx = some generation })
        (bind provider_type provider_id generation s)
  on_config next provider_type provider_id f (ok false, s) = unbound f s
  on_config next provider_type provider_id f (err e, s) = unbound f s

  unfoldable pub on_instance :
      (ℕ → Act S) → String → Fulfillment → Result (Option String) × S → Fulfillment × S
  on_instance next provider_id f (ok (some provider_type), s) =
      if has_module provider_type
      then on_config next provider_type provider_id f (has_config provider_type provider_id s)
      else unbound f s
  on_instance next provider_id f (ok none, s) = unbound f s
  on_instance next provider_id f (err e, s) = unbound f s

  unfoldable pub on_conversation :
      (ℕ → Act S) → Fulfillment → Result (Option Conversation) × S → Fulfillment × S
  on_conversation next f (ok (some conv), s) =
      on_instance next conv.provider_id f (find_provider_type conv.provider_id s)
  on_conversation next f (ok none, s) = unbound f s
  on_conversation next f (err e, s) = unbound f s

  unfoldable pub rebind : (ℕ → Act S) → Act S
  rebind next f s = on_conversation next (record f { provider_tx = none }) (find_conversation s)

  unfoldable pub reuse_channel : (ℕ → Act S) → Option ℕ → Act S
  reuse_channel next none f s = rebind next f s
  reuse_channel next (some tx) f s = if is_closed tx s then rebind next f s else next tx f s

  -- `ensure_provider`, and the loop's answer to a failed one.
  unfoldable pub ensure_provider : (ℕ → Act S) → Act S
  ensure_provider next f s = reuse_channel next f.provider_tx f s

  module _ {K : Type 0} (from_kind : Block → K) (projection : Projection K) where
    unfoldable pub on_title_conversation :
        List Block → ℕ → Fulfillment → Result (Option Conversation) × S → Fulfillment × S
    on_title_conversation blocks tx f (ok (some conv), s) =
        let request = title_request from_kind projection blocks conv in
        sent_title tx request f (send tx request s)
    on_title_conversation blocks tx f (ok none, s) = unsent f s
    on_title_conversation blocks tx f (err e, s) = unsent f s

    unfoldable pub on_prose : List Block → ℕ → Act S
    on_prose [] tx f s = unsent f s
    on_prose (first ∷ rest) tx f s = on_title_conversation (first ∷ rest) tx f (find_conversation s)

    unfoldable pub on_title_blocks : ℕ → Fulfillment → Result (List Block) × S → Fulfillment × S
    on_title_blocks tx f (ok blocks, s) =
        on_prose (title_source_blocks from_kind projection blocks) tx f s
    on_title_blocks tx f (err e, s) = unsent f s

    -- `request_title_stream`, and the loop's answer to one that did not go out.
    unfoldable pub request_title_stream : ℕ → Act S
    request_title_stream tx f s = on_title_blocks tx f (list_blocks s)

    -- The turn opens before the dispatch.
    unfoldable pub dispatch : ℕ → ℕ → Act S
    dispatch anchor tx f s =
        request_title_stream tx (record f { turn = open_turn (some anchor) f.turn }) s

    unfoldable pub on_anchor : Block → Fulfillment → Result (Option ℕ) × S → Fulfillment × S
    on_anchor block f (anchor, s) =
        ensure_provider (dispatch (get_or (ok_or anchor none) block.id)) f s

    unfoldable pub on_kind : ℕ → List Block → Block → BlockKind → Act S
    on_kind request_id ledger block (BlockKind.metadata_title_request request) f s =
        if settled_in request ledger
        then (f, s)
        else on_anchor block f (outside.metadata_dispatch_anchor request_id s)
    on_kind request_id ledger block _ f s = (f, s)

    unfoldable pub on_row : ℕ → List Block → Option Block → Act S
    on_row request_id ledger none f s = (f, s)
    on_row request_id ledger (some block) f s =
        on_kind request_id ledger block (from_block block) f s

    unfoldable pub on_ledger : ℕ → Fulfillment → Result (List Block) × S → Fulfillment × S
    on_ledger request_id f (ok ledger, s) =
        on_row request_id ledger (find (λ b. b.id == request_id) ledger) f s
    on_ledger request_id f (err e, s) = (f, s)

    -- What the loop does with an event of the bus.
    unfoldable pub deliver : Bool → CoreEvent → Act S
    deliver latched (CoreEvent.metadata_request_ready conversation_id request_id) f s =
        if not (conversation_id == f.conv_id)
        then (f, s)
        else if latched
        then (f, s)
        else if suppressed (clock s) f.throttle
        then (f, s)
        else if is_open f.turn
        then (f, s)
        else on_ledger request_id f (outside.list_metadata_blocks s)
    deliver latched _ f s = (f, s)
