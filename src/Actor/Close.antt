-- ===== src/Actor/Close.antt =====
-- The end of a dispatch: `close_dispatch` and `settle_turn_identity` of actor.rs.
use ronna_core.Prelude.{
  ℕ, ◌+◌, String, Bool, true, false, not, ◌&&◌, ◌||◌, Option, none, some, List, ltb, is_id,
  if◌then◌else◌,
}
use ronna_core.Block.{Block}
use ronna_core.Chat.Events.{StopReason}
use ronna_core.Agency.Records.{turn_ended_closed, turn_ended_errored}
use ronna_core.Agency.Outcomes.{
  outcomes_anchored_in, system_owed_call_anchored_in, unanswered_outcome_anchor,
}
use ronna_core.Ingestion.Reader.{clear_anchor, is_abandoned}
use ronna_core.Actor.State.{Outside, ConversationActor, Act, stay, try_call}

pub data CloseEdge : Type 0 where
  closed errored teardown : CloseEdge

unfoldable pub turn_end_key : CloseEdge → Option String
turn_end_key CloseEdge.closed = some turn_ended_closed
turn_end_key CloseEdge.errored = some turn_ended_errored
turn_end_key CloseEdge.teardown = none

unfoldable pub is_closed_edge : CloseEdge → Bool
is_closed_edge CloseEdge.closed = true
is_closed_edge _ = false

unfoldable pub is_errored_edge : CloseEdge → Bool
is_errored_edge CloseEdge.errored = true
is_errored_edge _ = false

unfoldable pub is_tool_use : Option StopReason → Bool
is_tool_use (some StopReason.tool_use) = true
is_tool_use _ = false

-- Something was answered since the dispatch, or a call is still owed.
unfoldable pub turn_continuation_due : ConversationActor → List Block → ℕ → Bool
turn_continuation_due actor blocks anchor =
    ltb actor.answered_outcomes (outcomes_anchored_in blocks anchor)
    || system_owed_call_anchored_in blocks anchor

unfoldable pub drop_turn : ConversationActor → ConversationActor
drop_turn actor = record actor { open_turn = none }

-- What every close does at once: no stream is in flight, and a binding that its reader abandoned
-- is let go.
unfoldable pub release_stream : ConversationActor → ConversationActor
release_stream actor = record actor {
  streaming = false;
  provider_tx = if is_abandoned actor.turn_anchor then none else actor.provider_tx;
  turn_anchor = clear_anchor actor.turn_anchor;
  stream_stop = none;
}

-- The latch of an error, and the nudge of a turn that was owed meanwhile.
unfoldable pub after_close : CloseEdge → ConversationActor → ConversationActor
after_close edge actor = record actor {
  latched = is_errored_edge edge || actor.latched;
  recheck = if actor.owed_turn_deferred then actor.recheck + 1 else actor.recheck;
  owed_turn_deferred = false;
}

module _ {S : Type 0} (outside : Outside S) where
  open outside use {list_blocks, insert_status_block}

  -- The marker of a turn that ends owing an answer.
  unfoldable pub mark_end : List Block → ℕ → Option String → Act S
  mark_end blocks anchor none actor s = (actor, s)
  mark_end blocks anchor (some key) actor s =
      if is_id (unanswered_outcome_anchor blocks) anchor
      then try_call (insert_status_block (some anchor) key none) (λ _. stay) (λ _. stay) actor s
      else (actor, s)

  unfoldable pub settle_over : ℕ → CloseEdge → Bool → List Block → Act S
  settle_over anchor edge continuation_stop blocks actor s =
      if continuation_stop && turn_continuation_due actor blocks anchor
      then (actor, s)
      else mark_end blocks anchor (turn_end_key edge) (drop_turn actor) s

  unfoldable pub settle_unread : Bool → Act S
  settle_unread continuation_stop actor s =
      if continuation_stop then (actor, s) else (drop_turn actor, s)

  unfoldable pub settle_turn_identity : ℕ → CloseEdge → Bool → Act S
  settle_turn_identity anchor edge continuation_stop =
      try_call list_blocks (settle_over anchor edge continuation_stop)
        (λ _. settle_unread continuation_stop)

  unfoldable pub settle_open : Option ℕ → CloseEdge → Bool → Act S
  settle_open none edge continuation_stop = stay
  settle_open (some anchor) edge continuation_stop =
      settle_turn_identity anchor edge continuation_stop

  unfoldable pub close_dispatch : CloseEdge → Act S
  close_dispatch edge actor s =
      let continuation_stop =
        is_closed_edge edge
        && (not (is_abandoned actor.turn_anchor) && is_tool_use actor.stream_stop) in
      let settled = settle_open actor.open_turn edge continuation_stop (release_stream actor) s in
      (after_close edge settled.0, settled.1)
