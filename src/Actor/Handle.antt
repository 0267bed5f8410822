-- ===== src/Actor/Handle.antt =====
-- What the actor does with an event and with a signal of its scheduler: `handle` and `run` of
-- actor.rs.
use ronna_core.Prelude.{
  ℕ, String, Bool, true, false, Option, none, some, List, [], ◌∷◌, ◌++◌, ◌==◌, if◌then◌else◌,
}
use ronna_core.Chat.Events.{StopReason}
use ronna_core.Event.{CoreEvent, InputBlock}
use ronna_core.Agency.Records.{ApprovalChoice}
use ronna_core.Agency.Interface.{RuntimeKind}
use ronna_core.Render.{Projection}
use ronna_core.Ingestion.Reader.{mark_abandoned}
use ronna_core.Actor.State.{Outside, ConversationActor, ProviderRequest, Act, stay, try_call, tell}
use ronna_core.Actor.Close.{CloseEdge, close_dispatch}
use ronna_core.Actor.Dispatch.{handle_blocks_ready}

pub data SchedulerSignal : Type 0 where
  owes_turn conversation_gone : SchedulerSignal

-- What the actor's task selects next; and what the reader of a generation's channel does to the
-- seam that the two share, when it gives an epoch's turn up.
pub data Signal : Type 0 where
  mail : CoreEvent → Signal
  scheduled : SchedulerSignal → Signal
  given_up : ℕ → ℕ → Signal

unfoldable pub unlatch : ConversationActor → ConversationActor
unlatch actor = record actor { latched = false }

unfoldable pub owns_stream_signal : Option ℕ → ConversationActor → Bool
owns_stream_signal none actor = true
owns_stream_signal (some generation) actor = generation == actor.stream_generation

tell_changed : ℕ → List ℕ → List CoreEvent
tell_changed conversation [] = []
tell_changed conversation (block_id ∷ ids) =
    CoreEvent.blocks_changed conversation block_id ∷ tell_changed conversation ids

-- The seam of a bind that is over is not the actor's any more.
unfoldable pub mark_seam : ℕ → ℕ → ConversationActor → ConversationActor
mark_seam generation epoch actor =
    if generation == actor.stream_generation
    then record actor { turn_anchor = mark_abandoned epoch actor.turn_anchor }
    else actor

module _ {S : Type 0} (outside : Outside S) where
  open outside use {
    error_text, promote_draft, insert_user_blocks, insert_call, submit_approval,
    delete_streaming_blocks, insert_status_block, send,
  }

  unfoldable pub refuse_input : String → Act S
  refuse_input error actor s = (tell (CoreEvent.stream_error actor.id error none) actor, s)

  unfoldable pub handle_draft_promoted : Act S
  handle_draft_promoted =
      try_call promote_draft (λ _ a s. (unlatch a, s)) (λ e. refuse_input (error_text e))

  unfoldable pub handle_blocks_appended : List InputBlock → Act S
  unfolding tell_changed
  handle_blocks_appended blocks =
      try_call (insert_user_blocks blocks)
        (λ ids a s. (unlatch (record a { emitted = a.emitted ++ tell_changed a.id ids }), s))
        (λ e. refuse_input (error_text e))

  unfoldable pub handle_tool_call_received : String → String → String → Act S
  handle_tool_call_received tool_call_id name input actor s =
      try_call (insert_call actor.latched tool_call_id name input) (λ _. stay) (λ _. stay) actor s

  unfoldable pub handle_approval_submitted :
      ℕ → ApprovalChoice → Option String → Option String → Act S
  handle_approval_submitted request decision system_reason user_reason =
      try_call (submit_approval request decision system_reason user_reason) (λ _. stay) (λ _. stay)

  -- The provider, if one is bound, is told and let go.
  unfoldable pub interrupt_provider : Option ℕ → ConversationActor → S → S
  interrupt_provider none actor s = s
  interrupt_provider (some tx) actor s = (send tx ProviderRequest.interrupt s).1

  unfoldable pub handle_interrupt : Act S
  handle_interrupt actor s =
      let closed = close_dispatch outside CloseEdge.teardown (record actor { latched = true }) s in
      let told = interrupt_provider closed.0.provider_tx closed.0 closed.1 in
      try_call delete_streaming_blocks
        (λ _.
          try_call (insert_status_block actor.open_turn "interrupted" none) (λ _. stay) (λ _. stay))
        (λ _.
          try_call (insert_status_block actor.open_turn "interrupted" none) (λ _. stay) (λ _. stay))
        (record closed.0 { provider_tx = none }) told

  unfoldable pub handle_stream_done : Option StopReason → Act S
  handle_stream_done stop_reason actor s = (record actor { stream_stop = stop_reason }, s)

  unfoldable pub owned : Option ℕ → Act S → Act S
  owned generation act actor s =
      if owns_stream_signal generation actor then act actor s else (actor, s)

  unfoldable pub handle : CoreEvent → Act S
  handle (CoreEvent.draft_promoted c) = handle_draft_promoted
  handle (CoreEvent.blocks_appended c blocks) = handle_blocks_appended blocks
  handle (CoreEvent.tool_call_received c id name input) = handle_tool_call_received id name input
  handle (CoreEvent.approval_submitted c request decision system_reason user_reason) =
      handle_approval_submitted request decision system_reason user_reason
  handle (CoreEvent.interrupt_requested c) = handle_interrupt
  handle (CoreEvent.unlatch_requested c) = λ actor s. (unlatch actor, s)
  handle CoreEvent.unlatch_all = λ actor s. (unlatch actor, s)
  handle (CoreEvent.stream_done c usage stop_reason generation) =
      owned generation (handle_stream_done stop_reason)
  handle (CoreEvent.stream_error c error generation) =
      owned generation (close_dispatch outside CloseEdge.errored)
  handle (CoreEvent.stream_closed c generation) =
      owned generation (close_dispatch outside CloseEdge.closed)
  handle _ = stay

module _ {K S : Type 0} (kind : RuntimeKind K S) (heads_the_ledger : K → Bool)
    (projection : Projection K) (outside : Outside S) where
  -- The actor's loop over its signals; it ends with the conversation.
  unfoldable pub run : List Signal → Act S
  run [] actor s = (actor, s)
  run (mail event ∷ signals) actor s =
      let next = handle outside event actor s in run signals next.0 next.1
  run (scheduled SchedulerSignal.owes_turn ∷ signals) actor s =
      let next = handle_blocks_ready kind heads_the_ledger projection outside actor s in
      run signals next.0 next.1
  run (given_up generation epoch ∷ signals) actor s =
      run signals (mark_seam generation epoch actor) s
  run (scheduled SchedulerSignal.conversation_gone ∷ signals) actor s = (actor, s)
