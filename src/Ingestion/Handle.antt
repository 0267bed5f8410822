-- ===== src/Ingestion/Handle.antt =====
-- The end of a message, the tool calls, and what one response does: ingestion.rs, with
-- `insert_call` of tools/runner.rs for the library's own kinds.
use ronna_core.Prelude.{
  ℕ, String, Bool, true, false, not, ◌&&◌, Option, none, some, List, [], ◌∷◌, ◌++◌, if◌then◌else◌,
  str_eq, is_none, get_or, last?,
}
use ronna_core.Chat.Events.{StopReason, Usage, StreamEvent}
use ronna_core.Event.{CoreEvent, error_key, discards_output}
use ronna_core.Ingestion.Rows.{
  insert_streaming_tool_call_block, insert_tool_call_block, insert_status_block, update_row,
  append_input, get_streaming_tool_call_input, discard_streaming_block, insert_final_text_block,
  is_resolved,
}
use ronna_core.Ingestion.Reader.{
  ChannelReader, Step, OpenCall, TextChannel, TailFinalization, nothing_to_persist, fresh, attempt,
  emit, stay, turn_destination, set_trackers, discard_streaming_tails, discard_unterminated_tails,
  abandon_owed_empty_commit, emit_turn_terminal,
}
use ronna_core.Ingestion.Text.{
  text_block_start, text_delta, thinking_start, delta_thinking, thinking_summary_delta,
  thinking_end, content_final, text_final, finalize_streamed_text_tail, is_failed,
}

pub data ProviderResponse : Type 0 where
  event : StreamEvent → ProviderResponse
  restart done : ProviderResponse
  error : String → ProviderResponse

unfoldable pub is_end_turn : StopReason → Bool
is_end_turn StopReason.end_turn = true
is_end_turn _ = false

unfoldable pub is_committed : TextChannel → Bool
is_committed TextChannel.committed = true
is_committed _ = false

-- The tail at the end of a message.
unfoldable pub end_tail : StopReason → ChannelReader → TailFinalization × ChannelReader
end_tail stop reader =
    if discards_output stop
    then (nothing_to_persist, discard_streaming_tails reader)
    else if reader.trackers.content_final_received
    then (nothing_to_persist, reader)
    else finalize_streamed_text_tail reader

unfoldable pub owes : StopReason → TailFinalization → ChannelReader → Bool
owes stop tail reader =
    is_end_turn stop
    && (not (is_committed reader.trackers.text_channel)
        && (not (is_failed tail) && is_none reader.trackers.current_streaming_block))

unfoldable pub running_tools : StopReason → Step
running_tools StopReason.tool_use reader =
    emit (CoreEvent.stream_status reader.conversation_id "running_tools" none) reader
running_tools _ reader = reader

unfoldable pub record_error : StopReason → Option String → Step
record_error stop none reader = reader
record_error stop (some key) reader =
    let hold = λ (r : ChannelReader). record r { abnormal_stop = some stop } in
    attempt (insert_status_block (turn_destination reader) "error" (some key)) (λ _. hold) hold
      reader

unfoldable pub record_abnormal_stop : StopReason → Step
record_abnormal_stop stop = record_error stop (error_key stop)

unfoldable pub message_end : Usage → StopReason → Step
message_end usage stop reader =
    let ended = end_tail stop reader in
    let owing = record ended.1 { owes_empty_commit = owes stop ended.0 ended.1 } in
    let told = running_tools stop (
      emit
        (CoreEvent.stream_done owing.conversation_id (some usage) (some stop)
          (some owing.generation))
        owing) in
    let held = record_abnormal_stop stop told in
    record held { trackers = fresh; draining = true; drained_epoch = held.seam.epoch }

unfoldable pub tool_use_start : String → String → Step
tool_use_start id name reader =
    attempt (insert_streaming_tool_call_block (turn_destination reader) id name)
      (λ block_id r.
        let told =
          emit (CoreEvent.stream_status r.conversation_id "starting_tool_call" (some name)) r in
        record told {
          trackers = record told.trackers {
            open_streaming_tool_calls =
                told.trackers.open_streaming_tool_calls
                ++ (record { block_id = block_id; tool_call_id = id; name = name } ∷ []);
          };
        })
      stay reader

unfoldable pub append_call : String → Option OpenCall → Step
append_call json none reader = reader
append_call json (some call) reader =
    attempt (update_row call.block_id (append_input json)) (λ _. stay) stay reader

unfoldable pub tool_use_input_delta : String → Step
tool_use_input_delta json reader =
    append_call json (last? reader.trackers.open_streaming_tool_calls) reader

-- `insert_call`: the row, and the work of the inserted call unless the reader is latched. Any
-- failure after the row is the call's, as `?` makes it; `settled` is what the caller does then.
unfoldable pub drive_call : ℕ → Bool → ChannelReader → Bool × ChannelReader
drive_call block_id waits reader =
    if waits
    then (true, reader)
    else attempt (is_resolved reader.conversation_id block_id)
        (λ resolved r.
          if resolved
          then (true, r)
          else (true, emit (CoreEvent.tool_call_ready r.conversation_id block_id) r))
        (λ r. (false, r)) reader

unfoldable pub run_inserted : ℕ → Bool → ChannelReader → Bool × ChannelReader
run_inserted block_id waits reader =
    if reader.latched
    then (true, reader)
    else attempt (λ ledger. (tt, ledger)) (λ _. drive_call block_id waits) (λ r. (false, r)) reader

unfoldable pub settle_call : Bool × ChannelReader → ChannelReader
settle_call (inserted, reader) = if inserted then abandon_owed_empty_commit reader else reader

-- Nothing of a turn whose stop discards its output is taken in.
unfoldable pub discards_rest : Option StopReason → Bool
discards_rest none = false
discards_rest (some stop) = discards_output stop

unfoldable pub commit_owed_empty_turn : Step
commit_owed_empty_turn reader =
    let cleared = abandon_owed_empty_commit reader in
    if reader.owes_empty_commit && is_none reader.abnormal_stop
    then attempt (insert_final_text_block (turn_destination reader) "" none) (λ _. stay) stay
        cleared
    else cleared

-- The drain's end without its completion.
unfoldable pub drop_turn : Step
drop_turn reader = record (abandon_owed_empty_commit reader) {
  abnormal_stop = none;
  draining = false;
}

module _ (interactive : String → Bool) where
  -- Whether the call was inserted and driven.
  unfoldable pub insert_call : OpenCall → String → ChannelReader → Bool × ChannelReader
  insert_call call input reader =
      attempt
        (insert_tool_call_block (turn_destination reader) call.tool_call_id call.name input
          (interactive call.name) (some call.block_id))
        (λ block_id. run_inserted block_id (interactive call.name)) (λ r. (false, r)) reader

  unfoldable pub finalize_call : OpenCall → String → Step
  finalize_call call input reader =
      if str_eq input ""
      then attempt (discard_streaming_block call.block_id) (λ _. stay) stay reader
      else settle_call (insert_call call input reader)

  unfoldable pub end_call : OpenCall → Step
  end_call call =
      attempt (get_streaming_tool_call_input call.block_id)
        (λ input. finalize_call call (get_or input "")) (finalize_call call "")

  unfoldable pub end_calls : List OpenCall → Step
  end_calls [] reader = reader
  end_calls (call ∷ calls) reader = end_calls calls (end_call call reader)

  unfoldable pub tool_use_end : Step
  tool_use_end reader =
      end_calls reader.trackers.open_streaming_tool_calls
        (set_trackers (record reader.trackers { open_streaming_tool_calls = [] }) reader)

  unfoldable pub dispatch_event : StreamEvent → Step
  dispatch_event (StreamEvent.provider_status label) reader =
      emit (CoreEvent.stream_status reader.conversation_id "sending" (some label)) reader
  dispatch_event StreamEvent.connected reader =
      emit (CoreEvent.stream_status reader.conversation_id "waiting_for_response" none) reader
  dispatch_event StreamEvent.text_block_start reader = text_block_start reader
  dispatch_event (StreamEvent.text_delta more) reader = text_delta more reader
  dispatch_event StreamEvent.thinking_start reader = thinking_start reader
  dispatch_event (StreamEvent.thinking_delta more) reader = delta_thinking more reader
  dispatch_event (StreamEvent.thinking_summary_delta more) reader =
      thinking_summary_delta more reader
  dispatch_event (StreamEvent.thinking_end opaque) reader = thinking_end opaque reader
  dispatch_event (StreamEvent.content_final blocks) reader = content_final blocks reader
  dispatch_event (StreamEvent.text_final content) reader = text_final content reader
  dispatch_event (StreamEvent.message_end usage stop) reader = message_end usage stop reader
  dispatch_event (StreamEvent.tool_use_start id name) reader = tool_use_start id name reader
  dispatch_event (StreamEvent.tool_use_input_delta json) reader = tool_use_input_delta json reader
  dispatch_event StreamEvent.tool_use_end reader = tool_use_end reader

  unfoldable pub ingest : StreamEvent → Step
  ingest e reader = if discards_rest reader.abnormal_stop then reader else dispatch_event e reader

  unfoldable pub handle_response : ProviderResponse → Step
  handle_response (event e) reader = ingest e (record reader { mid_turn = true })
  handle_response restart reader =
      drop_turn (discard_streaming_tails (record reader { mid_turn = true }))
  handle_response (error message) reader =
      let told =
        emit (CoreEvent.stream_error reader.conversation_id message (some reader.generation))
          (record reader { mid_turn = true }) in
      drop_turn (record (discard_streaming_tails told) { mid_turn = false })
  handle_response done reader =
      let settled = (finalize_streamed_text_tail reader).1 in
      emit_turn_terminal (commit_owed_empty_turn (discard_unterminated_tails settled))
