-- ===== src/Ingestion/Quiet/Calls.antt =====
-- The end of a message and the handlers of tool calls are quiet, and with them every event.
use ronna_core.Prelude.{
  if_lem, ℕ, String, ◌≡◌, refl, ◌∙◌, Bool, true, false, Option, none, some, List, [], ◌∷◌, str_eq,
  last?,
}
use ronna_core.Chat.Events.{StopReason, StreamEvent, Usage}
use ronna_core.Event.{CoreEvent, error_key, discards_output}
use ronna_core.Ingestion.Reader.{
  ChannelReader, OpenCall, TailFinalization, attempt_lem, emit, set_trackers,
  abandon_owed_empty_commit,
}
use ronna_core.Ingestion.Handle.{
  end_tail, running_tools, record_error, record_abnormal_stop, message_end, tool_use_start,
  append_call, tool_use_input_delta, drive_call, run_inserted, insert_call, settle_call,
  finalize_call, end_call, end_calls, tool_use_end, dispatch_event, ingest, discards_rest, owes,
}
use ronna_core.Ingestion.Quiet.{
  view, IsQuiet, emit-view, attempt-view, stay-IsQuiet, discard-IsQuiet,
}
use ronna_core.Ingestion.Quiet.Text.{
  finalize-IsQuiet, text_block_start-IsQuiet, text_delta-IsQuiet, thinking_start-IsQuiet,
  delta_thinking-IsQuiet, summary-IsQuiet, thinking_end-IsQuiet, content_final-IsQuiet,
  text_final-IsQuiet,
}

end_tail-IsQuiet :
    (stop : StopReason) (reader : ChannelReader) → view (end_tail stop reader).1 ≡ view reader
unfolding end_tail
end_tail-IsQuiet stop reader =
    if_lem (λ (r : TailFinalization × ChannelReader). view r.1 ≡ view reader) (discards_output stop)
      (discard-IsQuiet reader)
      (if_lem (λ (r : TailFinalization × ChannelReader). view r.1 ≡ view reader)
        reader.trackers.content_final_received refl (finalize-IsQuiet reader))

running_tools-IsQuiet : (stop : StopReason) → IsQuiet (running_tools stop)
unfolding running_tools
running_tools-IsQuiet StopReason.tool_use reader = emit-view _ reader refl
running_tools-IsQuiet StopReason.end_turn reader = refl
running_tools-IsQuiet StopReason.max_tokens reader = refl
running_tools-IsQuiet StopReason.content_filter reader = refl
running_tools-IsQuiet StopReason.refusal reader = refl

record_error-IsQuiet : (stop : StopReason) (o : Option String) → IsQuiet (record_error stop o)
unfolding record_error
record_error-IsQuiet stop none reader = refl
record_error-IsQuiet stop (some key) reader = attempt-view _ _ _ reader (λ _ r. refl) (λ r. refl)

message_end-IsQuiet : (usage : Usage) (stop : StopReason) → IsQuiet (message_end usage stop)
unfolding message_end record_abnormal_stop
message_end-IsQuiet usage stop reader =
    let ended = end_tail stop reader in
    let owing = record ended.1 { owes_empty_commit = owes stop ended.0 ended.1 } in
    let told =
      emit
        (CoreEvent.stream_done owing.conversation_id (some usage) (some stop)
          (some owing.generation))
        owing in
    record_error-IsQuiet stop (error_key stop) (running_tools stop told)
    ∙ running_tools-IsQuiet stop told
    ∙ emit-view _ owing refl
    ∙ end_tail-IsQuiet stop reader

tool_use_start-IsQuiet : (id name : String) → IsQuiet (tool_use_start id name)
unfolding tool_use_start
tool_use_start-IsQuiet id name reader =
    attempt-view _ _ _ reader (λ block_id r. emit-view _ r refl) stay-IsQuiet

append_call-IsQuiet : (json : String) (o : Option OpenCall) → IsQuiet (append_call json o)
unfolding append_call
append_call-IsQuiet json none reader = refl
append_call-IsQuiet json (some call) reader =
    attempt-view _ _ _ reader (λ _. stay-IsQuiet) stay-IsQuiet

delta-IsQuiet : (json : String) → IsQuiet (tool_use_input_delta json)
unfolding tool_use_input_delta
delta-IsQuiet json reader =
    append_call-IsQuiet json (last? reader.trackers.open_streaming_tool_calls) reader

abbrev Answers : ChannelReader → Bool × ChannelReader → Type 0
Answers reader answer = view answer.1 ≡ view reader

drive_call-Answers :
    (block_id : ℕ) (waits : Bool) (reader : ChannelReader)
    → Answers reader (drive_call block_id waits reader)
unfolding drive_call
drive_call-Answers block_id waits reader = if_lem (Answers reader) waits refl (
    attempt_lem (Answers reader) _ _ _ reader
      (λ faults. if_lem (Answers reader) _ refl (emit-view _ _ refl)) (λ faults. refl))

run_inserted-Answers :
    (block_id : ℕ) (waits : Bool) (reader : ChannelReader)
    → Answers reader (run_inserted block_id waits reader)
unfolding run_inserted
run_inserted-Answers block_id waits reader = if_lem (Answers reader) reader.latched refl (
    attempt_lem (Answers reader) _ _ _ reader (λ faults. drive_call-Answers block_id waits _)
      (λ faults. refl))

settle_call-view :
    (reader : ChannelReader) (answer : Bool × ChannelReader)
    → Answers reader answer
    → view (settle_call answer) ≡ view reader
unfolding settle_call abandon_owed_empty_commit
settle_call-view reader (true, r) h = h
settle_call-view reader (false, r) h = h

module _ (interactive : String → Bool) where
  insert_call-Answers :
      (call : OpenCall) (input : String) (reader : ChannelReader)
      → Answers reader (insert_call interactive call input reader)
  unfolding insert_call
  insert_call-Answers call input reader =
      attempt_lem (Answers reader) _ _ _ reader
        (λ faults. run_inserted-Answers _ (interactive call.name) _) (λ faults. refl)

  finalize_call-IsQuiet :
      (call : OpenCall) (input : String) → IsQuiet (finalize_call interactive call input)
  unfolding finalize_call
  finalize_call-IsQuiet call input reader =
      if_lem (λ r. view r ≡ view reader) (str_eq input "")
        (attempt-view _ _ _ reader (λ _. stay-IsQuiet) stay-IsQuiet)
        (settle_call-view reader (insert_call interactive call input reader)
          (insert_call-Answers call input reader))

  end_call-IsQuiet : (call : OpenCall) → IsQuiet (end_call interactive call)
  unfolding end_call
  end_call-IsQuiet call reader =
      attempt-view _ _ _ reader (λ input. finalize_call-IsQuiet call _)
        (finalize_call-IsQuiet call "")

  end_calls-IsQuiet : (calls : List OpenCall) → IsQuiet (end_calls interactive calls)
  unfolding end_calls
  end_calls-IsQuiet [] reader = refl
  end_calls-IsQuiet (call ∷ calls) reader =
      end_calls-IsQuiet calls (end_call interactive call reader) ∙ end_call-IsQuiet call reader

  tool_use_end-IsQuiet : IsQuiet (tool_use_end interactive)
  unfolding tool_use_end set_trackers
  tool_use_end-IsQuiet reader = end_calls-IsQuiet reader.trackers.open_streaming_tool_calls _

  dispatch_event-IsQuiet : (e : StreamEvent) → IsQuiet (dispatch_event interactive e)
  unfolding dispatch_event
  dispatch_event-IsQuiet (StreamEvent.provider_status label) reader = emit-view _ reader refl
  dispatch_event-IsQuiet StreamEvent.connected reader = emit-view _ reader refl
  dispatch_event-IsQuiet StreamEvent.text_block_start reader = text_block_start-IsQuiet reader
  dispatch_event-IsQuiet (StreamEvent.text_delta more) reader = text_delta-IsQuiet more reader
  dispatch_event-IsQuiet StreamEvent.thinking_start reader = thinking_start-IsQuiet reader
  dispatch_event-IsQuiet (StreamEvent.thinking_delta more) reader =
      delta_thinking-IsQuiet more reader
  dispatch_event-IsQuiet (StreamEvent.thinking_summary_delta more) reader =
      summary-IsQuiet more reader
  dispatch_event-IsQuiet (StreamEvent.thinking_end opaque) reader =
      thinking_end-IsQuiet opaque reader
  dispatch_event-IsQuiet (StreamEvent.content_final blocks) reader =
      content_final-IsQuiet blocks reader
  dispatch_event-IsQuiet (StreamEvent.text_final content) reader = text_final-IsQuiet content reader
  dispatch_event-IsQuiet (StreamEvent.message_end usage stop) reader =
      message_end-IsQuiet usage stop reader
  dispatch_event-IsQuiet (StreamEvent.tool_use_start id name) reader =
      tool_use_start-IsQuiet id name reader
  dispatch_event-IsQuiet (StreamEvent.tool_use_input_delta json) reader = delta-IsQuiet json reader
  dispatch_event-IsQuiet StreamEvent.tool_use_end reader = tool_use_end-IsQuiet reader

  pub ingest-IsQuiet : (e : StreamEvent) → IsQuiet (ingest interactive e)
  unfolding ingest
  ingest-IsQuiet e reader =
      if_lem (λ r. view r ≡ view reader) (discards_rest reader.abnormal_stop) refl
        (dispatch_event-IsQuiet e reader)
