-- ===== src/Ingestion/Text.antt =====
-- The text and the reasoning of a turn: the handlers of ingestion.rs up to `text_final`.
use ronna_core.Prelude.{
  ℕ, String, Bool, true, false, not, ◌&&◌, ◌||◌, Option, none, some, List, [], ◌∷◌, if◌then◌else◌,
  str_eq,
}
use ronna_core.Chat.Events.{OpaquePayload, FinalContentBlock}
use ronna_core.Event.{CoreEvent}
use ronna_core.Ingestion.Rows.{
  insert_streaming_block, insert_streaming_thinking_block, insert_final_text_block,
  insert_thinking_block_with_content, update_row, append_text, append_thinking, append_summary,
  get_block_content, get_thinking_block_channels, discard_streaming_block,
}
use ronna_core.Ingestion.Reader.{
  ChannelReader, Step, TextChannel, TailFinalization, persisted, nothing_to_persist, failed,
  attempt, emit, stay, turn_destination, with_thinking_block,
}

unfoldable pub track_text : Option ℕ → Step
track_text id reader = record reader {
  trackers = record reader.trackers { current_streaming_block = id };
}

unfoldable pub track_thinking : Option ℕ → Step
track_thinking id reader = record reader {
  trackers = record reader.trackers { current_thinking_block = id };
}

unfoldable pub set_channel : TextChannel → Step
set_channel channel reader = record reader {
  trackers = record reader.trackers { text_channel = channel };
}

-- The status that a block has opened.
unfoldable pub opened : Step
opened reader = emit (CoreEvent.stream_status reader.conversation_id "" none) reader

unfoldable pub text_block_start : Step
text_block_start reader =
    attempt (insert_streaming_block (turn_destination reader))
      (λ id r. opened (track_text (some id) r)) stay reader

unfoldable pub append_to_text : String → ℕ → Step
append_to_text more id = attempt (update_row id (append_text more)) (λ _. stay) stay

unfoldable pub with_text_block : (ℕ → Step) → Option ℕ → Step
with_text_block next (some id) reader = next id reader
with_text_block next none reader =
    attempt (insert_streaming_block (turn_destination reader))
      (λ id r. next id (track_text (some id) r)) stay reader

-- The `responding` status, once, at the first text that is not empty.
unfoldable pub respond : Bool → TextChannel → Step
respond false TextChannel.silent reader =
    emit (CoreEvent.stream_status reader.conversation_id "responding" none)
      (set_channel TextChannel.responding reader)
respond _ _ reader = reader

unfoldable pub text_delta : String → Step
text_delta more reader =
    let cued = respond (str_eq more "") reader.trackers.text_channel reader in
    with_text_block (append_to_text more) cued.trackers.current_streaming_block cued

unfoldable pub thinking_start : Step
thinking_start reader =
    attempt (insert_streaming_thinking_block (turn_destination reader))
      (λ id r. opened (track_thinking (some id) r)) stay reader

unfoldable pub delta_thinking : String → Step
delta_thinking more =
    with_thinking_block (λ id. attempt (update_row id (append_thinking more)) (λ _. stay) stay)

unfoldable pub thinking_summary_delta : String → Step
thinking_summary_delta more =
    with_thinking_block (λ id. attempt (update_row id (append_summary more)) (λ _. stay) stay)

unfoldable pub finalized : Step
finalized reader = record reader { trackers = record reader.trackers { thinking_finalized = true } }

unfoldable pub nonempty_text : Option String → Option String
nonempty_text none = none
nonempty_text (some s) = if str_eq s "" then none else some s

unfoldable pub speaks : Option String → Bool
speaks none = false
speaks (some s) = not (str_eq s "")

-- What the end of reasoning does with the channels of its row: either one makes the final row, and
-- an empty row, or none, is discarded.
unfoldable pub close_channels : Option OpaquePayload → ℕ → Option (String × Option String) → Step
close_channels opaque id none reader = attempt (discard_streaming_block id) (λ _. stay) stay reader
close_channels opaque id (some (content, summary)) reader =
    if not (str_eq content "") || speaks summary
    then attempt
        (insert_thinking_block_with_content (turn_destination reader) content
          (nonempty_text summary) opaque (some id))
        (λ _. finalized) stay reader
    else attempt (discard_streaming_block id) (λ _. stay) stay reader

unfoldable pub end_thinking : Option OpaquePayload → Option ℕ → Step
end_thinking opaque none reader = reader
end_thinking opaque (some id) reader =
    attempt (get_thinking_block_channels id) (close_channels opaque id)
      (close_channels opaque id none) (track_thinking none reader)

unfoldable pub thinking_end : Option OpaquePayload → Step
thinking_end opaque reader = end_thinking opaque reader.trackers.current_thinking_block reader

-- A final text, which replaces the tail that it is given: the insert, and how it went.
unfoldable pub commit_text : String → Option ℕ → ChannelReader → TailFinalization × ChannelReader
commit_text content replaces reader =
    attempt (insert_final_text_block (turn_destination reader) content replaces)
      (λ _ r. (persisted, set_channel TextChannel.committed r)) (λ r. (failed, r)) reader

unfoldable pub finalize_read : ℕ → Option String → ChannelReader → TailFinalization × ChannelReader
finalize_read id none reader = (nothing_to_persist, reader)
finalize_read id (some content) reader = commit_text content (some id) reader

unfoldable pub finalize_tail : Option ℕ → ChannelReader → TailFinalization × ChannelReader
finalize_tail none reader = (nothing_to_persist, reader)
finalize_tail (some id) reader =
    attempt (get_block_content id) (finalize_read id) (λ r. (failed, r)) (track_text none reader)

unfoldable pub finalize_streamed_text_tail : ChannelReader → TailFinalization × ChannelReader
finalize_streamed_text_tail reader = finalize_tail reader.trackers.current_streaming_block reader

-- A final text that takes over the open tail.
unfoldable pub take_tail : String → ChannelReader → TailFinalization × ChannelReader
take_tail content reader =
    commit_text content reader.trackers.current_streaming_block (track_text none reader)

unfoldable pub final_text : String → ChannelReader → TailFinalization × ChannelReader
final_text content reader =
    if str_eq content "" then finalize_streamed_text_tail reader else take_tail content reader

-- A restated reasoning, unless the stream's own is in the ledger.
unfoldable pub final_thinking :
    String → Option OpaquePayload → ChannelReader → TailFinalization × ChannelReader
final_thinking content opaque reader =
    if reader.trackers.thinking_finalized
    then (persisted, reader)
    else attempt
        (insert_thinking_block_with_content (turn_destination reader) content none opaque
          reader.trackers.current_thinking_block)
        (λ _ r. (persisted, r)) (λ r. (failed, r)) (track_thinking none reader)

unfoldable pub final_block : FinalContentBlock → ChannelReader → TailFinalization × ChannelReader
final_block (FinalContentBlock.text content) = final_text content
final_block (FinalContentBlock.thinking content) = final_thinking content none
final_block (FinalContentBlock.reasoning content opaque) = final_thinking content opaque

unfoldable pub is_persisted : TailFinalization → Bool
is_persisted persisted = true
is_persisted _ = false

unfoldable pub is_failed : TailFinalization → Bool
is_failed failed = true
is_failed _ = false

-- The blocks of a restatement; whether any was persisted and any failed.
unfoldable pub restate : List FinalContentBlock → Bool → Bool → Step
restate [] any_persisted any_failed reader =
    if any_persisted && not any_failed
    then record reader { trackers = record reader.trackers { content_final_received = true } }
    else reader
restate (block ∷ blocks) any_persisted any_failed reader =
    let done = final_block block reader in
    restate blocks (any_persisted || is_persisted done.0) (any_failed || is_failed done.0) done.1

unfoldable pub content_final : List FinalContentBlock → Step
content_final blocks = restate blocks false false

unfoldable pub text_final : String → Step
text_final content reader =
    if reader.trackers.content_final_received then reader else (final_text content reader).1
