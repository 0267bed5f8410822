-- ===== src/Ingestion/Quiet/Text.antt =====
-- The handlers of text and reasoning are quiet.
use ronna_core.Prelude.{
  if_lem, ℕ, String, ◌≡◌, refl, ◌∙◌, Bool, true, false, not, ◌&&◌, ◌||◌, Option, none, some, List,
  [], ◌∷◌, str_eq,
}
use ronna_core.Chat.Events.{OpaquePayload, FinalContentBlock}
use ronna_core.Ingestion.Quiet.{
  view, IsQuiet, emit-view, attempt-view, stay-IsQuiet, with_thinking-IsQuiet,
}
use ronna_core.Ingestion.Reader.{ChannelReader, Step, TextChannel, TailFinalization, attempt_lem}
use ronna_core.Ingestion.Text.{
  track_text, track_thinking, set_channel, opened, text_block_start, append_to_text,
  with_text_block, respond, text_delta, thinking_start, delta_thinking, thinking_summary_delta,
  finalized, close_channels, speaks, end_thinking, thinking_end, commit_text, finalize_read,
  finalize_tail, finalize_streamed_text_tail, take_tail, final_text, final_thinking, final_block,
  restate, content_final, text_final,
}

-- The reader that an answer comes with.
abbrev IsQuietAnswer : {A : Type 0} → (ChannelReader → A × ChannelReader) → Type 0
IsQuietAnswer f = (reader : ChannelReader) → view (f reader).1 ≡ view reader

opened-IsQuiet : IsQuiet opened
unfolding opened
opened-IsQuiet reader = emit-view _ reader refl

pub text_block_start-IsQuiet : IsQuiet text_block_start
unfolding text_block_start track_text
text_block_start-IsQuiet reader =
    attempt-view _ _ _ reader (λ id r. opened-IsQuiet (track_text (some id) r)) stay-IsQuiet

pub thinking_start-IsQuiet : IsQuiet thinking_start
unfolding thinking_start track_thinking
thinking_start-IsQuiet reader =
    attempt-view _ _ _ reader (λ id r. opened-IsQuiet (track_thinking (some id) r)) stay-IsQuiet

respond-IsQuiet : (bare : Bool) (channel : TextChannel) → IsQuiet (respond bare channel)
unfolding respond set_channel
respond-IsQuiet false TextChannel.silent reader = emit-view _ _ refl
respond-IsQuiet false TextChannel.responding reader = refl
respond-IsQuiet false TextChannel.committed reader = refl
respond-IsQuiet true channel reader = refl

append_to_text-IsQuiet : (more : String) (id : ℕ) → IsQuiet (append_to_text more id)
unfolding append_to_text
append_to_text-IsQuiet more id reader = attempt-view _ _ _ reader (λ _. stay-IsQuiet) stay-IsQuiet

with_text_block-IsQuiet :
    (next : ℕ → Step) (o : Option ℕ)
    → ((id : ℕ) → IsQuiet (next id))
    → IsQuiet (with_text_block next o)
unfolding with_text_block track_text
with_text_block-IsQuiet next none q reader = attempt-view _ _ _ reader (λ id r. q id _) stay-IsQuiet
with_text_block-IsQuiet next (some id) q reader = q id reader

pub text_delta-IsQuiet : (more : String) → IsQuiet (text_delta more)
unfolding text_delta
text_delta-IsQuiet more reader =
    let cued = respond (str_eq more "") reader.trackers.text_channel reader in
    with_text_block-IsQuiet (append_to_text more) cued.trackers.current_streaming_block
      (append_to_text-IsQuiet more) cued
    ∙ respond-IsQuiet (str_eq more "") reader.trackers.text_channel reader

pub delta_thinking-IsQuiet : (more : String) → IsQuiet (delta_thinking more)
unfolding delta_thinking
delta_thinking-IsQuiet more =
    with_thinking-IsQuiet _ (λ id r. attempt-view _ _ _ r (λ _. stay-IsQuiet) stay-IsQuiet)

pub summary-IsQuiet : (more : String) → IsQuiet (thinking_summary_delta more)
unfolding thinking_summary_delta
summary-IsQuiet more =
    with_thinking-IsQuiet _ (λ id r. attempt-view _ _ _ r (λ _. stay-IsQuiet) stay-IsQuiet)

close_channels-IsQuiet :
    (opaque : Option OpaquePayload) (id : ℕ) (o : Option (String × Option String))
    → IsQuiet (close_channels opaque id o)
unfolding close_channels finalized
close_channels-IsQuiet opaque id none reader =
    attempt-view _ _ _ reader (λ _. stay-IsQuiet) stay-IsQuiet
close_channels-IsQuiet opaque id (some (content, summary)) reader =
    if_lem (λ r. view r ≡ view reader) (not (str_eq content "") || speaks summary)
      (attempt-view _ _ _ reader (λ _ r. refl) stay-IsQuiet)
      (attempt-view _ _ _ reader (λ _. stay-IsQuiet) stay-IsQuiet)

end_thinking-IsQuiet :
    (opaque : Option OpaquePayload) (o : Option ℕ) → IsQuiet (end_thinking opaque o)
unfolding end_thinking track_thinking
end_thinking-IsQuiet opaque none reader = refl
end_thinking-IsQuiet opaque (some id) reader =
    attempt-view _ _ _ (track_thinking none reader) (close_channels-IsQuiet opaque id)
      (close_channels-IsQuiet opaque id none)

pub thinking_end-IsQuiet : (opaque : Option OpaquePayload) → IsQuiet (thinking_end opaque)
unfolding thinking_end
thinking_end-IsQuiet opaque reader =
    end_thinking-IsQuiet opaque reader.trackers.current_thinking_block reader

commit_text-IsQuiet : (content : String) (o : Option ℕ) → IsQuietAnswer (commit_text content o)
unfolding commit_text set_channel
commit_text-IsQuiet content o reader =
    attempt_lem (λ (b : TailFinalization × ChannelReader). view b.1 ≡ view reader) _ _ _ reader
      (λ faults. refl) (λ faults. refl)

finalize_read-IsQuiet : (id : ℕ) (o : Option String) → IsQuietAnswer (finalize_read id o)
unfolding finalize_read
finalize_read-IsQuiet id none reader = refl
finalize_read-IsQuiet id (some content) reader = commit_text-IsQuiet content (some id) reader

finalize_tail-IsQuiet : (o : Option ℕ) → IsQuietAnswer (finalize_tail o)
unfolding finalize_tail track_text
finalize_tail-IsQuiet none reader = refl
finalize_tail-IsQuiet (some id) reader =
    attempt_lem (λ (b : TailFinalization × ChannelReader). view b.1 ≡ view reader) _ _ _
      (track_text none reader) (λ faults. finalize_read-IsQuiet id _ _) (λ faults. refl)

pub finalize-IsQuiet : IsQuietAnswer finalize_streamed_text_tail
unfolding finalize_streamed_text_tail
finalize-IsQuiet reader = finalize_tail-IsQuiet reader.trackers.current_streaming_block reader

final_text-IsQuiet : (content : String) → IsQuietAnswer (final_text content)
unfolding final_text take_tail track_text
final_text-IsQuiet content reader =
    if_lem (λ (r : TailFinalization × ChannelReader). view r.1 ≡ view reader) (str_eq content "")
      (finalize-IsQuiet reader)
      (commit_text-IsQuiet content reader.trackers.current_streaming_block (track_text none reader))

final_thinking-IsQuiet :
    (content : String) (opaque : Option OpaquePayload)
    → IsQuietAnswer (final_thinking content opaque)
unfolding final_thinking track_thinking
final_thinking-IsQuiet content opaque reader =
    if_lem (λ (r : TailFinalization × ChannelReader). view r.1 ≡ view reader)
      reader.trackers.thinking_finalized refl
      (attempt_lem (λ (b : TailFinalization × ChannelReader). view b.1 ≡ view reader) _ _ _
        (track_thinking none reader) (λ faults. refl) (λ faults. refl))

final_block-IsQuiet : (block : FinalContentBlock) → IsQuietAnswer (final_block block)
unfolding final_block
final_block-IsQuiet (FinalContentBlock.text content) = final_text-IsQuiet content
final_block-IsQuiet (FinalContentBlock.thinking content) = final_thinking-IsQuiet content none
final_block-IsQuiet (FinalContentBlock.reasoning content opaque) =
    final_thinking-IsQuiet content opaque

restate-IsQuiet :
    (blocks : List FinalContentBlock) (any_persisted any_failed : Bool)
    → IsQuiet (restate blocks any_persisted any_failed)
unfolding restate
restate-IsQuiet [] any_persisted any_failed reader =
    if_lem (λ r. view r ≡ view reader) (any_persisted && not any_failed) refl refl
restate-IsQuiet (block ∷ blocks) any_persisted any_failed reader =
    restate-IsQuiet blocks _ _ (final_block block reader).1 ∙ final_block-IsQuiet block reader

pub text_final-IsQuiet : (content : String) → IsQuiet (text_final content)
unfolding text_final
text_final-IsQuiet content reader =
    if_lem (λ r. view r ≡ view reader) reader.trackers.content_final_received refl
      (final_text-IsQuiet content reader)

pub content_final-IsQuiet : (blocks : List FinalContentBlock) → IsQuiet (content_final blocks)
unfolding content_final
content_final-IsQuiet blocks = restate-IsQuiet blocks false false
