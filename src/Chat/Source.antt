-- ===== src/Chat/Source.antt =====
-- The stream of a response: `decode_stream` of providers/chat/sse.rs, over what the transport
-- yields until it ends.
use ronna_core.Prelude.{String, Option, List, [], ◌∷◌, ◌++◌, map, str_eq, if◌then◌else◌}
use ronna_core.Block.{Value}
use ronna_core.Chat.Events.{OpaquePayload, StreamEvent}
use ronna_core.Chat.State.{SseState}
use ronna_core.Chat.Stream.{Step, finish_stream, parse_sse_chunk}

pub data SourceItem : Type 0 where
  event broken : String → SourceItem

-- `Result<StreamEvent, LlmError>`, of whose errors this stream yields `LlmError::Stream` alone.
pub data Decoded : Type 0 where
  ok : StreamEvent → Decoded
  stream_error : String → Decoded

module _ (thinking_payload : SseState → Option OpaquePayload × SseState) (decoder : Value → Step)
    (from_str : String → Option Value) where
  -- What the state makes of one event of the transport.
  unfoldable pub on_event : String → Step
  on_event text state =
      if str_eq text "[DONE]"
      then finish_stream thinking_payload state
      else parse_sse_chunk thinking_payload decoder from_str text state

  unfoldable pub decode_stream : List SourceItem → SseState → List Decoded
  decode_stream [] state = map ok (finish_stream thinking_payload state).0
  decode_stream (event text ∷ items) state =
      let r = on_event text state in map ok r.0 ++ decode_stream items r.1
  decode_stream (broken error ∷ items) state = stream_error error ∷ decode_stream items state
