-- ===== src/Tests/Chunks.antt =====
-- A stream that reasons, speaks, and makes two calls whose fragments come interleaved.
use ronna_core.Prelude.{
  String, Option, none, some, List, [], ◌∷◌, ◌≡◌, refl, false, scan, str_eq, if◌then◌else◌, All, ℕ,
  true,
}
use ronna_core.Block.{Value, Items, Members}
use ronna_core.Chat.Json.{index, as_u64}
use ronna_core.Chat.Events.{StreamEvent, StopReason, Usage}
use ronna_core.Chat.State.{SseState, sse_state_new, ingest_tool_call_fragment}
use ronna_core.Chat.Stream.{default_thinking_end_payload, decode_string_content}
use ronna_core.Chat.Source.{SourceItem, event, broken, ok, stream_error, decode_stream}
use ronna_core.Chat.Brackets.{brackets}
use ronna_core.Chat.Brackets.Whole.{events_of, decode_stream-brackets}
use ronna_core.Chat.Assembly.{arguments_at, take_fragment, ingest-arguments}
use ronna_core.Tests.Evaluated.{evaluated}

abbrev one : String → Value → Value
one key value = Value.obj (Members.member key value Members.end)

abbrev just : Value → Value
just value = Value.arr (Items.cons value Items.nil)

abbrev delta : Value → Value
delta value = one "choices" (just (one "delta" value))

abbrev fragment : ℕ → String → Value
fragment at arguments = Value.obj (
    Members.member "index" (Value.uint at)
      (Members.member "function" (one "arguments" (Value.str arguments)) Members.end))

abbrev calls : List Value
calls = fragment 0 "{a" ∷ fragment 1 "[" ∷ fragment 0 "}" ∷ fragment 1 "]" ∷ []

-- What the texts of the chunks stand for.
abbrev from_str : String → Option Value
from_str chunk =
    if str_eq chunk "think"
    then some (delta (one "reasoning" (Value.str "hm")))
    else if str_eq chunk "say"
    then some (delta (one "content" (Value.str "yes")))
    else if str_eq chunk "stop"
    then some (one "choices" (just (one "finish_reason" (Value.str "stop"))))
    else if str_eq chunk "count"
    then some (one "usage" (one "prompt_tokens" (Value.uint 7)))
    else none

abbrev items : List SourceItem
items =
    event "think"
    ∷ event "say"
    ∷ event "stop"
    ∷ broken "reset"
    ∷ event "count"
    ∷ event "[DONE]"
    ∷ []

decode_stream-brackets_example :
    brackets false (
      events_of (
        decode_stream default_thinking_end_payload
          (decode_string_content default_thinking_end_payload)
          from_str
          items
          sse_state_new))
    ≡ some false
decode_stream-brackets_example = decode_stream-brackets from_str items

abbrev counted : Usage
counted = record { input_tokens = 7; output_tokens = 0; reasoning_tokens = none }

decoded_items :
    decode_stream default_thinking_end_payload
      (decode_string_content default_thinking_end_payload)
      from_str
      items
      sse_state_new
    ≡ ok (StreamEvent.thinking_delta "hm")
      ∷ ok (StreamEvent.thinking_end none)
      ∷ ok (StreamEvent.text_delta "yes")
      ∷ stream_error "reset"
      ∷ ok (StreamEvent.message_end counted StopReason.end_turn)
      ∷ []
unfolding evaluated
decoded_items = refl

calls_indexed : All (λ fragment. (at : ℕ) × (as_u64 (index fragment "index") ≡ some at)) calls
unfolding evaluated
calls_indexed = ((0, refl), ((1, refl), ((0, refl), ((1, refl), tt))))

ingest-arguments_example :
    arguments_at 1
      (scan (λ fragment s. ingest_tool_call_fragment s fragment) sse_state_new calls).tool_calls
    ≡ scan (take_fragment 1) (arguments_at 1 sse_state_new.tool_calls) calls
ingest-arguments_example = ingest-arguments calls sse_state_new 1 calls_indexed

second_call_whole :
    arguments_at 1
      (scan (λ fragment s. ingest_tool_call_fragment s fragment) sse_state_new calls).tool_calls
    ≡ some "[]"
unfolding evaluated
second_call_whole = refl

abbrev held : SseState
held = record sse_state_new { reasoning_open = true; pending_stop = some StopReason.tool_use }
