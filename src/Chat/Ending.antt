-- ===== src/Chat/Ending.antt =====
-- The terminal drain: `finish_stream` of providers/chat/sse.rs.
use ronna_core.Prelude.{false, Option, none, some, [], ◌≡◌, refl}
use ronna_core.Chat.Events.{StopReason, Usage, no_usage}
use ronna_core.Chat.State.{SseState, drain_tool_calls, sort_calls, call_events}
use ronna_core.Chat.Stream.{
  andthen, default_thinking_end_payload, release, release_message_end, close_reasoning,
  finish_stream,
}
use ronna_core.Chat.Brackets.{close-shut}

-- Nothing is held back: no reasoning is open, no end of turn waits and no call is in flight.
IsDrained : SseState → Type 0
IsDrained state =
    (state.reasoning_open ≡ false) × (state.pending_stop ≡ none) × (state.tool_calls ≡ [])

release-IsDrained :
    (usage : Usage) (pending : Option StopReason) (state : SseState)
    → state.reasoning_open ≡ false
    → state.pending_stop ≡ pending
    → IsDrained (drain_tool_calls (release usage pending state).1).1
unfolding release drain_tool_calls IsDrained
release-IsDrained usage none state shut own = (shut, own, refl)
release-IsDrained usage (some stop) state shut own = (shut, refl, refl)

finish_stream-IsDrained :
    (state : SseState) → IsDrained (finish_stream default_thinking_end_payload state).1
unfolding finish_stream andthen release_message_end
finish_stream-IsDrained state =
    let closed = (close_reasoning default_thinking_end_payload state).1 in
    release-IsDrained no_usage closed.pending_stop closed (close-shut state) refl

IsDrained-finish_stream :
    (state : SseState) → IsDrained state → (finish_stream default_thinking_end_payload state).0 ≡ []
unfolding finish_stream andthen release_message_end release drain_tool_calls close_reasoning
    sort_calls call_events IsDrained
IsDrained-finish_stream state (shut, ended, none_left) = rw (shut, ended, none_left) refl

-- With the default payload, the terminal drain releases all that the stream held back, so that a
-- second one adds no event.
finish_stream-inert :
    (state : SseState)
    → (finish_stream default_thinking_end_payload
        (finish_stream default_thinking_end_payload state).1).0
      ≡ []
finish_stream-inert state =
    IsDrained-finish_stream (finish_stream default_thinking_end_payload state).1
      (finish_stream-IsDrained state)
