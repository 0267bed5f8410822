-- ===== src/Chat/Stream.antt =====
-- The steps of decoding a stream, and the stream: providers/chat/sse.rs.
--
-- The text of a chunk is read by serde_json, a parameter, as are the vendor's two seams. A list of
-- events is what a step adds to `events`; the errors of the transport are the stream's alone.
use ronna_core.Prelude.{
  String, Bool, true, false, Option, none, some, List, [], ◌∷◌, ◌++◌, ◌==◌, not, str_eq, scan,
  if◌then◌else◌, bind, get_or, ℕ,
}
use Prim.Native.String.{◌++◌ as str_append}
use ronna_core.Block.{Value, as_str}
use ronna_core.Chat.Json.{index, as_array, get_first, as_u64, as_u32, as_object, nonempty}
use ronna_core.Chat.Events.{StopReason, Usage, no_usage, OpaquePayload, StreamEvent}
use ronna_core.Chat.State.{
  SseState, is_empty, ingest_tool_call_fragment, drain_tool_calls, capture_reasoning_detail,
}

abbrev pub Step : Type 0
Step = SseState → List StreamEvent × SseState

-- What one step adds, then what the next does from there.
unfoldable pub andthen : Step → Step → Step
andthen first next state = let a = first state in let b = next a.1 in (a.0 ++ b.0, b.1)

unfoldable pub nothing : Step
nothing state = ([], state)

unfoldable pub open_reasoning : SseState → SseState
open_reasoning state = record state { reasoning_open = true }

unfoldable pub default_thinking_end_payload : SseState → Option OpaquePayload × SseState
default_thinking_end_payload state = if is_empty state.reasoning_details then (none, state) else (
  some (OpaquePayload.open_router state.reasoning_details),
  record state { reasoning_details = [] },
)

-- A delta's own text, unless it is empty.
unfoldable pub said : (String → StreamEvent) → Option String → List StreamEvent
said event none = []
said event (some text) = event text ∷ []

joins : Option ℕ → ℕ → Bool
joins none at = false
joins (some last) at = not (last == at)

unfoldable pub joined_summary_delta : SseState → Option ℕ → String → String × SseState
unfolding joins
joined_summary_delta state at text =
    let next = get_or at 0 in
    (
      (if joins state.last_summary_index next then str_append "\n\n" text else text),
      record state { last_summary_index = some next },
    )

-- The display text of a summary entry, if there is one.
unfoldable pub say_summary : Value → Option String → Step
say_summary entry none state = ([], state)
say_summary entry (some text) state =
    let (joined, next) = joined_summary_delta state (as_u64 (index entry "index")) text in
    (StreamEvent.thinking_summary_delta joined ∷ [], next)

unfoldable pub ingest_detail : Value → Step
ingest_detail entry state =
    let entry_type = get_or (as_str (index entry "type")) "" in
    let shown : List StreamEvent × SseState =
      if str_eq entry_type "reasoning.summary"
      then say_summary entry (nonempty (as_str (index entry "summary"))) state
      else if str_eq entry_type "reasoning.encrypted"
      then ([], state)
      else (said StreamEvent.thinking_delta (nonempty (as_str (index entry "text"))), state) in
    (shown.0, capture_reasoning_detail shown.1 entry)

unfoldable pub ingest_details : List Value → Step
ingest_details [] = nothing
ingest_details (entry ∷ details) = andthen (ingest_detail entry) (ingest_details details)

-- The bare fields: the first one that is a text decides.
unfoldable pub bare_reasoning : Option String → Option String → List StreamEvent
bare_reasoning (some content) other = said StreamEvent.thinking_delta (nonempty (some content))
bare_reasoning none other = said StreamEvent.thinking_delta (nonempty other)

unfoldable pub ingest_probed : Value → Option (List Value) → Step
ingest_probed delta (some details) state = ingest_details details state
ingest_probed delta none state = (
  bare_reasoning (as_str (index delta "reasoning_content")) (as_str (index delta "reasoning")),
  state,
)

unfoldable pub ingest_reasoning : Value → Step
ingest_reasoning delta = ingest_probed delta (as_array (index delta "reasoning_details"))

-- The events of the reasoning open the block if there are any.
unfoldable pub take_reasoning : Value → Step
take_reasoning delta state =
    let r = ingest_reasoning delta state in
    (r.0, (if is_empty r.0 then r.1 else open_reasoning r.1))

unfoldable pub stop_reason_of : String → StopReason
stop_reason_of reason =
    if str_eq reason "tool_calls"
    then StopReason.tool_use
    else if str_eq reason "length"
    then StopReason.max_tokens
    else StopReason.end_turn

unfoldable pub parse_usage : Value → Option Usage
parse_usage value = bind (as_object value) (λ usage. some (record {
  input_tokens = get_or (bind (as_u64 (index usage "prompt_tokens")) as_u32) 0;
  output_tokens = get_or (bind (as_u64 (index usage "completion_tokens")) as_u32) 0;
  reasoning_tokens =
      bind (as_u64 (index (index usage "completion_tokens_details") "reasoning_tokens")) as_u32;
}))

unfoldable pub release : Usage → Option StopReason → Step
release usage none state = ([], state)
release usage (some stop_reason) state =
    let r = drain_tool_calls (record state { pending_stop = none }) in
    (StreamEvent.message_end usage stop_reason ∷ r.0, r.1)

unfoldable pub release_message_end : Usage → Step
release_message_end usage state = release usage state.pending_stop state

unfoldable pub release_counted : Option Usage → Step
release_counted none = nothing
release_counted (some usage) = release_message_end usage

module _ (thinking_payload : SseState → Option OpaquePayload × SseState) where
  unfoldable pub close_reasoning : Step
  close_reasoning state =
      if state.reasoning_open
      then (let r = thinking_payload (record state { reasoning_open = false }) in
          (StreamEvent.thinking_end r.0 ∷ [], r.1))
      else ([], state)

  unfoldable pub say_text : Option String → Step
  say_text none = nothing
  say_text (some text) =
      andthen close_reasoning (λ state. (StreamEvent.text_delta text ∷ [], state))

  unfoldable pub decode_string_content : Value → Step
  decode_string_content content = say_text (nonempty (as_str content))

  unfoldable pub ingest_calls : Option (List Value) → Step
  ingest_calls none = nothing
  ingest_calls (some calls) =
      andthen close_reasoning
        (λ state. ([], scan (λ call s. ingest_tool_call_fragment s call) state calls))

  unfoldable pub finish : Option Usage → Option String → Step
  finish usage none = nothing
  finish usage (some reason) = andthen close_reasoning (λ state.
      release_counted usage (record state { pending_stop = some (stop_reason_of reason) }))

  unfoldable pub finish_stream : Step
  finish_stream = andthen close_reasoning (andthen (release_message_end no_usage) drain_tool_calls)

  module _ (decoder : Value → Step) (from_str : String → Option Value) where
    unfoldable pub parse_choice : Value → Option Value → Step
    parse_choice value none = release_counted (parse_usage (index value "usage"))
    parse_choice value (some choice) =
        let delta = index choice "delta" in
        andthen (take_reasoning delta) (
          andthen (decoder (index delta "content")) (
            andthen (ingest_calls (as_array (index delta "tool_calls")))
              (finish (parse_usage (index value "usage")) (as_str (index choice "finish_reason")))))

    unfoldable pub parse_value : Option Value → Step
    parse_value none = nothing
    parse_value (some value) = parse_choice value (get_first (index value "choices"))

    unfoldable pub parse_sse_chunk : String → Step
    parse_sse_chunk chunk = parse_value (from_str chunk)
