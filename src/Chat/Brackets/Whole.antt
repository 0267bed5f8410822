-- ===== src/Chat/Brackets/Whole.antt =====
-- The whole stream, step by step.
use ronna_core.Prelude.{
  String, Bool, false, Option, none, some, List, [], ◌∷◌, ◌++◌, ◌≡◌, refl, ap, ◌∙◌, map, Bool-cases,
  inl, inr, str_eq, Option-cases,
}
use ronna_core.Block.{Value}
use ronna_core.Chat.Events.{StreamEvent, Usage, StopReason, no_usage}
use ronna_core.Chat.State.{
  SseState, ToolCallInFlight, sse_state_new, drain_tool_calls, call_events, sort_calls, is_empty,
}
use ronna_core.Chat.Stream.{
  andthen, default_thinking_end_payload, release, release_message_end, release_counted,
  close_reasoning, decode_string_content, finish, finish_stream, parse_choice, parse_value,
  parse_sse_chunk, stop_reason_of,
}
use ronna_core.Chat.Source.{
  SourceItem, Decoded, event, broken, ok, stream_error, decode_stream, on_event,
}
use ronna_core.Chat.Brackets.{
  Keeps-nothing, close-shut, Keeps-say_text, Keeps-ingest_calls, bracket_step, brackets,
  brackets-append, Keeps, Keeps-andthen, Keeps-close, Keeps-take_reasoning,
}

brackets-call_events :
    (calls : List ToolCallInFlight) (b : Bool) → brackets b (call_events calls) ≡ some b
unfolding call_events brackets bracket_step
brackets-call_events [] b = refl
brackets-call_events (call ∷ calls) b = elim (Bool-cases (str_eq call.arguments "")) [
  | inl bare ↦ rw bare (brackets-call_events calls b)
  | inr full ↦ rw full (brackets-call_events calls b)
]

Keeps-drain : Keeps drain_tool_calls
unfolding drain_tool_calls Keeps
Keeps-drain state = elim (Bool-cases (is_empty (call_events (sort_calls state.tool_calls)))) [
  | inl bare ↦ rw bare (unfold brackets in refl)
  | inr full ↦ rw full (
      brackets-append (call_events (sort_calls state.tool_calls)) _ state.reasoning_open _
        (brackets-call_events (sort_calls state.tool_calls) state.reasoning_open)
      ∙ unfold brackets bracket_step in refl)
]

Keeps-release : (usage : Usage) → Keeps (release_message_end usage)
unfolding release_message_end release Keeps
Keeps-release usage state = elim (Option-cases state.pending_stop) [
  | inl silent ↦ rw silent (unfold brackets in refl)
  | inr (stop, pending) ↦
      rw pending
        (unfold brackets bracket_step in Keeps-drain (record state { pending_stop = none }))
]

Keeps-counted : (usage : Option Usage) → Keeps (release_counted usage)
unfolding release_counted
Keeps-counted none = Keeps-nothing
Keeps-counted (some usage) = Keeps-release usage

Keeps-finish :
    (usage : Option Usage) (o : Option String) → Keeps (finish default_thinking_end_payload usage o)
unfolding finish
Keeps-finish usage none = Keeps-nothing
Keeps-finish usage (some reason) = Keeps-andthen _ _ Keeps-close (
    unfold Keeps in
    (λ state. Keeps-counted usage (record state { pending_stop = some (stop_reason_of reason) })))

Keeps-finish_stream : Keeps (finish_stream default_thinking_end_payload)
unfolding finish_stream
Keeps-finish_stream =
    Keeps-andthen _ _ Keeps-close (Keeps-andthen _ _ (Keeps-release _) Keeps-drain)

-- The events of a stream, without its errors.
pub events_of : List Decoded → List StreamEvent
events_of [] = []
events_of (ok e ∷ decoded) = e ∷ events_of decoded
events_of (stream_error error ∷ decoded) = events_of decoded

events_of-map : (events : List StreamEvent) → events_of (map ok events) ≡ events
unfolding events_of
events_of-map [] = refl
events_of-map (e ∷ events) = ap (λ l. e ∷ l) (events_of-map events)

release-flag :
    (usage : Usage) (pending : Option StopReason) (state : SseState)
    → (release usage pending state).1.reasoning_open ≡ state.reasoning_open
unfolding release drain_tool_calls
release-flag usage none state = refl
release-flag usage (some stop) state = refl

finish-shut :
    (state : SseState) → (finish_stream default_thinking_end_payload state).1.reasoning_open ≡ false
unfolding finish_stream andthen drain_tool_calls release_message_end
finish-shut state =
    let shut = (close_reasoning default_thinking_end_payload state).1 in
    release-flag no_usage shut.pending_stop shut ∙ close-shut state

-- The decoder with the default seams, over any reading of a chunk's text.
module _ (from_str : String → Option Value) where
  Keeps-parse_choice :
      (value : Value) (o : Option Value)
      → Keeps (
          parse_choice default_thinking_end_payload
            (decode_string_content default_thinking_end_payload)
            from_str
            value
            o)
  unfolding parse_choice decode_string_content
  Keeps-parse_choice value none = Keeps-counted _
  Keeps-parse_choice value (some choice) = Keeps-andthen _ _ (Keeps-take_reasoning _) (
      Keeps-andthen _ _ (Keeps-say_text _)
        (Keeps-andthen _ _ (Keeps-ingest_calls _) (Keeps-finish _ _)))

  Keeps-parse_value :
      (o : Option Value)
      → Keeps (
          parse_value default_thinking_end_payload
            (decode_string_content default_thinking_end_payload)
            from_str
            o)
  unfolding parse_value
  Keeps-parse_value none = Keeps-nothing
  Keeps-parse_value (some value) = Keeps-parse_choice value _

  Keeps-on_event :
      (text : String)
      → Keeps (
          on_event default_thinking_end_payload
            (decode_string_content default_thinking_end_payload)
            from_str
            text)
  unfolding on_event parse_sse_chunk Keeps
  Keeps-on_event text state = elim (Bool-cases (str_eq text "[DONE]")) [
    | inl done ↦ rw done (unfold Keeps in Keeps-finish_stream state)
    | inr chunk ↦ rw chunk (Keeps-parse_value (from_str text) state)
  ]

  events_of-append :
      (events : List StreamEvent) (more : List Decoded)
      → events_of (map ok events ++ more) ≡ events ++ events_of more
  unfolding events_of
  events_of-append [] more = refl
  events_of-append (e ∷ events) more = ap (λ l. e ∷ l) (events_of-append events more)

  stream-brackets :
      (items : List SourceItem) (state : SseState)
      → brackets state.reasoning_open (
          events_of (
            decode_stream default_thinking_end_payload
              (decode_string_content default_thinking_end_payload)
              from_str
              items
              state))
        ≡ some false
  unfolding decode_stream events_of Keeps
  stream-brackets [] state =
      ap (brackets state.reasoning_open)
        (events_of-map (finish_stream default_thinking_end_payload state).0)
      ∙ Keeps-finish_stream state
      ∙ ap some (finish-shut state)
  stream-brackets (event text ∷ items) state =
      let r =
        on_event default_thinking_end_payload (decode_string_content default_thinking_end_payload)
          from_str text state in
      let rest = stream-brackets items r.1 in
      ap (brackets state.reasoning_open) (events_of-append r.0 _)
      ∙ brackets-append r.0 _ state.reasoning_open _ (Keeps-on_event text state)
      ∙ rest
  stream-brackets (broken error ∷ items) state = stream-brackets items state

  -- Whatever the transport yields, breaks off or repeats, in the events of the default decoder no
  -- text stands inside reasoning, every end of reasoning ends reasoning that is open, and none is
  -- open when the stream has ended.
  pub decode_stream-brackets :
      (items : List SourceItem)
      → brackets false (
          events_of (
            decode_stream default_thinking_end_payload
              (decode_string_content default_thinking_end_payload)
              from_str
              items
              sse_state_new))
        ≡ some false
  unfolding sse_state_new
  decode_stream-brackets items = stream-brackets items sse_state_new
