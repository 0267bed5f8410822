-- ===== src/Chat/Brackets.antt =====
-- Where reasoning begins and ends in what a stream yields.
pub mod Whole
use ronna_core.Prelude.{
  scan, String, Bool, true, false, Option, none, some, List, [], ◌∷◌, ◌++◌, ◌≡◌, refl, sym, ap, ◌∙◌,
  subst, map, scan, bind, if◌then◌else◌, Bool-cases, inl, inr, str_eq, Option-cases, get_or,
}
use ronna_core.Block.{Value, as_str}
use ronna_core.Chat.Json.{nonempty, index, as_array, get_first}
use ronna_core.Chat.Events.{OpaquePayload, StreamEvent, Usage}
use ronna_core.Chat.State.{
  ingest_tool_call_fragment, SseState, ToolCallInFlight, capture_reasoning_detail,
  ingest_tool_call_fragment, sse_state_new, drain_tool_calls, call_events, sort_calls, is_empty,
}
use ronna_core.Chat.Stream.{
  nothing, say_text, ingest_calls, Step, andthen, nothing, open_reasoning,
  default_thinking_end_payload, said, joined_summary_delta, say_summary, ingest_detail,
  ingest_details, bare_reasoning, ingest_probed, ingest_reasoning, take_reasoning, release,
  release_message_end, release_counted, close_reasoning, say_text, decode_string_content,
  ingest_calls, finish, finish_stream, parse_choice, parse_value, parse_sse_chunk,
}
use ronna_core.Chat.Source.{
  SourceItem, Decoded, event, broken, ok, stream_error, decode_stream, on_event,
}

-- Whether reasoning is open after an event; none if the event may not stand there: a text inside
-- reasoning, or an end of reasoning that is not open.
pub bracket_step : Bool → StreamEvent → Option Bool
bracket_step is_open (StreamEvent.thinking_delta text) = some true
bracket_step is_open (StreamEvent.thinking_summary_delta text) = some true
bracket_step is_open (StreamEvent.thinking_end payload) = if is_open then some false else none
bracket_step is_open (StreamEvent.text_delta text) = if is_open then none else some false
bracket_step is_open _ = some is_open

pub brackets : Bool → List StreamEvent → Option Bool
unfolding bracket_step
brackets is_open [] = some is_open
brackets is_open (e ∷ events) = bind (bracket_step is_open e) (λ next. brackets next events)

none-some : (b : Bool) → none ≡ some b → ⊥
none-some b h = cc

brackets-append :
    (events more : List StreamEvent) (is_open mid : Bool)
    → brackets is_open events ≡ some mid
    → brackets is_open (events ++ more) ≡ brackets mid more
unfolding brackets
brackets-append [] more is_open mid h = ap (λ o. bind o (λ b. brackets b more)) h
brackets-append (e ∷ events) more is_open mid h = elim (Option-cases (bracket_step is_open e)) [
  | inl bad ↦ absurd (none-some mid (sym (ap (λ o. bind o (λ n. brackets n events)) bad) ∙ h))
  | inr (next, good) ↦ rw good (
      brackets-append events more next mid
        (sym (ap (λ o. bind o (λ n. brackets n events)) good) ∙ h))
]

-- A step whose events lead from whether reasoning was is_open to whether it is.
Keeps : Step → Type 0
Keeps step =
    (state : SseState)
    → brackets state.reasoning_open (step state).0 ≡ some (step state).1.reasoning_open

Keeps-andthen : (first next : Step) → Keeps first → Keeps next → Keeps (andthen first next)
unfolding andthen Keeps
Keeps-andthen first next f n state =
    brackets-append (first state).0 (next (first state).1).0 state.reasoning_open _ (f state)
    ∙ n (first state).1

Keeps-close : Keeps (close_reasoning default_thinking_end_payload)
unfolding close_reasoning default_thinking_end_payload Keeps brackets
Keeps-close state = elim (Bool-cases state.reasoning_open) [
  | inl is_open ↦ elim (Bool-cases (is_empty state.reasoning_details)) [
    | inl bare ↦ rw (is_open, bare) refl
    | inr kept ↦ rw (is_open, kept) refl
  ]
  | inr shut ↦ rw shut refl
]

-- Displayed reasoning alone: it is open after the first.
AreDeltas : List StreamEvent → Type 0
AreDeltas events =
    (is_open : Bool) → brackets is_open events ≡ some (if is_empty events then is_open else true)

-- A step that shows reasoning alone and does not say whether it is open.
IsQuiet : Step → Type 0
IsQuiet step =
    (state : SseState)
    → AreDeltas (step state).0 × ((step state).1.reasoning_open ≡ state.reasoning_open)

AreDeltas-append : (xs ys : List StreamEvent) → AreDeltas xs → AreDeltas ys → AreDeltas (xs ++ ys)
unfolding AreDeltas
AreDeltas-append [] ys dx dy is_open = dy is_open
AreDeltas-append (x ∷ xs) ys dx dy is_open =
    brackets-append (x ∷ xs) ys is_open true (dx is_open)
    ∙ dy true
    ∙ (elim (Bool-cases (is_empty ys)) [ inl e ↦ rw e refl | inr e ↦ rw e refl ])

IsQuiet-andthen : (first next : Step) → IsQuiet first → IsQuiet next → IsQuiet (andthen first next)
unfolding andthen IsQuiet
IsQuiet-andthen first next f n state =
    let (df, sf) = f state in
    let (dn, sn) = n (first state).1 in
    (AreDeltas-append (first state).0 (next (first state).1).0 df dn, sn ∙ sf)

AreDeltas-said : (o : Option String) → AreDeltas (said StreamEvent.thinking_delta o)
unfolding said AreDeltas brackets bracket_step
AreDeltas-said none is_open = refl
AreDeltas-said (some text) is_open = refl

IsQuiet-say_summary : (entry : Value) (o : Option String) → IsQuiet (say_summary entry o)
unfolding say_summary joined_summary_delta IsQuiet AreDeltas brackets bracket_step
IsQuiet-say_summary entry none state = (λ is_open. refl, refl)
IsQuiet-say_summary entry (some text) state = (λ is_open. refl, refl)

IsQuiet-ingest_detail : (entry : Value) → IsQuiet (ingest_detail entry)
unfolding ingest_detail capture_reasoning_detail IsQuiet
IsQuiet-ingest_detail entry state =
    elim (Bool-cases (str_eq (get_or (as_str (index entry "type")) "") "reasoning.summary")) [
      | inl summary ↦
          rw summary (IsQuiet-say_summary entry (nonempty (as_str (index entry "summary"))) state)
      | inr other ↦
          elim (Bool-cases
            (str_eq (get_or (as_str (index entry "type")) "") "reasoning.encrypted")) [
              | inl hidden ↦
                  rw (other, hidden) (unfold AreDeltas brackets in (λ is_open. refl, refl))
              | inr shown ↦
                  rw (other, shown) (AreDeltas-said (nonempty (as_str (index entry "text"))), refl)
            ]
    ]

IsQuiet-ingest_details : (details : List Value) → IsQuiet (ingest_details details)
unfolding ingest_details
IsQuiet-ingest_details [] =
    unfold IsQuiet AreDeltas brackets nothing in (λ state. (λ is_open. refl, refl))
IsQuiet-ingest_details (entry ∷ details) =
    IsQuiet-andthen (ingest_detail entry) (ingest_details details) (IsQuiet-ingest_detail entry)
      (IsQuiet-ingest_details details)

IsQuiet-ingest_probed : (delta : Value) (o : Option (List Value)) → IsQuiet (ingest_probed delta o)
unfolding ingest_probed bare_reasoning
IsQuiet-ingest_probed delta (some details) = IsQuiet-ingest_details details
IsQuiet-ingest_probed delta none =
    unfold IsQuiet in (λ state. (bare (as_str (index delta "reasoning_content")), refl))
  where
    bare : (o : Option String) → AreDeltas (bare_reasoning o (as_str (index delta "reasoning")))
    bare none = AreDeltas-said _
    bare (some content) = AreDeltas-said _

Keeps-take_reasoning : (delta : Value) → Keeps (take_reasoning delta)
unfolding take_reasoning ingest_reasoning open_reasoning Keeps IsQuiet AreDeltas
Keeps-take_reasoning delta state =
    let (deltas, same) =
      IsQuiet-ingest_probed delta (as_array (index delta "reasoning_details")) state in
    elim (Bool-cases
      (is_empty (ingest_probed delta (as_array (index delta "reasoning_details")) state).0)) [
        | inl silent ↦ rw silent (deltas state.reasoning_open ∙ rw silent (ap some (sym same)))
        | inr spoke ↦ rw spoke (deltas state.reasoning_open ∙ rw spoke refl)
      ]

Keeps-nothing : Keeps nothing
unfolding nothing Keeps brackets
Keeps-nothing state = refl

pub close-shut :
    (state : SseState)
    → (close_reasoning default_thinking_end_payload state).1.reasoning_open ≡ false
unfolding close_reasoning default_thinking_end_payload
close-shut state = elim (Bool-cases state.reasoning_open) [
  | inl is_open ↦ elim (Bool-cases (is_empty state.reasoning_details)) [
    | inl bare ↦ rw (is_open, bare) refl
    | inr kept ↦ rw (is_open, kept) refl
  ]
  | inr shut ↦ rw shut refl
]

Keeps-say_text : (o : Option String) → Keeps (say_text default_thinking_end_payload o)
unfolding say_text
Keeps-say_text none = Keeps-nothing
Keeps-say_text (some text) =
    unfold Keeps andthen in
    (λ state.
      let shut = close-shut state in
      brackets-append (close_reasoning default_thinking_end_payload state).0 _ state.reasoning_open
        false (Keeps-close state ∙ ap some shut)
      ∙ unfold brackets bracket_step in ap some (sym shut))

scan-open :
    (calls : List Value) (state : SseState)
    → (scan (λ call s. ingest_tool_call_fragment s call) state calls).reasoning_open
      ≡ state.reasoning_open
unfolding scan
scan-open [] state = refl
scan-open (call ∷ calls) state =
    scan-open calls (ingest_tool_call_fragment state call)
    ∙ unfold ingest_tool_call_fragment in refl

Keeps-ingest_calls : (o : Option (List Value)) → Keeps (ingest_calls default_thinking_end_payload o)
unfolding ingest_calls
Keeps-ingest_calls none = Keeps-nothing
Keeps-ingest_calls (some calls) =
    Keeps-andthen _ _ Keeps-close
      (unfold Keeps brackets in (λ state. ap some (sym (scan-open calls state))))
