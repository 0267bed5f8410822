-- ===== src/Chat/State.antt =====
-- The decoder's state: `SseState` of providers/chat/sse.rs, the calls it assembles and the
-- reasoning entries it keeps.
use Prim.Native.String.{◌++◌ as str_append}
use ronna_core.Prelude.{
  ℕ, ◌+◌, ◌%◌, String, Bool, true, false, not, ◌&&◌, ◌||◌, Option, none, some, List, [], ◌∷◌, ◌++◌,
  str_eq, if◌then◌else◌, any, leb, ◌==◌, length, min, last?, is_some, get_or, bind,
}
use ronna_core.Block.{Value, as_str, u64_mod}
use ronna_core.Chat.Json.{index, as_u64, as_u32, nonempty}
use ronna_core.Chat.Events.{StopReason, StreamEvent, ReasoningDetailEntry}

pub record ToolCallInFlight : Type 0 where
  pub index : ℕ
  pub id : String
  pub name : String
  pub arguments : String

-- The two function pointers of the source's state are parameters of the stream.
pub record SseState : Type 0 where
  pub tool_calls : List ToolCallInFlight
  pub reasoning_open : Bool
  pub reasoning_details : List ReasoningDetailEntry
  pub last_summary_index : Option ℕ
  pub pending_stop : Option StopReason

unfoldable pub sse_state_new : SseState
sse_state_new = record {
  tool_calls = [];
  reasoning_open = false;
  reasoning_details = [];
  last_summary_index = none;
  pending_stop = none;
}

abbrev pub is_empty {ℓ} : {A : Type ℓ} → List A → Bool
is_empty [] = true
is_empty (x ∷ xs) = false

unfoldable pub carries_identity : Value → Bool
carries_identity fragment =
    is_some (nonempty (as_str (index fragment "id")))
    || is_some (nonempty (as_str (index (index fragment "function") "name")))

-- The index of the last call; 0 if there is none.
last_index : Option ToolCallInFlight → ℕ
last_index none = 0
last_index (some call) = call.index

-- The wire's index; without one, that of a new call or of the last one. A sum past 64 bits wraps.
unfoldable pub fragment_index : List ToolCallInFlight → Value → ℕ
unfolding last_index
fragment_index calls fragment = get_or (as_u64 (index fragment "index")) (
    if carries_identity fragment && not (is_empty calls)
    then (last_index (last? calls) + 1) % u64_mod
    else last_index (last? calls))

unfoldable pub ensure_call : ℕ → List ToolCallInFlight → List ToolCallInFlight
ensure_call at calls =
    if any (λ call. call.index == at) calls
    then calls
    else calls ++ (record { index = at; id = ""; name = ""; arguments = "" } ∷ [])

unfoldable pub push_arguments : String → Option String → String
push_arguments arguments none = arguments
push_arguments arguments (some more) = str_append arguments more

unfoldable pub extend_call : Value → ToolCallInFlight → ToolCallInFlight
extend_call fragment call =
    let function = index fragment "function" in
    record call {
      id = get_or (nonempty (as_str (index fragment "id"))) call.id;
      name = get_or (nonempty (as_str (index function "name"))) call.name;
      arguments = push_arguments call.arguments (as_str (index function "arguments"));
    }

-- `iter_mut().find(..)` and the change of what it finds.
unfoldable pub change_call :
    ℕ → (ToolCallInFlight → ToolCallInFlight) → List ToolCallInFlight → List ToolCallInFlight
change_call at change [] = []
change_call at change (call ∷ calls) =
    if call.index == at then change call ∷ calls else call ∷ change_call at change calls

unfoldable pub fold_fragment : List ToolCallInFlight → Value → List ToolCallInFlight
fold_fragment calls fragment =
    let at = fragment_index calls fragment in
    change_call at (extend_call fragment) (ensure_call at calls)

unfoldable pub ingest_tool_call_fragment : SseState → Value → SseState
ingest_tool_call_fragment state fragment = record state {
  tool_calls = fold_fragment state.tool_calls fragment;
}

-- `sort_by_key`, which keeps the order of equal keys.
insert_call : ToolCallInFlight → List ToolCallInFlight → List ToolCallInFlight
insert_call call [] = call ∷ []
insert_call call (other ∷ calls) =
    if leb call.index other.index then call ∷ other ∷ calls else other ∷ insert_call call calls

unfoldable pub sort_calls : List ToolCallInFlight → List ToolCallInFlight
unfolding insert_call
sort_calls [] = []
sort_calls (call ∷ calls) = insert_call call (sort_calls calls)

unfoldable pub call_events : List ToolCallInFlight → List StreamEvent
call_events [] = []
call_events (call ∷ calls) =
    StreamEvent.tool_use_start call.id call.name
    ∷ (if str_eq call.arguments ""
        then call_events calls
        else StreamEvent.tool_use_input_delta call.arguments ∷ call_events calls)

unfoldable pub drain_tool_calls : SseState → List StreamEvent × SseState
drain_tool_calls state =
    let events = call_events (sort_calls state.tool_calls) in
    (
      (if is_empty events then [] else events ++ (StreamEvent.tool_use_end ∷ [])),
      record state { tool_calls = [] },
    )

-- The field that the entry's type puts its content in.
content_field : String → String
content_field entry_type =
    if str_eq entry_type "reasoning.summary"
    then "summary"
    else if str_eq entry_type "reasoning.encrypted"
    then "data"
    else "text"

unfoldable pub capture_reasoning_detail : SseState → Value → SseState
unfolding content_field
capture_reasoning_detail state entry =
    let entry_type = get_or (as_str (index entry "type")) "" in
    record state {
      reasoning_details =
          state.reasoning_details
          ++ (record {
            position = min (length state.reasoning_details) 4294967295;
            entry_type = entry_type;
            entry_id = as_str (index entry "id");
            upstream_format = get_or (as_str (index entry "format")) "unknown";
            index = bind (as_u64 (index entry "index")) as_u32;
            content = get_or (as_str (index entry (content_field entry_type))) "";
            signature = as_str (index entry "signature");
          }
              ∷ []);
    }
