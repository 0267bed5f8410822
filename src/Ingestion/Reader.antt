-- ===== src/Ingestion/Reader.antt =====
-- The reader's state, its store calls, and what it does with the tails of a turn.
use ronna_core.Prelude.{
  Bool-cases, inl, inr, ℕ, ◌+◌, String, Bool, true, false, Option, none, some, List, [], ◌∷◌, ◌++◌,
  if◌then◌else◌, bind, scan, is_some,
}
use ronna_core.Chat.Events.{StopReason}
use ronna_core.Event.{CoreEvent, error_key}
use ronna_core.Ingestion.Rows.{
  Rows, Destination, insert_streaming_thinking_block, discard_streaming_block,
  delete_streaming_blocks,
}

-- How far the turn's text came.
pub data TextChannel : Type 0 where
  silent responding committed : TextChannel

pub data TailFinalization : Type 0 where
  persisted nothing_to_persist failed : TailFinalization

-- An open call: its row, its id on the wire and its name.
pub record OpenCall : Type 0 where
  pub block_id : ℕ
  pub tool_call_id : String
  pub name : String

pub record TurnTrackers : Type 0 where
  pub current_streaming_block : Option ℕ
  pub current_thinking_block : Option ℕ
  pub content_final_received : Bool
  pub thinking_finalized : Bool
  pub text_channel : TextChannel
  pub open_streaming_tool_calls : List OpenCall

abbrev pub fresh : TurnTrackers
fresh = record {
  current_streaming_block = none;
  current_thinking_block = none;
  content_final_received = false;
  thinking_finalized = false;
  text_channel = TextChannel.silent;
  open_streaming_tool_calls = [];
}

-- `TurnAnchor`, shared with the actor.
pub record Seam : Type 0 where
  pub anchor : Option ℕ
  pub epoch : ℕ
  pub abandoned : Option ℕ

abbrev pub new_seam : Seam
new_seam = record { anchor = none; epoch = 0; abandoned = none }

unfoldable pub set_anchor : ℕ → Seam → Seam
set_anchor anchor seam = record seam { epoch = seam.epoch + 1; anchor = some anchor }

unfoldable pub clear_anchor : Seam → Seam
clear_anchor seam = record seam { anchor = none }

unfoldable pub mark_abandoned : ℕ → Seam → Seam
mark_abandoned epoch seam = record seam { abandoned = some epoch }

unfoldable pub is_abandoned : Seam → Bool
is_abandoned seam = is_some seam.abandoned

-- `ChannelReader`, with what it shares: the seam, the latch, the rows, the events it put on the
-- bus, and which of its next store calls fail (none that are not listed).
pub record ChannelReader : Type 0 where
  pub conversation_id : ℕ
  pub trackers : TurnTrackers
  pub mid_turn : Bool
  pub generation : ℕ
  pub seam : Seam
  pub abnormal_stop : Option StopReason
  pub owes_empty_commit : Bool
  pub draining : Bool
  pub drained_epoch : ℕ
  pub latched : Bool
  pub ledger : Rows
  pub emitted : List CoreEvent
  pub faults : List Bool

abbrev pub Step : Type 0
Step = ChannelReader → ChannelReader

next_fault : List Bool → Bool × List Bool
next_fault [] = (false, [])
next_fault (fault ∷ faults) = (fault, faults)

-- A store call: it fails and changes nothing, or it is done and returns.
unfoldable pub attempt :
    {A B : Type 0}
    → (Rows → A × Rows)
    → (A → ChannelReader → B)
    → (ChannelReader → B)
    → ChannelReader
    → B
unfolding next_fault
attempt call good bad reader =
    let (fault, faults) = next_fault reader.faults in
    if fault
    then bad (record reader { faults = faults })
    else (let done = call reader.ledger in
        good done.0 (record reader { faults = faults; ledger = done.1 }))

-- What holds whether a store call fails or is done.
pub attempt_lem :
    {A B : Type 0} (Q : B → Type 0) (call : Rows → A × Rows) (good : A → ChannelReader → B)
    (bad : ChannelReader → B) (reader : ChannelReader)
    → ((faults : List Bool)
        → Q (
            good
              (call reader.ledger).0
              (record reader { faults = faults; ledger = (call reader.ledger).1 })))
    → ((faults : List Bool) → Q (bad (record reader { faults = faults })))
    → Q (attempt call good bad reader)
unfolding attempt
attempt_lem Q call good bad reader g b = elim (Bool-cases (next_fault reader.faults).0) [
  | inl fault ↦ rw fault (b (next_fault reader.faults).1)
  | inr fine ↦ rw fine (g (next_fault reader.faults).1)
]

unfoldable pub emit : CoreEvent → Step
emit event reader = record reader { emitted = reader.emitted ++ (event ∷ []) }

unfoldable pub turn_destination : ChannelReader → Destination
turn_destination reader = record {
  conversation_id = reader.conversation_id;
  dispatch_anchor = reader.seam.anchor;
}

unfoldable pub set_trackers : TurnTrackers → Step
set_trackers trackers reader = record reader { trackers = trackers }

-- A failure is logged, and the reader goes on as it is.
unfoldable pub stay : Step
stay reader = reader

unfoldable pub terminal_event : ℕ → ℕ → Option String → CoreEvent
terminal_event conversation generation none = CoreEvent.stream_closed conversation (some generation)
terminal_event conversation generation (some error) =
    CoreEvent.stream_error conversation error (some generation)

unfoldable pub emit_turn_terminal : Step
emit_turn_terminal reader =
    emit
      (terminal_event reader.conversation_id reader.generation
        (bind reader.abnormal_stop error_key))
      (record reader { mid_turn = false; draining = false; abnormal_stop = none })

-- Whether `name_open_tails` names any.
unfoldable pub has_open_tails : TurnTrackers → Bool
has_open_tails trackers = elim trackers.current_streaming_block [
  | some id ↦ true
  | none ↦ elim trackers.current_thinking_block [
    | some id ↦ true
    | none ↦ elim trackers.open_streaming_tool_calls [ [] ↦ false | _ ∷ _ ↦ true ]
  ]
]

unfoldable pub discard_streaming_tails : Step
discard_streaming_tails reader =
    attempt (delete_streaming_blocks reader.conversation_id) (λ _. set_trackers fresh)
      (set_trackers fresh) reader

unfoldable pub discard_unterminated_tails : Step
discard_unterminated_tails reader =
    if has_open_tails reader.trackers then discard_streaming_tails reader else reader

option_list : {A : Type 0} → Option A → List A
option_list none = []
option_list (some a) = a ∷ []

call_ids : List OpenCall → List ℕ
call_ids [] = []
call_ids (call ∷ calls) = call.block_id ∷ call_ids calls

-- The rows that the trackers name, in the order they are discarded in.
unfoldable pub tracked_ids : TurnTrackers → List ℕ
unfolding option_list call_ids
tracked_ids trackers =
    option_list trackers.current_streaming_block
    ++ (option_list trackers.current_thinking_block ++ call_ids trackers.open_streaming_tool_calls)

unfoldable pub discard_each : List ℕ → Step
discard_each ids reader =
    scan (λ id r. attempt (discard_streaming_block id) (λ _. stay) stay r) reader ids

unfoldable pub discard_tracked_tails : Step
discard_tracked_tails reader =
    if has_open_tails reader.trackers
    then discard_each (tracked_ids reader.trackers) (set_trackers fresh reader)
    else reader

unfoldable pub abandon_owed_empty_commit : Step
abandon_owed_empty_commit reader = record reader { owes_empty_commit = false }

-- The thinking row of the turn, made at its first delta, and what is done with it.
unfoldable pub thinking_block_of : (ℕ → Step) → Option ℕ → Step
thinking_block_of next (some id) reader = next id reader
thinking_block_of next none reader =
    attempt (insert_streaming_thinking_block (turn_destination reader))
      (λ id r.
        next id (record r { trackers = record r.trackers { current_thinking_block = some id } }))
      stay reader

unfoldable pub with_thinking_block : (ℕ → Step) → Step
with_thinking_block next reader =
    thinking_block_of next reader.trackers.current_thinking_block reader
