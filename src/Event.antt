-- ===== src/Event.antt =====
-- The events of the runtime: `CoreEvent` of crates/agent-ledger/src/event.rs, and the parts of
-- types.rs that its variants carry.
use ronna_core.Prelude.{ℕ, String, Bool, true, false, Option, none, some, List}
use ronna_core.Agency.Records.{ApprovalChoice}
use ronna_core.Chat.Events.{StopReason, Usage}
use ronna_core.Agency.Awaiting.{Awaiting}

-- The human's input: a text, or a reference to a span, by block and offset at both ends.
pub data InputBlock : Type 0 where
  text : String → InputBlock
  quote : ℕ → ℕ → ℕ → ℕ → InputBlock

-- Each variant begins with its conversation, but `unlatch_all` and `conversations_changed`.
pub data CoreEvent : Type 0 where
  conversation_created : ℕ → CoreEvent
  title_updated : ℕ → String → CoreEvent
  stream_status : ℕ → String → Option String → CoreEvent
  stream_done : ℕ → Option Usage → Option StopReason → Option ℕ → CoreEvent
  stream_error : ℕ → String → Option ℕ → CoreEvent
  stream_closed : ℕ → Option ℕ → CoreEvent
  blocks_changed : ℕ → ℕ → CoreEvent
  draft_promoted : ℕ → CoreEvent
  blocks_appended : ℕ → List InputBlock → CoreEvent
  tool_call_received : ℕ → String → String → String → CoreEvent
  approval_submitted : ℕ → ℕ → ApprovalChoice → Option String → Option String → CoreEvent
  tool_call_ready : ℕ → ℕ → CoreEvent
  metadata_request_ready : ℕ → ℕ → CoreEvent
  interrupt_requested : ℕ → CoreEvent
  unlatch_requested : ℕ → CoreEvent
  unlatch_all : CoreEvent
  conversation_state : ℕ → Bool → Bool → Option Awaiting → CoreEvent
  conversations_changed : CoreEvent

-- The error that a stop ends its turn with.
unfoldable pub error_key : StopReason → Option String
error_key StopReason.end_turn = none
error_key StopReason.tool_use = none
error_key StopReason.max_tokens = some "max_tokens"
error_key StopReason.content_filter = some "content_filter"
error_key StopReason.refusal = some "refusal"

unfoldable pub discards_output : StopReason → Bool
discards_output StopReason.refusal = true
discards_output _ = false
