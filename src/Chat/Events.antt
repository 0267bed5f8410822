-- ===== src/Chat/Events.antt =====
-- What a provider can say while a turn is in flight: providers/types.rs, with the stop reason of
-- types.rs and the continuity payload of block.rs.
use ronna_core.Prelude.{ℕ, String, Option, none, List}

pub data StopReason : Type 0 where
  end_turn tool_use max_tokens content_filter refusal : StopReason

pub record Usage : Type 0 where
  pub input_tokens : ℕ
  pub output_tokens : ℕ
  pub reasoning_tokens : Option ℕ

abbrev pub no_usage : Usage
no_usage = record { input_tokens = 0; output_tokens = 0; reasoning_tokens = none }

pub record ReasoningDetailEntry : Type 0 where
  pub position : ℕ
  pub entry_type : String
  pub entry_id : Option String
  pub upstream_format : String
  pub index : Option ℕ
  pub content : String
  pub signature : Option String

-- In the source's order: an item's id and its encrypted content; a signature; the entries.
pub data OpaquePayload : Type 0 where
  open_ai_responses : String → String → OpaquePayload
  anthropic : String → OpaquePayload
  open_router : List ReasoningDetailEntry → OpaquePayload
  mistral : OpaquePayload

pub data FinalContentBlock : Type 0 where
  text thinking : String → FinalContentBlock
  reasoning : String → Option OpaquePayload → FinalContentBlock

pub data StreamEvent : Type 0 where
  connected text_block_start thinking_start tool_use_end : StreamEvent
  provider_status text_delta text_final thinking_delta thinking_summary_delta tool_use_input_delta :
      String → StreamEvent
  thinking_end : Option OpaquePayload → StreamEvent
  tool_use_start : String → String → StreamEvent
  message_end : Usage → StopReason → StreamEvent
  content_final : List FinalContentBlock → StreamEvent
