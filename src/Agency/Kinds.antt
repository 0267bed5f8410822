-- ===== src/Agency/Kinds.antt =====
-- The typed block layer: `BlockKind` of crates/agent-ledger/src/agency/mod.rs, the parse chain, and
-- the hooks, each of which hands a variant to its kind.
use ronna_core.Prelude.{
  String, Bool, true, false, ◌||◌, Option, none, some, List, [], ◌∷◌, ◌++◌, str_eq, if◌then◌else◌,
}
use ronna_core.Block.{Block}
use ronna_core.Agency.Awaiting.{Awaiting}
use ronna_core.Agency.Words.{
  Text, Quote, Code, Thinking, SystemPrompt, HarnessMessage, DateMarker, parse_text, parse_quote,
  parse_code, parse_thinking, parse_system_prompt, parse_harness_message, parse_date_marker,
  text_awaiting, quote_awaiting, code_awaiting, harness_message_awaiting,
}
use ronna_core.Agency.Calls.{
  ToolCall, ToolResult, ToolError, parse_tool_call, parse_tool_result, parse_tool_error,
  tool_call_awaiting, tool_result_awaiting, tool_error_awaiting, tool_result_transparent,
}
use ronna_core.Agency.Records.{
  Status, ApprovalRequest, ApprovalDecision, ToolChoice, MetadataTitleRequest, AncestorReference,
  Unknown, parse_status, parse_approval_request, parse_approval_decision, parse_tool_choice,
  parse_title_request, parse_ancestor_reference, parse_unknown, records_turn_end,
}

pub data BlockKind : Type 0 where
  text : Text → BlockKind
  quote : Quote → BlockKind
  code : Code → BlockKind
  thinking : Thinking → BlockKind
  tool_call : ToolCall → BlockKind
  tool_result : ToolResult → BlockKind
  tool_error : ToolError → BlockKind
  status : Status → BlockKind
  system_prompt : SystemPrompt → BlockKind
  streaming : BlockKind
  streaming_thinking : BlockKind
  streaming_tool_call : BlockKind
  approval_request : ApprovalRequest → BlockKind
  approval_decision : ApprovalDecision → BlockKind
  date_marker : DateMarker → BlockKind
  metadata_title_request : MetadataTitleRequest → BlockKind
  metadata_title_response : BlockKind
  ancestor_reference : AncestorReference → BlockKind
  harness_message : HarnessMessage → BlockKind
  tool_choice : ToolChoice → BlockKind
  unknown : Unknown → BlockKind

unfoldable pub contains_kind : List String → String → Bool
contains_kind [] kind = false
contains_kind (k ∷ kinds) kind = str_eq k kind || contains_kind kinds kind

unfoldable pub concat_kinds : List (List String) → List String
concat_kinds [] = []
concat_kinds (set ∷ sets) = set ++ concat_kinds sets

-- The stored type strings of each kind, `LeafKind::KINDS`.
abbrev pub text_kinds : List String
text_kinds = "text" ∷ []

abbrev pub quote_kinds : List String
quote_kinds = "quote" ∷ []

abbrev pub code_kinds : List String
code_kinds = "code" ∷ []

abbrev pub thinking_kinds : List String
thinking_kinds = "thinking" ∷ []

abbrev pub tool_call_kinds : List String
tool_call_kinds = "tool_call" ∷ []

abbrev pub tool_result_kinds : List String
tool_result_kinds = "tool_result" ∷ []

abbrev pub tool_error_kinds : List String
tool_error_kinds = "tool_error" ∷ []

abbrev pub status_kinds : List String
status_kinds = "status" ∷ []

abbrev pub system_prompt_kinds : List String
system_prompt_kinds = "system_prompt" ∷ []

abbrev pub streaming_kinds : List String
streaming_kinds = "streaming" ∷ []

abbrev pub streaming_thinking_kinds : List String
streaming_thinking_kinds = "streaming_thinking" ∷ []

abbrev pub streaming_tool_call_kinds : List String
streaming_tool_call_kinds = "streaming_tool_call" ∷ []

abbrev pub approval_request_kinds : List String
approval_request_kinds = "approval_request" ∷ []

abbrev pub approval_decision_kinds : List String
approval_decision_kinds = "approval_decision" ∷ []

abbrev pub date_marker_kinds : List String
date_marker_kinds = "date_marker" ∷ []

abbrev pub metadata_title_request_kinds : List String
metadata_title_request_kinds = "title_request" ∷ []

abbrev pub metadata_title_response_kinds : List String
metadata_title_response_kinds = "title_response" ∷ []

abbrev pub ancestor_reference_kinds : List String
ancestor_reference_kinds = "ancestor_reference" ∷ []

abbrev pub harness_message_kinds : List String
harness_message_kinds = "harness_message" ∷ []

abbrev pub tool_choice_kinds : List String
tool_choice_kinds = "tool_choice" ∷ []

abbrev pub claimed_sets : List (List String)
claimed_sets =
    text_kinds ∷ quote_kinds ∷ code_kinds ∷ thinking_kinds ∷ tool_call_kinds ∷ tool_result_kinds
    ∷ tool_error_kinds ∷ status_kinds ∷ system_prompt_kinds ∷ streaming_kinds
    ∷ streaming_thinking_kinds ∷ streaming_tool_call_kinds ∷ approval_request_kinds
    ∷ approval_decision_kinds ∷ date_marker_kinds ∷ metadata_title_request_kinds
    ∷ metadata_title_response_kinds ∷ ancestor_reference_kinds ∷ harness_message_kinds
    ∷ tool_choice_kinds ∷ []

unfoldable pub claimed_kinds : List String
unfolding concat_kinds
claimed_kinds = concat_kinds claimed_sets

-- The macro `try_leaf!`: a leaf that claims the stored string takes the row.
unfoldable pub try_leaf : List String → String → BlockKind → BlockKind → BlockKind
unfolding contains_kind
try_leaf kinds stored leaf next = if contains_kind kinds stored then leaf else next

unfoldable pub from_block : Block → BlockKind
from_block block =
    let stored = block.block_type in
    try_leaf text_kinds stored (text (parse_text block)) (
      try_leaf quote_kinds stored (quote (parse_quote block)) (
        try_leaf code_kinds stored (code (parse_code block)) (
          try_leaf thinking_kinds stored (thinking (parse_thinking block)) (
            try_leaf tool_call_kinds stored (tool_call (parse_tool_call block)) (
              try_leaf tool_result_kinds stored (tool_result (parse_tool_result block)) (
                try_leaf tool_error_kinds stored (tool_error (parse_tool_error block)) (
                  try_leaf status_kinds stored (status (parse_status block)) (
                    try_leaf system_prompt_kinds stored (system_prompt (parse_system_prompt block))
                      (try_leaf streaming_kinds stored streaming (
                        try_leaf streaming_thinking_kinds stored streaming_thinking (
                          try_leaf streaming_tool_call_kinds stored streaming_tool_call (
                            try_leaf approval_request_kinds stored
                              (approval_request (parse_approval_request block))
                              (try_leaf approval_decision_kinds stored
                                (approval_decision (parse_approval_decision block))
                                (try_leaf date_marker_kinds stored
                                  (date_marker (parse_date_marker block))
                                  (try_leaf metadata_title_request_kinds stored
                                    (metadata_title_request (parse_title_request block))
                                    (try_leaf metadata_title_response_kinds stored
                                      metadata_title_response
                                      (try_leaf ancestor_reference_kinds stored
                                        (ancestor_reference (parse_ancestor_reference block))
                                        (try_leaf harness_message_kinds stored
                                          (harness_message (parse_harness_message block))
                                          (try_leaf tool_choice_kinds stored
                                            (tool_choice (parse_tool_choice block))
                                            (unknown (parse_unknown block)))))))))))))))))))))

unfoldable pub awaiting : BlockKind → Option Awaiting
awaiting (text t) = text_awaiting t
awaiting (quote q) = quote_awaiting q
awaiting (code c) = code_awaiting c
awaiting (tool_call c) = tool_call_awaiting c
awaiting (tool_result r) = tool_result_awaiting r
awaiting (tool_error e) = tool_error_awaiting e
awaiting (approval_request r) = some Awaiting.out_of_band
awaiting (approval_decision d) = some Awaiting.out_of_band
awaiting (metadata_title_request r) = some Awaiting.system
awaiting (harness_message m) = harness_message_awaiting m
awaiting _ = none

unfoldable pub durable : BlockKind → Bool
durable streaming = false
durable streaming_thinking = false
durable streaming_tool_call = false
durable _ = true

unfoldable pub frontier_transparent : BlockKind → Bool
frontier_transparent (tool_result r) = tool_result_transparent r
frontier_transparent (status s) = records_turn_end s
frontier_transparent (tool_choice c) = true
frontier_transparent _ = false

unfoldable pub heads_the_ledger : BlockKind → Bool
heads_the_ledger (system_prompt p) = true
heads_the_ledger _ = false
