-- ===== src/Agency/Words.antt =====
-- The kinds that carry words: crates/agent-ledger/src/agency/{text, quote, code, thinking,
-- system_prompt, harness_message, date_marker}.rs.
use ronna_core.Prelude.{String, Option, some}
use ronna_core.Block.{Role, Block, Value, get}
use ronna_core.Agency.Fields.{string_field, optional_string_field}
use ronna_core.Agency.Awaiting.{Awaiting, user_asks}

pub record Text : Type 0 where
  pub role : Option Role
  pub content : String

unfoldable pub parse_text : Block → Text
parse_text block = record { role = block.role; content = string_field block "content" }

unfoldable pub text_awaiting : Text → Option Awaiting
text_awaiting text = user_asks text.role

pub record Quote : Type 0 where
  pub role : Option Role
  pub text : String

unfoldable pub parse_quote : Block → Quote
parse_quote block = record { role = block.role; text = string_field block "text" }

unfoldable pub quote_awaiting : Quote → Option Awaiting
quote_awaiting quote = user_asks quote.role

pub record Code : Type 0 where
  pub role : Option Role
  pub language : Option String
  pub content : String

unfoldable pub parse_code : Block → Code
parse_code block = record {
  role = block.role;
  language = optional_string_field block "language";
  content = string_field block "content";
}

unfoldable pub code_awaiting : Code → Option Awaiting
code_awaiting code = user_asks code.role

-- The opaque payload is kept as the JSON that serde decodes.
pub record Thinking : Type 0 where
  pub role : Option Role
  pub content : String
  pub opaque : Option Value

unfoldable pub parse_thinking : Block → Thinking
parse_thinking block = record {
  role = block.role;
  content = string_field block "content";
  opaque = get block.fields "opaque";
}

pub record SystemPrompt : Type 0 where
  pub role : Option Role
  pub content : String

unfoldable pub parse_system_prompt : Block → SystemPrompt
parse_system_prompt block = record { role = block.role; content = string_field block "content" }

pub record HarnessMessage : Type 0 where
  pub role : Option Role
  pub content : String

unfoldable pub parse_harness_message : Block → HarnessMessage
parse_harness_message block = record { role = block.role; content = string_field block "content" }

unfoldable pub harness_message_awaiting : HarnessMessage → Option Awaiting
harness_message_awaiting message = some Awaiting.model

pub record DateMarker : Type 0 where
  pub date : String
  pub tz_abbrev : Option String
  pub tz_name : Option String
  pub written_at : Option String

unfoldable pub parse_date_marker : Block → DateMarker
parse_date_marker block = record {
  date = string_field block "date";
  tz_abbrev = optional_string_field block "tz_abbrev";
  tz_name = optional_string_field block "tz_name";
  written_at = optional_string_field block "written_at";
}
