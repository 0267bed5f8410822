-- ===== src/Ingestion/Rows.antt =====
-- The rows that a reader writes: the statements of store/messages.rs that it calls, on a list of
-- rows, oldest first.
--
-- Ids are given out upwards, as SQLite gives them out to the rows of one process. All rows here
-- have the assistant's role, but a status, which has none, and those of others. Times are left out.
use ronna_core.Prelude.{
  ℕ, suc, String, Bool, true, false, not, ◌&&◌, Option, none, some, List, [], ◌∷◌, ◌++◌, ◌==◌, map,
  filter, find, bind, get_or, any, if◌then◌else◌,
}
use Prim.Native.String.{◌++◌ as str_append}
use ronna_core.Chat.Events.{OpaquePayload}

-- A `block_type` and the row of its content table. An `outcome` is a row of another writer, a
-- result or an error, that names the call it answers.
pub data Content : Type 0 where
  text streaming : String → Content
  thinking : String → Option String → Option OpaquePayload → Content
  streaming_thinking : String → Option String → Content
  tool_call : String → String → String → Bool → Content
  streaming_tool_call : String → String → String → Content
  status : String → Option String → Content
  outcome : ℕ → Content
  foreign : Content

pub record Row : Type 0 where
  pub id : ℕ
  pub conversation_id : ℕ
  pub dispatch_anchor : Option ℕ
  pub content : Content

pub record Rows : Type 0 where
  pub next_id : ℕ
  pub rows : List Row

-- The types that a descriptor marks as ephemeral, those of the library's own kinds.
unfoldable pub is_ephemeral : Content → Bool
is_ephemeral (Content.streaming content) = true
is_ephemeral (Content.streaming_thinking content summary) = true
is_ephemeral (Content.streaming_tool_call id name input) = true
is_ephemeral _ = false

-- `BlockDestination`
pub record Destination : Type 0 where
  pub conversation_id : ℕ
  pub dispatch_anchor : Option ℕ

unfoldable pub delete_streaming_counterpart : ℕ → List Row → List Row
delete_streaming_counterpart id rows =
    filter (λ row. not ((row.id == id) && is_ephemeral row.content)) rows

unfoldable pub replace_streaming : Option ℕ → List Row → List Row
replace_streaming none rows = rows
replace_streaming (some id) rows = delete_streaming_counterpart id rows

-- One transaction: the header, the content, and the tail that the row replaces.
unfoldable pub insert_block : Destination → Content → Option ℕ → Rows → ℕ × Rows
insert_block dest content replaces ledger = (
  ledger.next_id,
  record {
    next_id = suc ledger.next_id;
    rows = replace_streaming replaces (
        ledger.rows
        ++ (record {
          id = ledger.next_id;
          conversation_id = dest.conversation_id;
          dispatch_anchor = dest.dispatch_anchor;
          content = content;
        }
            ∷ []));
  },
)

unfoldable pub insert_streaming_block : Destination → Rows → ℕ × Rows
insert_streaming_block dest = insert_block dest (Content.streaming "") none

unfoldable pub insert_streaming_thinking_block : Destination → Rows → ℕ × Rows
insert_streaming_thinking_block dest = insert_block dest (Content.streaming_thinking "" none) none

unfoldable pub insert_streaming_tool_call_block : Destination → String → String → Rows → ℕ × Rows
insert_streaming_tool_call_block dest id name =
    insert_block dest (Content.streaming_tool_call id name "") none

unfoldable pub insert_final_text_block : Destination → String → Option ℕ → Rows → ℕ × Rows
insert_final_text_block dest content replaces = insert_block dest (Content.text content) replaces

unfoldable pub insert_thinking_block_with_content :
    Destination → String → Option String → Option OpaquePayload → Option ℕ → Rows → ℕ × Rows
insert_thinking_block_with_content dest content summary opaque replaces =
    insert_block dest (Content.thinking content summary opaque) replaces

unfoldable pub insert_tool_call_block :
    Destination → String → String → String → Bool → Option ℕ → Rows → ℕ × Rows
insert_tool_call_block dest id name input interactive replaces =
    insert_block dest (Content.tool_call id name input interactive) replaces

unfoldable pub insert_status_block : Destination → String → Option String → Rows → ℕ × Rows
insert_status_block dest label subtitle = insert_block dest (Content.status label subtitle) none

-- An `UPDATE` by id: of the rows of that id, those in the statement's table change.
unfoldable pub update_row : ℕ → (Content → Content) → Rows → Unit {0} × Rows
update_row id change ledger = (
  tt,
  record ledger {
    rows =
        map (λ row. if row.id == id then record row { content = change row.content } else row)
          ledger.rows;
  },
)

unfoldable pub append_text : String → Content → Content
append_text more (Content.text content) = Content.text (str_append content more)
append_text more (Content.streaming content) = Content.streaming (str_append content more)
append_text more other = other

unfoldable pub append_thinking : String → Content → Content
append_thinking more (Content.thinking content summary opaque) =
    Content.thinking (str_append content more) summary opaque
append_thinking more (Content.streaming_thinking content summary) =
    Content.streaming_thinking (str_append content more) summary
append_thinking more other = other

unfoldable pub append_summary : String → Content → Content
append_summary more (Content.thinking content summary opaque) =
    Content.thinking content (some (str_append (get_or summary "") more)) opaque
append_summary more (Content.streaming_thinking content summary) =
    Content.streaming_thinking content (some (str_append (get_or summary "") more))
append_summary more other = other

unfoldable pub append_input : String → Content → Content
append_input more (Content.streaming_tool_call id name input) =
    Content.streaming_tool_call id name (str_append input more)
append_input more other = other

find_row : ℕ → Rows → Option Row
find_row id ledger = find (λ row. row.id == id) ledger.rows

text_of : Content → Option String
text_of (Content.text content) = some content
text_of (Content.streaming content) = some content
text_of _ = none

channels_of : Content → Option (String × Option String)
channels_of (Content.thinking content summary opaque) = some (content, summary)
channels_of (Content.streaming_thinking content summary) = some (content, summary)
channels_of _ = none

input_of : Content → Option String
input_of (Content.streaming_tool_call id name input) = some input
input_of _ = none

-- `get_block_content(id, "block_text")`
unfoldable pub get_block_content : ℕ → Rows → Option String × Rows
unfolding find_row text_of
get_block_content id ledger = (bind (find_row id ledger) (λ row. text_of row.content), ledger)

unfoldable pub get_thinking_block_channels : ℕ → Rows → Option (String × Option String) × Rows
unfolding find_row channels_of
get_thinking_block_channels id ledger =
    (bind (find_row id ledger) (λ row. channels_of row.content), ledger)

unfoldable pub get_streaming_tool_call_input : ℕ → Rows → Option String × Rows
unfolding find_row input_of
get_streaming_tool_call_input id ledger =
    (bind (find_row id ledger) (λ row. input_of row.content), ledger)

unfoldable pub discard_streaming_block : ℕ → Rows → Unit {0} × Rows
discard_streaming_block id ledger =
    (tt, record ledger { rows = delete_streaming_counterpart id ledger.rows })

unfoldable pub delete_streaming_blocks : ℕ → Rows → Unit {0} × Rows
delete_streaming_blocks conversation ledger = (
  tt,
  record ledger {
    rows =
        filter (λ row. not (is_ephemeral row.content && (row.conversation_id == conversation)))
          ledger.rows;
  },
)

is_outcome_of : ℕ → Content → Bool
is_outcome_of call (Content.outcome named) = named == call
is_outcome_of call _ = false

-- `resolved_in` of a call, over the listed rows of a conversation.
unfoldable pub is_resolved : ℕ → ℕ → Rows → Bool × Rows
unfolding is_outcome_of
is_resolved conversation call ledger = (
  any (λ row. (row.conversation_id == conversation) && is_outcome_of call row.content) ledger.rows,
  ledger,
)
