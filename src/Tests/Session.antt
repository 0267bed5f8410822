-- ===== src/Tests/Session.antt =====
-- A store in memory with one conversation, whose calls all succeed, and the rows of its tests.
use ronna_core.Prelude.{ℕ, true, String, Option, none, some, List, [], ◌∷◌, ◌++◌, last?}
use ronna_core.Block.{Role, Block, Value, Items, Fields}
use ronna_core.Store.{ok}
use ronna_core.Agency.Machine.{AgencyCtx}
use ronna_core.Event.{CoreEvent}

pub record Session : Type 0 where
  pub ledger : List Block
  pub cursor : Option ℕ
  pub metadata : List Block
  pub metadata_cursor : Option ℕ
  pub emitted : List CoreEvent

abbrev pub ctx : AgencyCtx Session
ctx = record {
  conversation_id = 1;
  list_blocks = λ s. (ok s.ledger, s);
  latest_block = λ s. (ok (last? s.ledger), s);
  cursor = λ s. (ok s.cursor, s);
  update_cursor = λ id s. (ok tt, record s { cursor = some id });
  list_metadata_blocks = λ s. (ok s.metadata, s);
  latest_metadata_block = λ s. (ok (last? s.metadata), s);
  metadata_cursor = λ s. (ok s.metadata_cursor, s);
  update_metadata_cursor = λ id s. (ok tt, record s { metadata_cursor = some id });
  emit = λ event s. (ok tt, record s { emitted = s.emitted ++ (event ∷ []) });
}

abbrev pub row : ℕ → Option Role → String → Option ℕ → Fields → Block
row id role block_type anchor fields = record {
  id = id;
  role = role;
  block_type = block_type;
  created_at = "";
  dispatch_anchor = anchor;
  fields = fields;
}

abbrev pub ask : ℕ → Block
ask id = row id (some Role.user) "text" none (("content", Value.str "hi") ∷ [])

abbrev pub call : ℕ → Block
call id =
    row id (some Role.assistant) "tool_call" (some 1)
      (("tool_call_id", Value.str "c") ∷ ("name", Value.str "read") ∷ [])

abbrev pub answer : ℕ → ℕ → Block
answer id named = row id none "tool_result" (some 1) (("source_block_id", Value.uint named) ∷ [])

abbrev pub refuse : ℕ → ℕ → Block
refuse id named =
    row id none "tool_error" (some 1)
      (("source_block_id", Value.uint named) ∷ ("refusal", Value.bool true) ∷ [])

abbrev pub say : ℕ → Block
say id = row id (some Role.assistant) "text" (some 1) []

abbrev pub closed : ℕ → Block
closed id = row id none "status" (some 1) (("status", Value.str "turn_ended:closed") ∷ [])

abbrev pub request : ℕ → ℕ → Block
request id named = row id none "approval_request" none (("for_block_id", Value.uint named) ∷ [])

abbrev pub approve : ℕ → ℕ → Block
approve id named =
    row id none "approval_decision" none
      (("for_block_id", Value.uint named) ∷ ("decision", Value.str "approved") ∷ [])

abbrev pub title_request : ℕ → Block
title_request id = row id none "title_request" none []

abbrev pub title_response : ℕ → Block
title_response id = row id none "title_response" none []

items : List String → Items
items [] = Items.nil
items (name ∷ rest) = Items.cons (Value.str name) (items rest)

unfoldable pub tool_choice : ℕ → List String → Block
unfolding items
tool_choice id names = row id none "tool_choice" none (("names", Value.arr (items names)) ∷ [])

abbrev pub session : List Block → Session
session ledger = record {
  ledger = ledger;
  cursor = some 0;
  metadata = [];
  metadata_cursor = some 0;
  emitted = [];
}
