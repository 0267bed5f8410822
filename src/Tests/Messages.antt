-- ===== src/Tests/Messages.antt =====
-- The messages of a ledger whose kinds are its rows.
use ronna_core.Prelude.{some, none, List, [], ◌∷◌, ◌≡◌, map, filter, is_some, All, refl, false}
use ronna_core.Block.{Role, Block}
use ronna_core.Render.{
  Projection, blocks_to_messages, message_of, MessageContent, MessageRole, ContentPart,
}
use ronna_core.Render.Runs.{runs, groups_of, IsUniform, blocks_to_messages_lem}
use ronna_core.Tests.Evaluated.{evaluated}
use ronna_core.Tests.Session.{row, ask, say, closed}

abbrev as_rows : Projection Block
as_rows = record {
  group_role = λ block. block.role;
  llm_parts = λ block. some (ContentPart.text block.block_type ∷ []);
  llm_text = λ block. some block.block_type;
  forces_parts = λ block. false;
}

abbrev exchange : List Block
exchange = row 1 (some Role.system) "prompt" none [] ∷ ask 2 ∷ ask 3 ∷ closed 4 ∷ say 5 ∷ []

blocks_to_messages_lem_example :
    (blocks_to_messages as_rows (λ block. block) exchange
      ≡ map (λ run. message_of as_rows run.0 run.1) (runs as_rows (map (λ block. block) exchange)))
    × (groups_of as_rows (runs as_rows (map (λ block. block) exchange))
        ≡ filter (λ k. is_some k.role) (map (λ block. block) exchange))
    × All (IsUniform as_rows) (runs as_rows (map (λ block. block) exchange))
blocks_to_messages_lem_example = blocks_to_messages_lem as_rows (λ block. block) exchange

three_messages :
    blocks_to_messages as_rows (λ block. block) exchange
    ≡ record { role = MessageRole.system; content = MessageContent.text "prompt" }
      ∷ record { role = MessageRole.user; content = MessageContent.text "text\n\ntext" }
      ∷ record { role = MessageRole.assistant; content = MessageContent.text "text" }
      ∷ []
unfolding evaluated
three_messages = refl
