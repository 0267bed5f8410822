-- ===== src/Metadata/Outside.antt =====
-- The store, the providers and the clock as the metadata subsystem calls them, for its conversation
-- (agent-ledger/src/metadata.rs).
use ronna_core.Prelude.{ℕ, String, Bool, Option, List}
use ronna_core.Block.{Block, Value}
use ronna_core.Store.{M, Result, ok, err}
use ronna_core.Render.{Message}
use ronna_core.Tools.Registry.{ToolDefinition}
use ronna_core.Actor.State.{Conversation, ReasoningLevel}

-- `ModelSelector`, of which the title derivation uses the background model with its fallback.
pub data ModelSelector : Type 0 where
  specific lightweight : String → ModelSelector

-- `ProviderRequest::Stream`
pub record TitleStream : Type 0 where
  pub messages : List Message
  pub model : ModelSelector
  pub tools : List ToolDefinition
  pub reasoning : Option ReasoningLevel
  pub response_schema : Option Value

-- A provider channel is named by the generation of the bind that made it. `bind` also starts the
-- reader on it. The anchor comes first in `insert_response`, then the source block and the title.
pub record Outside (S : Type 0) : Type 0 where
  pub clock : S → ℕ
  pub block_count : M S ℕ
  pub has_metadata : String → M S Bool
  pub has_assistant_blocks : M S Bool
  pub list_blocks : M S (List Block)
  pub list_metadata_blocks : M S (List Block)
  pub metadata_dispatch_anchor : ℕ → M S (Option ℕ)
  pub insert_request : Option ℕ → M S ℕ
  pub insert_response : Option ℕ → Option ℕ → String → M S ℕ
  pub find_conversation : M S (Option Conversation)
  pub find_provider_type : String → M S (Option String)
  pub has_module : String → Bool
  pub has_config : String → String → M S Bool
  pub bind : String → String → ℕ → S → S
  pub is_closed : ℕ → S → Bool
  pub send : ℕ → TitleStream → S → Bool × S

-- `Result::unwrap_or`
abbrev pub ok_or {ℓ} : {A : Type ℓ} → Result A → A → A
ok_or (ok a) b = a
ok_or (err e) b = b
