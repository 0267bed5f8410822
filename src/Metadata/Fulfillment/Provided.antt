-- ===== src/Metadata/Fulfillment/Provided.antt =====
-- What the store and the providers answer when a title is asked for, and on which channel a request
-- goes out.
use ronna_core.Prelude.{ℕ, ◌≡◌, true, false, some, List, ◌∷◌, ◌+◌, String, ◌+◌}
use ronna_core.Block.{Block}
use ronna_core.Store.{ok}
use ronna_core.Render.{Projection}
use ronna_core.Actor.State.{Conversation}
use ronna_core.Metadata.Outside.{Outside, TitleStream}
use ronna_core.Metadata.Fulfillment.{Fulfillment, title_request, title_source_blocks}

-- Every call finds what it asks for, there is prose to derive a title from, an open channel takes a
-- request, and a channel is open when it is bound and stays so over the reads before the request.
pub record Serves {K S : Type 0} (outside : Outside S) (from_kind : Block → K)
    (projection : Projection K) : Type 0 where
  pub prose :
      (s : S)
      → (blocks : List Block) × ((outside.list_blocks s).0 ≡ ok blocks)
        × (first : Block) × (rest : List Block) × (title_source_blocks from_kind projection blocks
            ≡ first ∷ rest)
  pub conversation :
      (s : S) → (conv : Conversation) × ((outside.find_conversation s).0 ≡ ok (some conv))
  pub typed :
      (id : String) (s : S)
      → (type : String) × ((outside.find_provider_type id s).0 ≡ ok (some type))
  pub known : (type : String) → outside.has_module type ≡ true
  pub configured : (type id : String) (s : S) → (outside.has_config type id s).0 ≡ ok true
  pub takes :
      (tx : ℕ) (request : TitleStream) (s : S)
      → outside.is_closed tx s ≡ false
      → (outside.send tx request s).0 ≡ true
  pub bound :
      (type id : String) (generation : ℕ) (s : S)
      → outside.is_closed generation (outside.bind type id generation s) ≡ false
  pub listing_keeps :
      (tx : ℕ) (s : S)
      → outside.is_closed tx s ≡ false
      → outside.is_closed tx (outside.list_blocks s).1 ≡ false
  pub finding_keeps :
      (tx : ℕ) (s : S)
      → outside.is_closed tx s ≡ false
      → outside.is_closed tx (outside.find_conversation s).1 ≡ false

-- The channel at hand, if it is open; otherwise the one that the next bind makes.
pub data IsChannel {S : Type 0} (outside : Outside S) (f : Fulfillment) (s : S) (tx : ℕ)
    : Type 0 where
  at_hand : f.provider_tx ≡ some tx → outside.is_closed tx s ≡ false → IsChannel outside f s tx
  fresh :
      ((held : ℕ) → f.provider_tx ≡ some held → outside.is_closed held s ≡ true)
      → tx ≡ f.turn.generation + 1
      → IsChannel outside f s tx

-- The state after the reads of the ledger and of the request's anchor.
abbrev pub read_state : {S : Type 0} → Outside S → ℕ → S → S
read_state outside id s = (outside.metadata_dispatch_anchor id (outside.list_metadata_blocks s).1).1

-- The request for a title of the rows and of the conversation that the store holds.
pub record IsTitleRequest {K S : Type 0} (outside : Outside S) (from_kind : Block → K)
    (projection : Projection K) (request : TitleStream) : Type 0 where
  pub s : S
  pub blocks : List Block
  pub listed : (outside.list_blocks s).0 ≡ ok blocks
  pub conv : Conversation
  pub found : (outside.find_conversation (outside.list_blocks s).1).0 ≡ ok (some conv)
  pub asks :
      request
      ≡ title_request from_kind projection (title_source_blocks from_kind projection blocks) conv
