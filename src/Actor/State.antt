-- ===== src/Actor/State.antt =====
-- The actor's state, its store and its provider.
use ronna_core.Prelude.{
  ℕ, String, Bool, Option, none, some, List, [], ◌∷◌, ◌++◌, str_eq, if◌then◌else◌, true, false,
}
use ronna_core.Block.{Block, Value}
use ronna_core.Store.{M, Result, ok, err, StoreError}
use ronna_core.Chat.Events.{StopReason}
use ronna_core.Event.{CoreEvent, InputBlock}
use ronna_core.Agency.Records.{ApprovalChoice}
use ronna_core.Ingestion.Reader.{Seam, new_seam}
use ronna_core.Render.{Message}
use ronna_core.Tools.Registry.{ToolDefinition, ToolRegistry}

-- How much a model reasons, with its key in the store: `ReasoningLevel` of providers/types.rs.
pub data ReasoningLevel : Type 0 where
  off auto minimal low medium high x_high max : ReasoningLevel

unfoldable pub as_key : ReasoningLevel → String
as_key ReasoningLevel.off = "off"
as_key ReasoningLevel.auto = "auto"
as_key ReasoningLevel.minimal = "minimal"
as_key ReasoningLevel.low = "low"
as_key ReasoningLevel.medium = "medium"
as_key ReasoningLevel.high = "high"
as_key ReasoningLevel.x_high = "xhigh"
as_key ReasoningLevel.max = "max"

unfoldable pub from_key : String → Option ReasoningLevel
from_key key =
    if str_eq key "off"
    then some ReasoningLevel.off
    else if str_eq key "auto"
    then some ReasoningLevel.auto
    else if str_eq key "minimal"
    then some ReasoningLevel.minimal
    else if str_eq key "low"
    then some ReasoningLevel.low
    else if str_eq key "medium"
    then some ReasoningLevel.medium
    else if str_eq key "high"
    then some ReasoningLevel.high
    else if str_eq key "xhigh"
    then some ReasoningLevel.x_high
    else if str_eq key "max"
    then some ReasoningLevel.max
    else none

-- `ProviderRequest`. The actor selects a model by its own id alone.
pub record StreamRequest : Type 0 where
  pub messages : List Message
  pub model : String
  pub tools : List ToolDefinition
  pub reasoning : Option ReasoningLevel
  pub response_schema : Option Value

pub data ProviderRequest : Type 0 where
  stream : StreamRequest → ProviderRequest
  interrupt : ProviderRequest

-- Of a conversation, what the actor reads.
pub record Conversation : Type 0 where
  pub provider_id : String
  pub external_id : String
  pub reasoning : Option String

-- The store, the runner and the providers as the actor calls them, for its conversation. A provider
-- channel is named by the generation that its bind was given. `bind` makes a module's channel and
-- the reader on it; `is_closed` and `send` are those of the channel.
pub record Outside (S : Type 0) : Type 0 where
  pub error_text : StoreError → String
  pub promote_draft : M S (List ℕ)
  pub insert_user_blocks : List InputBlock → M S (List ℕ)
  pub insert_call : Bool → String → String → String → M S ℕ
  pub submit_approval : ℕ → ApprovalChoice → Option String → Option String → M S ℕ
  pub delete_streaming_blocks : M S ℕ
  pub insert_status_block : Option ℕ → String → Option String → M S ℕ
  pub list_blocks : M S (List Block)
  pub cursor : M S (Option ℕ)
  pub find_conversation : M S (Option Conversation)
  pub find_provider_type : String → M S (Option String)
  pub has_module : String → Bool
  pub has_config : String → String → M S Bool
  pub bind : String → String → ℕ → S → S
  pub is_closed : ℕ → S → Bool
  pub send : ℕ → ProviderRequest → S → Bool × S
  pub registry : ToolRegistry
  pub consecutive_limit : ℕ

-- `ConversationActor`. The stream requests that a channel took and the events on the bus are kept
-- in order; `recheck` counts the nudges.
pub record ConversationActor : Type 0 where
  pub id : ℕ
  pub latched : Bool
  pub recheck : ℕ
  pub provider_tx : Option ℕ
  pub streaming : Bool
  pub owed_turn_deferred : Bool
  pub stream_generation : ℕ
  pub turn_anchor : Seam
  pub open_turn : Option ℕ
  pub answered_outcomes : ℕ
  pub stream_stop : Option StopReason
  pub emitted : List CoreEvent
  pub sent : List (ℕ × ProviderRequest)

-- An actor as `spawn` makes it: latched until it is released.
unfoldable pub new_actor : ℕ → ConversationActor
new_actor id = record {
  id = id;
  latched = true;
  recheck = 0;
  provider_tx = none;
  streaming = false;
  owed_turn_deferred = false;
  stream_generation = 0;
  turn_anchor = new_seam;
  open_turn = none;
  answered_outcomes = 0;
  stream_stop = none;
  emitted = [];
  sent = [];
}

abbrev pub Act : Type 0 → Type 0
Act S = ConversationActor → S → ConversationActor × S

unfoldable pub stay : {S : Type 0} → Act S
stay actor s = (actor, s)

unfoldable pub tried :
    {S A : Type 0}
    → (A → Act S)
    → (StoreError → Act S)
    → ConversationActor
    → Result A × S
    → ConversationActor × S
tried good bad actor (ok a, s) = good a actor s
tried good bad actor (err e, s) = bad e actor s

-- A call outside, and what is done with its answer.
unfoldable pub try_call : {S A : Type 0} → M S A → (A → Act S) → (StoreError → Act S) → Act S
try_call call good bad actor s = tried good bad actor (call s)

unfoldable pub tell : CoreEvent → ConversationActor → ConversationActor
tell event actor = record actor { emitted = actor.emitted ++ (event ∷ []) }
