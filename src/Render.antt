-- ===== src/Render.antt =====
-- How a ledger reads to the model: crates/agent-ledger/src/providers/render.rs, and the traits and
-- content of crates/agent-ledger/src/agency/projection.rs, over any kind that has a projection.
pub mod Runs
use Prim.Native.String.{◌++◌ as str_append}
use ronna_core.Prelude.{
  ℕ, zero, suc, String, Bool, true, false, not, ◌&&◌, Option, none, some, List, [], ◌∷◌, ◌++◌, map,
  str_eq, if◌then◌else◌, any, filter, filter_map, length,
}
use ronna_core.Block.{Role, Role-discrete, Block, Value}

-- The payload of a reasoning part is the JSON that serde decodes; an image's bytes are numbers.
pub data ContentPart : Type 0 where
  text : String → ContentPart
  reasoning : String → Option Value → ContentPart
  tool_use : String → String → Value → ContentPart
  tool_result : String → String → ContentPart
  image : String → List ℕ → ContentPart

pub record Projection (K : Type 0) : Type 0 where
  pub group_role : K → Option Role
  pub llm_parts : K → Option (List ContentPart)
  pub llm_text : K → Option String
  pub forces_parts : K → Bool

pub data MessageRole : Type 0 where
  system user assistant : MessageRole

pub data MessageContent : Type 0 where
  text : String → MessageContent
  parts : List ContentPart → MessageContent

pub record Message : Type 0 where
  pub role : MessageRole
  pub content : MessageContent

unfoldable pub message_role : Role → MessageRole
message_role Role.system = system
message_role Role.assistant = assistant
message_role Role.user = user
message_role Role.tool = user

-- `parts.join(separator)`
unfoldable pub join : String → List String → String
join separator [] = ""
join separator (s ∷ []) = s
join separator (s ∷ t ∷ rest) = str_append s (str_append separator (join separator (t ∷ rest)))

unfoldable pub flatten : List (List ContentPart) → List ContentPart
flatten [] = []
flatten (ps ∷ rest) = ps ++ flatten rest

is_role : Role → Option Role → Bool
is_role Role.user (some Role.user) = true
is_role Role.assistant (some Role.assistant) = true
is_role Role.system (some Role.system) = true
is_role Role.tool (some Role.tool) = true
is_role _ _ = false

module _ {K : Type 0} (projection : Projection K) where
  open projection use {group_role, llm_parts, llm_text, forces_parts}

  unfoldable pub text_content : List K → MessageContent
  text_content group =
      MessageContent.text
        (join "\n\n" (filter (λ s. not (str_eq s "")) (filter_map llm_text group)))

  unfoldable pub group_content : List K → MessageContent
  group_content group =
      if any forces_parts group
      then parts (flatten (filter_map llm_parts group))
      else text_content group

  unfoldable pub message_of : Role → List K → Message
  message_of role group = record { role = message_role role; content = group_content group }

  -- The inner loop: the kinds of the role at the front, and what follows them.
  unfoldable pub take_group : Role → List K → List K × List K
  unfolding is_role
  take_group role [] = ([], [])
  take_group role (k ∷ kinds) =
      let r = take_group role kinds in
      if is_role role (group_role k) then (k ∷ r.0, r.1) else ([], k ∷ kinds)

  -- A round of the outer loop, given what the rest of the loop does: a kind with no role is passed
  -- over, and one with a role starts a group.
  start_group : (List K → List Message) → K → List K → Option Role → List Message
  start_group next k kinds none = next kinds
  start_group next k kinds (some role) =
      let g = take_group role (k ∷ kinds) in message_of role g.0 ∷ next g.1

  round : (List K → List Message) → List K → List Message
  unfolding start_group
  round next [] = []
  round next (k ∷ kinds) = start_group next k kinds (group_role k)

  -- The outer loop on the kinds from the index on, with fuel.
  unfoldable pub message_loop : ℕ → List K → List Message
  unfolding round
  message_loop zero kinds = []
  message_loop (suc fuel) kinds = round (λ rest. message_loop fuel rest) kinds

  -- A round passes one kind at least, so the number of kinds is enough fuel.
  unfoldable pub blocks_to_messages : (Block → K) → List Block → List Message
  blocks_to_messages from_block blocks =
      let kinds = map from_block blocks in message_loop (length kinds) kinds

  unfoldable pub render_blocks_to_text : (Block → K) → List Block → MessageContent
  render_blocks_to_text from_block blocks = text_content (map from_block blocks)
