-- ===== src/Actor/Reactor.antt =====
-- The reactor that routes the bus to the actors: `route_event` of actor.rs, with `conversation_id`
-- of event.rs. An actor is known by its mailbox here, and by whether it has ended.
pub mod Delivery
use ronna_core.Prelude.{
  ℕ, Bool, true, false, not, Option, none, some, List, [], ◌∷◌, ◌++◌, ◌==◌, if◌then◌else◌, any,
  filter, map, ◌≡◌, refl,
}
use ronna_core.Actor.State.{Outside, ConversationActor, stay}
use ronna_core.Actor.Handle.{handle}
use ronna_core.Event.{CoreEvent}

-- The conversation of an event, if it is not of all.
unfoldable pub conversation_id : CoreEvent → Option ℕ
conversation_id (CoreEvent.conversation_created c) = some c
conversation_id (CoreEvent.title_updated c title) = some c
conversation_id (CoreEvent.stream_status c label subtitle) = some c
conversation_id (CoreEvent.stream_done c usage stop generation) = some c
conversation_id (CoreEvent.stream_error c error generation) = some c
conversation_id (CoreEvent.stream_closed c generation) = some c
conversation_id (CoreEvent.blocks_changed c block_id) = some c
conversation_id (CoreEvent.draft_promoted c) = some c
conversation_id (CoreEvent.blocks_appended c blocks) = some c
conversation_id (CoreEvent.tool_call_received c id name input) = some c
conversation_id (CoreEvent.approval_submitted c request decision system_reason user_reason) = some c
conversation_id (CoreEvent.tool_call_ready c call) = some c
conversation_id (CoreEvent.metadata_request_ready c request) = some c
conversation_id (CoreEvent.interrupt_requested c) = some c
conversation_id (CoreEvent.unlatch_requested c) = some c
conversation_id (CoreEvent.conversation_state c latched work_due awaiting) = some c
conversation_id CoreEvent.unlatch_all = none
conversation_id CoreEvent.conversations_changed = none

-- What the actor is sent of the bus: its `handles!` list.
unfoldable pub accepts : CoreEvent → Bool
accepts (CoreEvent.draft_promoted c) = true
accepts (CoreEvent.blocks_appended c blocks) = true
accepts (CoreEvent.tool_call_received c id name input) = true
accepts (CoreEvent.approval_submitted c request decision system_reason user_reason) = true
accepts (CoreEvent.interrupt_requested c) = true
accepts (CoreEvent.unlatch_requested c) = true
accepts CoreEvent.unlatch_all = true
accepts (CoreEvent.stream_done c usage stop generation) = true
accepts (CoreEvent.stream_error c error generation) = true
accepts (CoreEvent.stream_closed c generation) = true
accepts _ = false

pub record ActorEntry : Type 0 where
  pub conversation : ℕ
  pub mailbox : List CoreEvent
  pub is_closed : Bool

unfoldable pub spawn_actor_set : ℕ → ActorEntry
spawn_actor_set c = record { conversation = c; mailbox = []; is_closed = false }

unfoldable pub send_accepted : CoreEvent → ActorEntry → ActorEntry
send_accepted event entry =
    if accepts event then record entry { mailbox = entry.mailbox ++ (event ∷ []) } else entry

unfoldable pub send_to : ℕ → CoreEvent → ActorEntry → ActorEntry
send_to c event entry = if entry.conversation == c then send_accepted event entry else entry

-- A conversation without an actor gets one.
unfoldable pub with_entry : ℕ → List ActorEntry → List ActorEntry
with_entry c routes =
    if any (λ entry. entry.conversation == c) routes
    then routes
    else routes ++ (spawn_actor_set c ∷ [])

unfoldable pub route_live : Option ℕ → CoreEvent → List ActorEntry → List ActorEntry
route_live (some c) event routes = map (send_to c event) (with_entry c routes)
route_live none event routes = map (send_accepted event) routes

-- An actor that has ended is forgotten first.
unfoldable pub route_event : CoreEvent → List ActorEntry → List ActorEntry
route_event event routes =
    route_live (conversation_id event) event (filter (λ entry. not entry.is_closed) routes)

-- The first mailbox of a conversation.
unfoldable pub mailbox_of : ℕ → List ActorEntry → Option (List CoreEvent)
mailbox_of c [] = none
mailbox_of c (entry ∷ routes) =
    if entry.conversation == c then some entry.mailbox else mailbox_of c routes

-- An event that is not sent on to the actor is one that would change nothing: the actor's list of
-- events and its handler agree.
pub handle-accepts :
    {S : Type 0} (outside : Outside S) (event : CoreEvent) (actor : ConversationActor) (s : S)
    → accepts event ≡ false
    → handle outside event actor s ≡ (actor, s)
unfolding accepts handle stay
handle-accepts outside (CoreEvent.draft_promoted c) actor s h = cc
handle-accepts outside (CoreEvent.blocks_appended c blocks) actor s h = cc
handle-accepts outside (CoreEvent.tool_call_received c id name input) actor s h = cc
handle-accepts outside (CoreEvent.approval_submitted c request d system_reason user_reason) actor s
      h =
    cc
handle-accepts outside (CoreEvent.interrupt_requested c) actor s h = cc
handle-accepts outside (CoreEvent.unlatch_requested c) actor s h = cc
handle-accepts outside CoreEvent.unlatch_all actor s h = cc
handle-accepts outside (CoreEvent.stream_done c usage stop generation) actor s h = cc
handle-accepts outside (CoreEvent.stream_error c error generation) actor s h = cc
handle-accepts outside (CoreEvent.stream_closed c generation) actor s h = cc
handle-accepts outside _ actor s h = refl
