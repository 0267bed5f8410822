-- ===== src/Tests/Routes.antt =====
-- A scheduler's tick, and the reactor's mailboxes.
use ronna_core.Prelude.{true, false, ◌≡◌, ◌↔◌, refl, none, some, List, [], ◌∷◌}
use ronna_core.Store.{LedgerSource}
use ronna_core.Event.{CoreEvent}
use ronna_core.Agency.Interface.{RuntimeKind}
use ronna_core.Agency.Kinds.{BlockKind}
use ronna_core.Agency.Machine.{library_kind, conversation_ledger}
use ronna_core.Actor.Handle.{SchedulerSignal}
use ronna_core.Actor.Tick.{scheduler_tick, Owes, scheduler_tick-Owes}
use ronna_core.Actor.Reactor.{ActorEntry, route_event, mailbox_of}
use ronna_core.Actor.Reactor.Delivery.{mailbox_of-route_event}
use ronna_core.Tests.Evaluated.{evaluated}
use ronna_core.Tests.Session.{Session, session, ctx, ask, call}

abbrev kind : RuntimeKind BlockKind Session
kind = library_kind ctx

abbrev source : LedgerSource Session
source = conversation_ledger ctx

abbrev asked : Session
asked = session (ask 1 ∷ [])

-- A question owes a turn, unless the conversation is latched; a call that waits does not.
tick_asked : (scheduler_tick kind source false asked).0.signals ≡ SchedulerSignal.owes_turn ∷ []
unfolding evaluated
tick_asked = refl

tick_latched : (scheduler_tick kind source true asked).0.signals ≡ []
unfolding evaluated
tick_latched = refl

tick_parked : (scheduler_tick kind source false (session (ask 1 ∷ call 2 ∷ []))).0.signals ≡ []
unfolding evaluated
tick_parked = refl

tick_gone :
    (scheduler_tick kind source true (record asked { cursor = none })).0.signals
    ≡ SchedulerSignal.conversation_gone ∷ []
unfolding evaluated
tick_gone = refl

scheduler_tick-Owes_example :
    ((scheduler_tick kind source false asked).0.signals ≡ SchedulerSignal.owes_turn ∷ [])
    ↔ Owes kind source false asked
scheduler_tick-Owes_example = scheduler_tick-Owes kind source false asked

-- The first actor has ended.
abbrev routes : List ActorEntry
routes =
    record { conversation = 1; mailbox = []; is_closed = true }
    ∷ record { conversation = 2; mailbox = []; is_closed = false }
    ∷ []

routed :
    route_event (CoreEvent.interrupt_requested 1) routes
    ≡ record { conversation = 2; mailbox = []; is_closed = false }
      ∷ record {
        conversation = 1;
        mailbox = CoreEvent.interrupt_requested 1 ∷ [];
        is_closed = false;
      }
      ∷ []
unfolding evaluated
routed = refl

mailbox_of-route_event_example :
    mailbox_of 1 (route_event (CoreEvent.interrupt_requested 1) routes)
    ≡ some (CoreEvent.interrupt_requested 1 ∷ [])
unfolding evaluated
mailbox_of-route_event_example =
    mailbox_of-route_event (CoreEvent.interrupt_requested 1) 1 1 routes refl
