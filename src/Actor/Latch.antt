-- ===== src/Actor/Latch.antt =====
-- What stops the actor: the latch of an interrupt or an error, and the generation of its signals.
use ronna_core.Prelude.{
  ℕ, String, Bool, true, false, List, [], ◌∷◌, Option, some, ◌≡◌, refl, ap, ◌∙◌, if_lem, ◌&&◌, ◌||◌,
  not, ◌==◌, arith,
}
use ronna_core.Chat.Events.{Usage, StopReason}
use ronna_core.Event.{CoreEvent}
use ronna_core.Agency.Interface.{RuntimeKind}
use ronna_core.Ingestion.Reader.{mark_abandoned}
use ronna_core.Render.{Projection}
use ronna_core.Actor.State.{Outside, ConversationActor}
use ronna_core.Actor.Close.{CloseEdge, is_errored_edge, close_dispatch, after_close, release_stream}
use ronna_core.Actor.Dispatch.{handle_blocks_ready}
use ronna_core.Actor.Handle.{
  Signal, mail, scheduled, given_up, SchedulerSignal, owns_stream_signal, owned, mark_seam, handle,
  handle_interrupt, run,
}
use ronna_core.Actor.Facts.{
  Kept, releases, handle_lem, close_dispatch-flight, handle_interrupt-flight,
}
use ronna_core.Actor.Sends.{Calm, handle_blocks_ready_lem}
use ronna_core.Actor.Flight.{handle-sent}

-- No signal lets a latched actor go.
abbrev pub holds : List Signal → Bool
holds [] = true
holds (mail event ∷ signals) = not (releases event) && holds signals
holds (_ ∷ signals) = holds signals

-- An event that latches: an interrupt, or an error of the actor's own stream.
abbrev pub latches : CoreEvent → ConversationActor → Bool
latches (CoreEvent.interrupt_requested c) actor = true
latches (CoreEvent.stream_error c error generation) actor = owns_stream_signal generation actor
latches _ actor = false

-- Latched, with nothing sent since.
abbrev pub IsStopped : ConversationActor → ConversationActor → Type 0
IsStopped before a = (a.latched ≡ true) × (a.sent ≡ before.sent)

or-true : (b : Bool) → b || true ≡ true
or-true b = ground arith

and-not : {b c : Bool} → not b && c ≡ true → (b ≡ false) × (c ≡ true)
and-not e = ground arith

module _ {S : Type 0} (outside : Outside S) where
  latched-close :
      (edge : CloseEdge) (actor : ConversationActor) (s : S)
      → actor.latched ≡ true
      → (close_dispatch outside edge actor s).0.latched ≡ true
  unfolding after_close release_stream
  latched-close edge actor s on =
      ap (λ (k : Kept). k.latched) (close_dispatch-flight outside edge actor s)
      ∙ rw on (or-true (is_errored_edge edge))

  pub handle_interrupt-latched :
      (actor : ConversationActor) (s : S) → (handle_interrupt outside actor s).0.latched ≡ true
  unfolding after_close release_stream is_errored_edge
  handle_interrupt-latched actor s =
      ap (λ (k : Kept). k.latched) (handle_interrupt-flight outside actor s)

  handle-latched :
      (event : CoreEvent) (actor : ConversationActor) (s : S)
      → releases event ≡ false
      → actor.latched ≡ true
      → (handle outside event actor s).0.latched ≡ true
  handle-latched event actor s kept on =
      handle_lem outside (λ (r : ConversationActor × S). r.0.latched ≡ true) event actor s
        (λ a s' e. ap (λ (k : Kept). k.latched) e ∙ on) (λ r a s' e. cc)
        (λ _ edge. latched-close edge actor s on) (λ _. handle_interrupt-latched actor s)

  handle-latches :
      (event : CoreEvent) (actor : ConversationActor) (s : S)
      → latches event actor ≡ true
      → (handle outside event actor s).0.latched ≡ true
  unfolding handle owned after_close release_stream is_errored_edge
  handle-latches (CoreEvent.interrupt_requested c) actor s l = handle_interrupt-latched actor s
  handle-latches (CoreEvent.stream_error c error generation) actor s l =
      rw l (ap (λ (k : Kept). k.latched) (close_dispatch-flight outside CloseEdge.errored actor s))
  handle-latches _ actor s l = cc

  -- A signal of a stream that is not the actor's own changes nothing, of the actor or of its store.
  pub handle-stale :
      (c generation : ℕ) (usage : Option Usage) (stop : Option StopReason) (error : String)
      (actor : ConversationActor) (s : S)
      → (generation == actor.stream_generation) ≡ false
      → (handle outside (CoreEvent.stream_done c usage stop (some generation)) actor s ≡ (actor, s))
        × (handle outside (CoreEvent.stream_error c error (some generation)) actor s ≡ (actor, s))
        × (handle outside (CoreEvent.stream_closed c (some generation)) actor s ≡ (actor, s))
  unfolding handle owned owns_stream_signal
  handle-stale c generation usage stop error actor s stale =
      (rw stale refl, rw stale refl, rw stale refl)

module _ {K S : Type 0} (kind : RuntimeKind K S) (heads_the_ledger : K → Bool)
    (projection : Projection K) (outside : Outside S) where
  blocks_ready-IsStopped :
      (actor : ConversationActor) (s : S)
      → actor.latched ≡ true
      → IsStopped actor (handle_blocks_ready kind heads_the_ledger projection outside actor s).0
  blocks_ready-IsStopped actor s on =
      handle_blocks_ready_lem kind heads_the_ledger projection outside
        (λ (r : ConversationActor × S). IsStopped actor r.0) actor s
        (λ a s' e _. (ap (λ (k : Calm). k.latched) e ∙ on, ap (λ (k : Calm). k.sent) e))
        (λ _. (on, refl)) (λ a s' sent. contradiction a sent.unlatched)
    where
      contradiction : (a : ConversationActor) → actor.latched ≡ false → IsStopped actor a
      contradiction a off = cc

  -- A latched actor sends no request, and stays latched, over any run in which no draft is
  -- promoted, no block is appended and nothing asks for its release.
  pub run-IsStopped :
      (signals : List Signal) (actor : ConversationActor) (s : S)
      → holds signals ≡ true
      → actor.latched ≡ true
      → IsStopped actor (run kind heads_the_ledger projection outside signals actor s).0
  unfolding run mark_seam
  run-IsStopped [] actor s h on = (on, refl)
  run-IsStopped (mail event ∷ signals) actor s h on =
      let kept = and-not h in
      let after =
        run-IsStopped signals _ _ kept.1 (handle-latched outside event actor s kept.0 on) in
      (after.0, after.1 ∙ (handle-sent outside event actor s).0)
  run-IsStopped (scheduled SchedulerSignal.owes_turn ∷ signals) actor s h on =
      let one = blocks_ready-IsStopped actor s on in
      let after = run-IsStopped signals _ _ h one.0 in (after.0, after.1 ∙ one.1)
  run-IsStopped (given_up generation epoch ∷ signals) actor s h on =
      if_lem
        (λ (a : ConversationActor).
          IsStopped actor (run kind heads_the_ledger projection outside signals a s).0)
        (generation == actor.stream_generation)
        (run-IsStopped signals
          (record actor { turn_anchor = mark_abandoned epoch actor.turn_anchor }) s h on)
        (run-IsStopped signals actor s h on)
  run-IsStopped (scheduled SchedulerSignal.conversation_gone ∷ signals) actor s h on = (on, refl)

  -- After an interrupt, or an error of the stream that is the actor's own, the actor is latched and
  -- sends no request over any run in which no draft is promoted, no block is appended and nothing
  -- asks for its release.
  pub run-latches :
      (event : CoreEvent) (signals : List Signal) (actor : ConversationActor) (s : S)
      → latches event actor ≡ true
      → holds signals ≡ true
      → IsStopped actor
          (run kind heads_the_ledger projection outside (mail event ∷ signals) actor s).0
  unfolding run
  run-latches event signals actor s l h =
      let after = run-IsStopped signals _ _ h (handle-latches outside event actor s l) in
      (after.0, after.1 ∙ (handle-sent outside event actor s).0)
