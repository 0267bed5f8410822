-- ===== src/Actor/Flight/Runs.antt =====
-- Over the runs of the actor: what is in flight, how often it sends, and that no owed turn is
-- forgotten.
use ronna_core.Prelude.{
  ℕ, ◌+◌, ◌≤◌, Bool, true, false, List, [], ◌∷◌, ◌++◌, some, ◌≡◌, sym, ap, ◌∙◌, inl, inr, length,
  length-append, is_some, if_lem, subst, arith, ◌==◌,
}
use ronna_core.Agency.Interface.{RuntimeKind}
use ronna_core.Ingestion.Reader.{mark_abandoned}
use ronna_core.Render.{Projection}
use ronna_core.Actor.State.{Outside, ConversationActor, ProviderRequest}
use ronna_core.Actor.Dispatch.{handle_blocks_ready}
use ronna_core.Actor.Handle.{Signal, mail, scheduled, given_up, SchedulerSignal, mark_seam, run}
use ronna_core.Actor.Sends.{Calm, calm, handle_blocks_ready_lem}
use ronna_core.Actor.Flight.{
  IsFlight, IsInFlight, closings, flag, flag-le, nudges, down-IsInFlight, handle-IsInFlight,
  handle-sent, handle-nudges,
}

module _ {K S : Type 0} (kind : RuntimeKind K S) (heads_the_ledger : K → Bool)
    (projection : Projection K) (outside : Outside S) where
  blocks_ready-IsInFlight :
      (actor : ConversationActor) (s : S)
      → IsInFlight actor
      → IsInFlight (handle_blocks_ready kind heads_the_ledger projection outside actor s).0
  unfolding IsInFlight
  blocks_ready-IsInFlight actor s f =
      handle_blocks_ready_lem kind heads_the_ledger projection outside
        (λ (r : ConversationActor × S). IsInFlight r.0) actor s
        (λ a s' e i. elim i [
          | inl h ↦ subst IsInFlight (sym h) f
          | inr h ↦ down-IsInFlight a (ap (λ (k : Calm). k.streaming) e ∙ h)
        ])
        (λ _. f)
        (λ a s' sent.
          up a sent.bound sent.opened sent.anchored (ap (λ (k : Calm). k.streaming) sent.becomes))
    where
      up :
          (a : ConversationActor) {tx turn : ℕ}
          → a.provider_tx ≡ some tx
          → a.open_turn ≡ some turn
          → a.turn_anchor.anchor ≡ a.open_turn
          → a.streaming ≡ true
          → IsInFlight a
      up a bound opened anchored on =
          subst (λ b. IsFlight b a.provider_tx a.open_turn a.turn_anchor.anchor) (sym on)
            (ap is_some bound, ap is_some opened, anchored)

  -- At every point of every run a stream in flight has its channel and its open turn, and the seam
  -- that its reader stamps rows with names that turn.
  pub run-IsInFlight :
      (signals : List Signal) (actor : ConversationActor) (s : S)
      → IsInFlight actor
      → IsInFlight (run kind heads_the_ledger projection outside signals actor s).0
  unfolding run mark_seam mark_abandoned IsInFlight
  run-IsInFlight [] actor s f = f
  run-IsInFlight (mail event ∷ signals) actor s f =
      run-IsInFlight signals _ _ (handle-IsInFlight outside event actor s f)
  run-IsInFlight (scheduled SchedulerSignal.owes_turn ∷ signals) actor s f =
      run-IsInFlight signals _ _ (blocks_ready-IsInFlight actor s f)
  run-IsInFlight (given_up generation epoch ∷ signals) actor s f =
      run-IsInFlight signals _ s (if_lem IsInFlight (generation == actor.stream_generation) f f)
  run-IsInFlight (scheduled SchedulerSignal.conversation_gone ∷ signals) actor s f = f

  blocks_ready-sent :
      (actor : ConversationActor) (s : S)
      → let a = (handle_blocks_ready kind heads_the_ledger projection outside actor s).0 in
        length a.sent + flag actor.streaming ≤ length actor.sent + flag a.streaming
  blocks_ready-sent actor s =
      handle_blocks_ready_lem kind heads_the_ledger projection outside
        (λ (r : ConversationActor × S).
          length r.0.sent + flag actor.streaming ≤ length actor.sent + flag r.0.streaming)
        actor s (λ a s' e _. kept a e) (λ _. omega arith)
        (λ a s' sent. took a _ sent.free sent.becomes)
    where
      kept :
          (a : ConversationActor)
          → calm a ≡ calm actor
          → length a.sent + flag actor.streaming ≤ length actor.sent + flag a.streaming
      kept a e =
          subst
            (λ (k : Calm).
              length k.sent + flag actor.streaming ≤ length actor.sent + flag k.streaming)
            (sym e) (omega arith)

      took :
          (a : ConversationActor) (request : ℕ × ProviderRequest)
          → actor.streaming ≡ false
          → calm a ≡ record (calm actor) { streaming = true; sent = actor.sent ++ (request ∷ []) }
          → length a.sent + flag actor.streaming ≤ length actor.sent + flag a.streaming
      took a request free e =
          subst
            (λ (k : Calm).
              length k.sent + flag actor.streaming ≤ length actor.sent + flag k.streaming)
            (sym e)
            (subst (λ b. length (actor.sent ++ (request ∷ [])) + flag b ≤ length actor.sent + 1)
              (sym free) (omega (arith, length-append actor.sent (request ∷ []))))

  -- One turn is in flight at a time: over any run the requests sent are at most one for each mail
  -- that closes a stream, and one more when none was in flight before and one is after.
  pub run-sent :
      (signals : List Signal) (actor : ConversationActor) (s : S)
      → let a = (run kind heads_the_ledger projection outside signals actor s).0 in
        length a.sent + flag actor.streaming
        ≤ length actor.sent + flag a.streaming + closings signals
  unfolding run mark_seam
  run-sent [] actor s = omega arith
  run-sent (mail event ∷ signals) actor s =
      let one = handle-sent outside event actor s in
      omega (arith, one.1, ap length one.0, run-sent signals _ _)
  run-sent (scheduled SchedulerSignal.owes_turn ∷ signals) actor s =
      omega (arith, blocks_ready-sent actor s, run-sent signals _ _)
  run-sent (given_up generation epoch ∷ signals) actor s =
      if_lem
        (λ (a : ConversationActor).
          length (run kind heads_the_ledger projection outside signals a s).0.sent
            + flag actor.streaming
          ≤ length actor.sent
            + flag (run kind heads_the_ledger projection outside signals a s).0.streaming
            + closings signals)
        (generation == actor.stream_generation) (run-sent signals _ s) (run-sent signals _ s)
  run-sent (scheduled SchedulerSignal.conversation_gone ∷ signals) actor s = omega arith

  blocks_ready-nudges :
      (actor : ConversationActor) (s : S)
      → nudges actor
        ≤ nudges (handle_blocks_ready kind heads_the_ledger projection outside actor s).0
  blocks_ready-nudges actor s =
      handle_blocks_ready_lem kind heads_the_ledger projection outside
        (λ (r : ConversationActor × S). nudges actor ≤ nudges r.0) actor s (λ a s' e _. calmed a e)
        (λ _. omega (arith, flag-le actor.owed_turn_deferred))
        (λ a s' sent. deferred a sent.becomes)
    where
      calmed : (a : ConversationActor) → calm a ≡ calm actor → nudges actor ≤ nudges a
      calmed a e =
          subst (λ (k : Calm). nudges actor ≤ flag k.owed_turn_deferred + k.recheck) (sym e)
            (omega arith)

      deferred :
          (a : ConversationActor) {sent : List (ℕ × ProviderRequest)}
          → calm a ≡ record (calm actor) { streaming = true; sent = sent }
          → nudges actor ≤ nudges a
      deferred a e =
          subst (λ (k : Calm). nudges actor ≤ flag k.owed_turn_deferred + k.recheck) (sym e)
            (omega arith)

  -- No owed turn is forgotten: the nudges given to the scheduler and the one that a dispatch in
  -- flight holds back do not decrease over any run.
  pub run-nudges :
      (signals : List Signal) (actor : ConversationActor) (s : S)
      → nudges actor ≤ nudges (run kind heads_the_ledger projection outside signals actor s).0
  unfolding run mark_seam
  run-nudges [] actor s = omega arith
  run-nudges (mail event ∷ signals) actor s =
      omega (arith, handle-nudges outside event actor s, run-nudges signals _ _)
  run-nudges (scheduled SchedulerSignal.owes_turn ∷ signals) actor s =
      omega (arith, blocks_ready-nudges actor s, run-nudges signals _ _)
  run-nudges (given_up generation epoch ∷ signals) actor s =
      if_lem
        (λ (a : ConversationActor).
          nudges actor ≤ nudges (run kind heads_the_ledger projection outside signals a s).0)
        (generation == actor.stream_generation) (run-nudges signals _ s) (run-nudges signals _ s)
  run-nudges (scheduled SchedulerSignal.conversation_gone ∷ signals) actor s = omega arith
