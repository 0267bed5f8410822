-- ===== src/Actor/Flight.antt =====
-- What is in flight, what is sent and what is owed, over one event: `handle` of actor.rs.
pub mod Runs
use ronna_core.Prelude.{
  ℕ, ◌+◌, ◌≤◌, Bool, true, false, List, [], ◌∷◌, ◌++◌, Option, none, some, ◌≡◌, refl, sym, ap, ◌∙◌,
  ◌⊎◌, inl, inr, length, length-append, is_some, if_lem, if◌then◌else◌, subst, arith, ◌&&◌, ◌==◌,
}
use ronna_core.Event.{CoreEvent}
use ronna_core.Agency.Interface.{RuntimeKind}
use ronna_core.Ingestion.Reader.{Seam, mark_abandoned}
use ronna_core.Render.{Projection}
use ronna_core.Actor.State.{Outside, ConversationActor, ProviderRequest}
use ronna_core.Actor.Close.{CloseEdge, close_dispatch, after_close, release_stream}
use ronna_core.Actor.Dispatch.{handle_blocks_ready}
use ronna_core.Actor.Handle.{
  Signal, mail, scheduled, given_up, SchedulerSignal, unlatch, mark_seam, handle, handle_interrupt,
  run,
}
use ronna_core.Actor.Facts.{
  Kept, keep, flight, releases, closes, handle_lem, close_dispatch-flight, handle_interrupt-flight,
}
use ronna_core.Actor.Sends.{Calm, calm, Sent, handle_blocks_ready_lem}

-- A stream in flight has its channel and its open turn, and its seam names that turn.
abbrev pub IsFlight : Bool → Option ℕ → Option ℕ → Option ℕ → Type 0
IsFlight false channel turn anchor = Unit
IsFlight true channel turn anchor =
    (is_some channel ≡ true) × (is_some turn ≡ true) × (anchor ≡ turn)

unfoldable pub IsInFlight : ConversationActor → Type 0
IsInFlight actor =
    IsFlight actor.streaming actor.provider_tx actor.open_turn actor.turn_anchor.anchor

-- The mails that close what is in flight.
abbrev pub closings : List Signal → ℕ
closings [] = 0
closings (mail event ∷ signals) = (if closes event then 1 else 0) + closings signals
closings (_ ∷ signals) = closings signals

abbrev pub flag : Bool → ℕ
flag true = 1
flag false = 0

pub flag-le : (b : Bool) → flag b ≤ 1
flag-le true = omega arith
flag-le false = omega arith

-- The nudges given, and the one that is owed.
abbrev pub nudges : ConversationActor → ℕ
nudges actor = flag actor.owed_turn_deferred + actor.recheck

kept-IsInFlight : (a b : ConversationActor) → keep a ≡ keep b → IsInFlight b → IsInFlight a
unfolding IsInFlight
kept-IsInFlight a b e f =
    subst (λ (k : Kept). IsFlight k.streaming k.provider_tx k.open_turn k.turn_anchor.anchor)
      (sym e) f

pub down-IsInFlight : (a : ConversationActor) → a.streaming ≡ false → IsInFlight a
unfolding IsInFlight
down-IsInFlight a e =
    subst (λ b. IsFlight b a.provider_tx a.open_turn a.turn_anchor.anchor) (sym e) tt

module _ {S : Type 0} (outside : Outside S) where
  closed-down :
      (edge : CloseEdge) (actor : ConversationActor) (s : S)
      → (close_dispatch outside edge actor s).0.streaming ≡ false
  unfolding after_close release_stream
  closed-down edge actor s =
      ap (λ (k : Kept). k.streaming) (close_dispatch-flight outside edge actor s)

  cut-down :
      (actor : ConversationActor) (s : S) → (handle_interrupt outside actor s).0.streaming ≡ false
  unfolding after_close release_stream
  cut-down actor s = ap (λ (k : Kept). k.streaming) (handle_interrupt-flight outside actor s)

  pub handle-IsInFlight :
      (event : CoreEvent) (actor : ConversationActor) (s : S)
      → IsInFlight actor
      → IsInFlight (handle outside event actor s).0
  unfolding unlatch IsInFlight
  handle-IsInFlight event actor s f =
      handle_lem outside (λ (r : ConversationActor × S). IsInFlight r.0) event actor s
        (λ a s' e. kept-IsInFlight a actor e f) (λ _ a s' e. kept-IsInFlight a (unlatch actor) e f)
        (λ _ edge.
          down-IsInFlight (close_dispatch outside edge actor s).0 (closed-down edge actor s))
        (λ _. down-IsInFlight (handle_interrupt outside actor s).0 (cut-down actor s))

  -- No event sends a request; a stream that it ends is one that it closes.
  pub handle-sent :
      (event : CoreEvent) (actor : ConversationActor) (s : S)
      → let a = (handle outside event actor s).0 in
        (a.sent ≡ actor.sent)
        × (flag actor.streaming ≤ flag a.streaming + (if closes event then 1 else 0))
  unfolding unlatch after_close release_stream
  handle-sent event actor s =
      let Q = λ (r : ConversationActor × S).
        (r.0.sent ≡ actor.sent)
        × (flag actor.streaming ≤ flag r.0.streaming + (if closes event then 1 else 0)) in
      handle_lem outside Q event actor s
        (λ a s' e. (ap (λ (k : Kept). k.sent) e, kept a (ap (λ (k : Kept). k.streaming) e)))
        (λ _ a s' e. (ap (λ (k : Kept). k.sent) e, kept a (ap (λ (k : Kept). k.streaming) e)))
        (λ c edge.
          (ap (λ (k : Kept). k.sent) (close_dispatch-flight outside edge actor s), counted c _))
        (λ c. (ap (λ (k : Kept). k.sent) (handle_interrupt-flight outside actor s), counted c _))
    where
      counted :
          closes event ≡ true → (n : ℕ) → flag actor.streaming ≤ n + (if closes event then 1 else 0)
      counted c n = rw c (omega (arith, flag-le actor.streaming))

      kept :
          (a : ConversationActor)
          → a.streaming ≡ actor.streaming
          → flag actor.streaming ≤ flag a.streaming + (if closes event then 1 else 0)
      kept a e =
          subst (λ b. flag actor.streaming ≤ flag b + (if closes event then 1 else 0)) (sym e)
            (omega arith)

  pub handle-nudges :
      (event : CoreEvent) (actor : ConversationActor) (s : S)
      → nudges actor ≤ nudges (handle outside event actor s).0
  unfolding unlatch after_close release_stream
  handle-nudges event actor s =
      handle_lem outside (λ (r : ConversationActor × S). nudges actor ≤ nudges r.0) event actor s
        (λ a s' e. same a (ap nudges_of e)) (λ _ a s' e. same a (ap nudges_of e))
        (λ _ edge. same (close_dispatch outside edge actor s).0 (
          ap nudges_of (close_dispatch-flight outside edge actor s)
          ∙ settled actor.owed_turn_deferred))
        (λ _. same (handle_interrupt outside actor s).0 (
          ap nudges_of (handle_interrupt-flight outside actor s)
          ∙ settled actor.owed_turn_deferred))
    where
      nudges_of : Kept → ℕ
      nudges_of k = flag k.owed_turn_deferred + k.recheck

      settled :
          (b : Bool) → 0 + (if b then actor.recheck + 1 else actor.recheck) ≡ flag b + actor.recheck
      settled true = omega arith
      settled false = omega arith

      same : (a : ConversationActor) → nudges a ≡ nudges actor → nudges actor ≤ nudges a
      same a e = omega arith
