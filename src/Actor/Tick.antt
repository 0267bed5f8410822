-- ===== src/Actor/Tick.antt =====
-- A tick of the scheduler that runs beside an actor: `scheduler_tick` of actor.rs, over the drive
-- and the walk.
use ronna_core.Prelude.{
  Bool, true, false, Option, none, some, List, [], ◌∷◌, ◌≡◌, ◌↔◌, refl, ap, ◌∙◌, if◌then◌else◌,
}
use ronna_core.Store.{Result, ok, err, LedgerSource}
use ronna_core.Agency.Interface.{RuntimeKind}
use ronna_core.Agency.Drive.{Outcome, Driven, ran, drive_ledger, is_conversation_gone}
use ronna_core.Agency.Redispatch.{walk}
use ronna_core.Actor.Handle.{SchedulerSignal}

-- What a tick tells the actor, and the outcome that it publishes.
pub record Tick : Type 0 where
  pub signals : List SchedulerSignal
  pub published : Option Outcome

abbrev pub rest : Tick
rest = record { signals = []; published = none }

abbrev pub gone : Tick
gone = record { signals = SchedulerSignal.conversation_gone ∷ []; published = none }

unfoldable pub signal_of : Outcome → List SchedulerSignal
signal_of o = if o.owes_turn then SchedulerSignal.owes_turn ∷ [] else []

module _ {K S : Type 0} (kind : RuntimeKind K S) (source : LedgerSource S) where
  -- Latched, the tick only asks whether the conversation is there.
  unfoldable pub tick_latched : Result Bool × S → Tick × S
  tick_latched (ok true, s) = (gone, s)
  tick_latched (ok false, s) = (rest, s)
  tick_latched (err e, s) = (rest, s)

  unfoldable pub tick_driven : Result Driven × S → Tick × S
  tick_driven (ok (ran o), s) =
      (record { signals = signal_of o; published = some o }, (walk kind source.list s).1)
  tick_driven (ok Driven.conversation_gone, s) = (gone, s)
  tick_driven (err e, s) = (rest, (walk kind source.list s).1)

  unfoldable pub scheduler_tick : Bool → S → Tick × S
  scheduler_tick latched s =
      if latched
      then tick_latched (is_conversation_gone kind source s)
      else tick_driven (drive_ledger kind source s)

  -- An unlatched tick whose drive ran to an outcome that owes a turn, and published it.
  pub record Owes (latched : Bool) (s : S) : Type 0 where
    pub unlatched : latched ≡ false
    pub reached : Outcome
    pub after : S
    pub drove : drive_ledger kind source s ≡ (ok (ran reached), after)
    pub owes : reached.owes_turn ≡ true
    pub told : (scheduler_tick latched s).0.published ≡ some reached

  -- The signal of an owed turn.
  IsOwed : Tick → Type 0
  IsOwed tick = tick.signals ≡ SchedulerSignal.owes_turn ∷ []

  latched-silent : (r : Result Bool × S) → ¬ IsOwed (tick_latched r).0
  unfolding tick_latched IsOwed
  latched-silent (ok true, s) e = cc
  latched-silent (ok false, s) e = cc
  latched-silent (err er, s) e = cc

  signal_of-owes : (o : Outcome) → signal_of o ≡ SchedulerSignal.owes_turn ∷ [] → o.owes_turn ≡ true
  unfolding signal_of
  signal_of-owes o = over o.owes_turn
    where
      over :
          (b : Bool)
          → (if b then SchedulerSignal.owes_turn ∷ [] else []) ≡ SchedulerSignal.owes_turn ∷ []
          → b ≡ true
      over true e = refl
      over false e = cc

  driven-Owes :
      (s : S) (r : Result Driven × S)
      → drive_ledger kind source s ≡ r
      → IsOwed (tick_driven r).0
      → Owes false s
  unfolding scheduler_tick tick_driven IsOwed
  driven-Owes s (ok (ran o), after) d e = record {
    unlatched = refl;
    reached = o;
    after = after;
    drove = d;
    owes = signal_of-owes o e;
    told = ap (λ r. (tick_driven r).0.published) d;
  }
  driven-Owes s (ok Driven.conversation_gone, after) d e = absurd (gone_first e)
    where
      gone_first : ¬ (SchedulerSignal.conversation_gone ∷ [] ≡ SchedulerSignal.owes_turn ∷ [])
      gone_first h = cc
  driven-Owes s (err er, after) d e = absurd (nothing e)
    where
      nothing : ¬ ([] ≡ SchedulerSignal.owes_turn ∷ [])
      nothing h = cc

  -- A tick signals that a turn is owed exactly when it is not latched and its drive ran to an
  -- outcome that owes one, which is then what it publishes.
  pub scheduler_tick-Owes :
      (latched : Bool) (s : S)
      → ((scheduler_tick latched s).0.signals ≡ SchedulerSignal.owes_turn ∷ []) ↔ Owes latched s
  unfolding scheduler_tick tick_driven signal_of IsOwed
  scheduler_tick-Owes true s = (
    λ e. absurd (latched-silent (is_conversation_gone kind source s) e),
    λ r. absurd (true-not_false r.unlatched),
  )
    where
      true-not_false : ¬ (true ≡ false)
      true-not_false e = cc
  scheduler_tick-Owes false s = (
    driven-Owes s (drive_ledger kind source s) refl,
    λ r.
        ap (λ d. (tick_driven d).0.signals) r.drove
        ∙ ap (λ b. if b then SchedulerSignal.owes_turn ∷ [] else []) r.owes,
  )
