-- ===== src/Reactivity/Loop.antt =====
-- The change-driven form of `reactive!`, with pushes in between its steps
-- (agent-ledger/src/reactivity.rs).
pub mod Keeps
pub mod Wait
use ronna_core.Prelude.{
  ℕ, ◌≡◌, Bool, true, false, Option, none, some, List, [], ◌∷◌, ◌++◌, filter, contains, not, ◌==◌,
}
use ronna_core.Reactivity.Signals.{Wakeups, notify_one}
use ronna_core.Reactivity.Changes.{
  ChangeEvent, Consumer, append_to, wake_scopes, subscribe_scope, taken, take_buffer,
}

-- Where one iteration of the loop stands.
pub data Phase : Type 0 where
  -- Between two iterations.
  idle : Phase
  -- The scope is made and in effect.
  scoped : ℕ → Phase
  -- Inside `drain`: the scope is subscribed, the queue not yet taken.
  tracked : ℕ → Phase
  -- The body runs for each change that is left.
  works : ℕ → List ChangeEvent → Phase
  -- At `scope.notified().await`.
  parked : ℕ → Phase

-- `waking`: a push appended its change and has not yet woken the scopes. `pushed` and `delivered`
-- record what was appended and what the body was run for.
pub record Loop : Type 0 where
  pub source : Consumer
  pub wakeups : Wakeups
  pub phase : Phase
  pub waking : Bool
  pub pushed : List ChangeEvent
  pub delivered : List ChangeEvent

unfoldable pub born : ℕ → Wakeups → Wakeups
born scope w = record w { live = scope ∷ w.live }

-- The scope goes out of use: its strong reference and its permit with it.
unfoldable pub scope_ends : ℕ → Wakeups → Wakeups
scope_ends scope w = record {
  live = filter (λ s. not (s == scope)) w.live;
  permits = filter (λ s. not (s == scope)) w.permits;
}

pub data Step : Loop → Loop → Type 0 where
  -- A new scope is not one that lives, and holds no permit.
  opens :
      {l : Loop} (scope : ℕ)
      → l.phase ≡ idle
      → contains l.wakeups.live scope ≡ false
      → contains l.wakeups.permits scope ≡ false
      → Step l (record l { wakeups = born scope l.wakeups; phase = scoped scope })
  tracks :
      {l : Loop} (scope : ℕ)
      → l.phase ≡ scoped scope
      → Step l (record l {
        source = subscribe_scope l.wakeups (some scope) l.source;
        phase = tracked scope;
      })
  takes :
      {l : Loop} (scope : ℕ)
      → l.phase ≡ tracked scope
      → Step l (record l { source = take_buffer l.source; phase = works scope (taken l.source) })
  handles :
      {l : Loop} (scope : ℕ) (change : ChangeEvent) (rest : List ChangeEvent)
      → l.phase ≡ works scope (change ∷ rest)
      → Step l (record l { phase = works scope rest; delivered = l.delivered ++ (change ∷ []) })
  parks :
      {l : Loop} (scope : ℕ) → l.phase ≡ works scope [] → Step l (record l { phase = parked scope })
  resumes :
      {l : Loop} (scope : ℕ)
      → l.phase ≡ parked scope
      → contains l.wakeups.permits scope ≡ true
      → Step l (record l { wakeups = scope_ends scope l.wakeups; phase = idle })
  -- A push from another task, under the registry's lock: the queue takes the change ...
  appends :
      {l : Loop} (change : ChangeEvent)
      → l.waking ≡ false
      → Step l (record l {
        source = append_to change l.source;
        waking = true;
        pushed = l.pushed ++ (change ∷ []);
      })
  -- ... and then the scopes are woken.
  wakes :
      {l : Loop}
      → l.waking ≡ true
      → Step l (record l {
        source = (wake_scopes l.source l.wakeups).0;
        wakeups = (wake_scopes l.source l.wakeups).1;
        waking = false;
      })
  -- Another source notifies some scope.
  stirs : {l : Loop} (scope : ℕ) → Step l (record l { wakeups = notify_one scope l.wakeups })

pub data Reach : Loop → Loop → Type 0 where
  stays : {l : Loop} → Reach l l
  further : {l m n : Loop} → Reach l m → Step m n → Reach l n

-- A loop over a consumer that was just registered.
unfoldable pub started : ℕ → Wakeups → Loop
started id w = record {
  source = record { id = id; held = true; buffer = some []; subscribers = [] };
  wakeups = w;
  phase = idle;
  waking = false;
  pushed = [];
  delivered = [];
}
