-- ===== src/Reactivity/Signals.antt =====
-- Subscriber lists, scopes and signals (agent-ledger/src/reactivity.rs).
--
-- A `reactive!` scope is a number. `live` holds the scopes whose `Notify` has a strong reference,
-- and `permits` those for which `notify_one` stored a permit that `notified` has not taken yet.
pub mod Wakes
use ronna_core.Prelude.{
  ℕ, Bool, true, false, Option, none, some, List, [], ◌∷◌, ◌++◌, if◌then◌else◌, not, filter,
  contains,
}

pub record Wakeups : Type 0 where
  pub live : List ℕ
  pub permits : List ℕ

-- `Notify::notify_one` with nobody waiting: one permit is stored, however often it is called.
unfoldable pub notify_one : ℕ → Wakeups → Wakeups
notify_one scope w =
    if contains w.permits scope then w else record w { permits = scope ∷ w.permits }

-- `subscribe`: drop the entries whose scope is gone, then add the scope.
unfoldable pub subscribe : Wakeups → ℕ → List ℕ → List ℕ
subscribe w scope subs = filter (contains w.live) subs ++ (scope ∷ [])

-- `wake`: notify the live subscribers, in order, and keep only those.
unfoldable pub wake : List ℕ → Wakeups → List ℕ × Wakeups
wake [] w = ([], w)
wake (scope ∷ subs) w =
    let notified = wake subs (notify_one scope w) in
    let skipped = wake subs w in
    if contains w.live scope then (scope ∷ notified.0, notified.1) else skipped

-- `track`: the scope in effect, if there is one, is subscribed.
unfoldable pub track : Wakeups → Option ℕ → List ℕ → List ℕ × Bool
unfolding subscribe
track w none subs = (subs, false)
track w (some scope) subs = (subscribe w scope subs, true)

-- `track_required` as a release build runs it: the assertion is compiled out.
unfoldable pub track_required : Wakeups → Option ℕ → List ℕ → List ℕ
unfolding track
track_required w scope subs = (track w scope subs).0

pub record SignalInner {ℓ} (T : Type ℓ) : Type ℓ where
  pub value : T
  pub subscribers : List ℕ

module _ {ℓ} {T : Type ℓ} where
  unfoldable pub create_signal : T → SignalInner T
  create_signal initial = record { value = initial; subscribers = [] }

  -- `ReadSignal::get`
  unfoldable pub get : Wakeups → Option ℕ → SignalInner T → SignalInner T × T
  unfolding track
  get w scope s = (record s { subscribers = (track w scope s.subscribers).0 }, s.value)

  -- `WriteSignal::update`
  unfoldable pub update : (T → T) → SignalInner T → Wakeups → SignalInner T × Wakeups
  unfolding wake
  update mutate s w =
      let (subs, w') = wake s.subscribers w in
      (record { value = mutate s.value; subscribers = subs }, w')

  -- `WriteSignal::set`
  unfoldable pub set : T → SignalInner T → Wakeups → SignalInner T × Wakeups
  unfolding wake
  set value s w =
      let (subs, w') = wake s.subscribers w in (record { value = value; subscribers = subs }, w')

  -- `WriteSignal::set_if_changed`, with the comparison of `T: PartialEq`
  unfoldable pub set_if_changed :
      (T → T → Bool) → T → SignalInner T → Wakeups → SignalInner T × Wakeups
  unfolding set
  set_if_changed eq value s w = if not (eq s.value value) then set value s w else (s, w)

-- `DeferSignal`: its trigger wakes the subscribers, and `react` only registers.
pub record DeferSignal : Type 0 where
  pub subscribers : List ℕ

unfoldable pub trigger : DeferSignal → Wakeups → DeferSignal × Wakeups
unfolding wake
trigger s w = let (subs, w') = wake s.subscribers w in (record { subscribers = subs }, w')

unfoldable pub react : Wakeups → Option ℕ → DeferSignal → DeferSignal
unfolding track_required
react w scope s = record { subscribers = track_required w scope s.subscribers }
