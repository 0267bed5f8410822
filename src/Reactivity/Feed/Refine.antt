-- ===== src/Reactivity/Feed/Refine.antt =====
-- The change log keeps the promise.
use ronna_core.Prelude.{ℕ, ◌≡◌, refl, ap, ◌∙◌, Option, none, some, List, [], ◌∷◌, length}
use ronna_core.Reactivity.Signals.{Wakeups}
use ronna_core.Reactivity.Changes.{ChangeLog, consumer, watcher, register, drain, new}
use ronna_core.Reactivity.Feed.{
  Call, pushes, takes_consumer, takes_watcher, drains, reacts, drops, elsewhere, handle, changes,
  call, run, Feed, placed, promise, promised, fresh,
}
use ronna_core.Reactivity.Feed.Buffers.{taken-deref}
use ronna_core.Reactivity.Feed.Tracks.{
  Tracks, none_ne_some, Tracks-fresh, unread-placed, placed_within, at_end, unread-dropped,
  unread-none, unread-some, Tracks-push, Tracks-register, Tracks-drain, Tracks-drain_watcher,
  Tracks-react, Tracks-drop_handle,
}

module _ {log : ChangeLog} {feed : Feed} (t : Tracks log feed) where
  drained_refines :
      (w : Wakeups) (scope : Option ℕ) (d : ℕ) (p : Option ℕ)
      → feed.position d ≡ p
      → (changes (drain w scope d log).1 ≡ (promise (drains scope d) feed).0)
        × Tracks (drain w scope d log).0 (promise (drains scope d) feed).1
  unfolding promise drain
  drained_refines w scope d none at =
      rw (at, promise)
        (
          ap changes (taken-deref d scope w log.consumers ∙ rw (t.queue d) (unread-none feed d at)),
          Tracks-drain_watcher t w scope d at,
        )
  drained_refines w scope d (some n) at =
      rw (at, promise)
        (
          ap changes
              (taken-deref d scope w log.consumers ∙ rw (t.queue d) (unread-some feed d n at)),
          Tracks-drain t w scope d n at,
        )

  -- The reply to one call, and the state after it.
  call_refines :
      (c : Call) (w : Wakeups)
      → ((call c log w).0 ≡ (promise c feed).0) × Tracks (call c log w).1 (promise c feed).1
  unfolding call promise consumer watcher register
  call_refines (pushes change) w = (refl, Tracks-push t change w)
  call_refines takes_consumer w = (
    ap handle t.next,
    Tracks-register t (some []) (placed feed.next (some (length feed.history)) feed.position)
        (placed_within feed feed.next (some (length feed.history)) (at_end feed) t.within)
        (unread-placed feed feed.next),
  )
  call_refines takes_watcher w = (
    ap handle t.next,
    Tracks-register t none (placed feed.next none feed.position)
        (placed_within feed feed.next none (λ n h. absurd (none_ne_some h)) t.within)
        (unread-dropped feed feed.next),
  )
  call_refines (drains scope d) w = drained_refines w scope d (feed.position d) refl
  call_refines (reacts scope d) w = (refl, Tracks-react t w scope d)
  call_refines (drops d) w = (refl, Tracks-drop_handle t d)
  call_refines (elsewhere w') w = (refl, t)

run_Tracks :
    (calls : List Call) (log : ChangeLog) (feed : Feed) (w : Wakeups)
    → Tracks log feed
    → run calls log w ≡ promised calls feed
unfolding run promised
run_Tracks [] log feed w t = refl
run_Tracks (c ∷ calls) log feed w t =
    let (reply, t') = call_refines t c w in
    rw reply (
      ap (λ rest. (promise c feed).0 ∷ rest)
        (run_Tracks calls (call c log w).1 (promise c feed).1 (call c log w).2 t'))

-- Whatever the holders of a new change log do, every call answers as the shared history promises:
-- a payload handle's drain returns exactly the changes pushed since it was registered or last
-- drained, in their order, whoever else drains, registers or drops a handle in between, and in
-- whatever scopes; a watcher and a dropped handle drain nothing.
pub run_refines : (calls : List Call) (w : Wakeups) → run calls new w ≡ promised calls fresh
unfolding new
run_refines calls w = run_Tracks calls new fresh w Tracks-fresh
