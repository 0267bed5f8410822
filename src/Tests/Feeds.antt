-- ===== src/Tests/Feeds.antt =====
-- Change logs and loops over them, at concrete changes.
use ronna_core.Prelude.{ℕ, true, false, none, some, List, [], ◌∷◌, ◌≡◌, refl, ◌⊎◌, contains}
use ronna_core.Reactivity.Signals.{Wakeups}
use ronna_core.Reactivity.Changes.{ChangeEvent, new}
use ronna_core.Reactivity.Feed.{
  Call, pushes, takes_consumer, takes_watcher, drains, drops, done, handle, changes, run, promised,
  fresh,
}
use ronna_core.Reactivity.Feed.Refine.{run_refines}
use ronna_core.Reactivity.Loop.{
  Loop, Reach, started, opens, tracks, takes, handles, parks, resumes, appends, wakes, stays,
  further, parked,
}
use ronna_core.Reactivity.Loop.Wait.{wait_delivered}
use ronna_core.Tests.Evaluated.{evaluated}

abbrev change : ℕ → ChangeEvent
change row = record { action = 18; table = "message_blocks"; rowid = row }

abbrev asleep : Wakeups
asleep = record { live = 4 ∷ []; permits = [] }

-- A consumer, a watcher and a later consumer, one of which is dropped.
abbrev calls : List Call
calls =
    takes_consumer
    ∷ pushes (change 1)
    ∷ takes_watcher
    ∷ takes_consumer
    ∷ pushes (change 2)
    ∷ drains (some 4) 0
    ∷ drains none 1
    ∷ pushes (change 3)
    ∷ drains none 2
    ∷ drops 2
    ∷ pushes (change 4)
    ∷ drains none 2
    ∷ drains (some 4) 0
    ∷ []

replies :
    run calls new asleep
    ≡ handle 0
      ∷ done
      ∷ handle 1
      ∷ handle 2
      ∷ done
      ∷ changes (change 1 ∷ change 2 ∷ [])
      ∷ changes []
      ∷ done
      ∷ changes (change 2 ∷ change 3 ∷ [])
      ∷ done
      ∷ done
      ∷ changes []
      ∷ changes (change 3 ∷ change 4 ∷ [])
      ∷ []
unfolding evaluated
replies = refl

run_refines_example : run calls new asleep ≡ promised calls fresh
run_refines_example = run_refines calls asleep

-- One change arrives while the loop is parked in scope 5, and is handled in scope 6.
abbrev parked_again : Loop
parked_again = record {
  source = record { id = 0; held = true; buffer = some []; subscribers = 6 ∷ [] };
  wakeups = record { live = 6 ∷ 4 ∷ []; permits = [] };
  phase = parked 6;
  waking = false;
  pushed = change 1 ∷ [];
  delivered = change 1 ∷ [];
}

twice_round : Reach (started 0 asleep) parked_again
unfolding evaluated
twice_round =
    further
      (further
        (further
          (further
            (further
              (further
                (further
                  (further
                    (further
                      (further (further (further stays (opens 5 refl refl refl)) (tracks 5 refl))
                        (takes 5 refl))
                      (parks 5 refl))
                    (appends (change 1) refl))
                  (wakes refl))
                (resumes 5 refl refl))
              (opens 6 refl refl refl))
            (tracks 6 refl))
          (takes 6 refl))
        (handles 6 (change 1) [] refl))
      (parks 6 refl)

wait_delivered_example :
    (parked_again.delivered ≡ parked_again.pushed)
    ⊎ (contains parked_again.wakeups.permits 6 ≡ true)
wait_delivered_example = wait_delivered 0 asleep 6 twice_round refl refl
