-- ===== src/Tests/Hub.antt =====
-- A push hub with three events and two sinks, of which one takes no event after the second.
use ronna_core.Prelude.{
  ℕ, Bool, some, none, [], ◌∷◌, ◌≡◌, refl, leb, ◌==◌, arith, if◌then◌else◌, ◌<◌, ◌≤◌, true,
}
use ronna_core.Bus.{
  PushEnvelope, HubState, new_hub, record_event, register, attach, closed, u64_max,
}
use ronna_core.Bus.Replay.{
  Reached, opened, then_step, recorded, registered, IsServed, register-IsServed,
}
use ronna_core.Tests.Evaluated.{evaluated}

abbrev takes : ℕ → PushEnvelope ℕ → Bool
takes sink envelope = if sink == 9 then leb envelope.seq 2 else true

abbrev hub : HubState ℕ
hub =
    (record_event 30 103
      (record_event 20 102
        (register 9 none (register 8 none (record_event 10 101 new_hub).1).1).1).1).1

hub-Reached : Reached hub
hub-Reached =
    then_step
      (then_step
        (then_step (then_step (then_step opened (recorded 10 101)) (registered 8 none))
          (registered 9 none))
        (recorded 20 102))
      (recorded 30 103)

hub_went_on : 1 < hub.next_seq
unfolding evaluated
hub_went_on = omega arith

hub_bound : hub.next_seq ≤ u64_max
unfolding evaluated
hub_bound = omega arith

register-IsServed_example :
    IsServed 1 hub.next_seq (register 7 (some 1) hub).0.0 (register 7 (some 1) hub).0.1
register-IsServed_example = register-IsServed 7 1 hub hub-Reached hub_went_on hub_bound

refused_replay : (attach takes 9 (some 1) hub).0 ≡ closed
unfolding evaluated
refused_replay = refl

three_replayed :
    (register 7 (some 1) hub).0.0
    ≡ (record { seq = 2; ts = 20; event = 102 } ∷ record { seq = 3; ts = 30; event = 103 } ∷ [])
unfolding evaluated
three_replayed = refl
