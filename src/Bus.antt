-- ===== src/Bus.antt =====
-- The push hub: sequence numbers, the replay of missed events and the pruning of dead sinks.
-- crates/agent-ledger/src/bus.rs.
--
-- A sink is known by its identity, a number (`Arc::ptr_eq`), and a parameter says whether it takes
-- an envelope: a panic counts as a refusal, as `deliver_isolated` makes it, and a sink registered
-- twice answers the same to both. The operations under the hub's lock are steps of their own, since
-- other threads may take the lock between them.
pub mod Replay
pub mod Sinks
use ronna_core.Prelude.{
  ℕ, zero, suc, ◌+◌, Bool, true, false, not, Option, none, some, List, [], ◌∷◌, ◌++◌, if◌then◌else◌,
  ltb, leb, ◌==◌, length, filter, contains, all, min, rev,
}

abbrev pub push_replay_capacity : ℕ
push_replay_capacity = 1024

abbrev pub u64_max : ℕ
u64_max = 18446744073709551615

pub record PushEnvelope (E : Type 0) : Type 0 where
  pub seq : ℕ
  pub ts : ℕ
  pub event : E

pub record HubState (E : Type 0) : Type 0 where
  pub next_seq : ℕ
  pub sinks : List ℕ
  pub replay : List (PushEnvelope E)

pub data AttachOutcome : Type 0 where
  complete : AttachOutcome
  gapped : ℕ → AttachOutcome
  closed : AttachOutcome

-- `rposition` and `remove`: the last registration of a sink goes. First in reversed order.
remove_first : ℕ → List ℕ → List ℕ
remove_first sink [] = []
remove_first sink (s ∷ sinks) = if s == sink then sinks else s ∷ remove_first sink sinks

tail_of : {A : Type 0} → List A → List A
tail_of [] = []
tail_of (x ∷ xs) = xs

module _ {E : Type 0} where
  unfoldable pub new_hub : HubState E
  new_hub = record { next_seq = 1; sinks = []; replay = [] }

  -- `pop_front` at capacity, then `push_back`.
  unfoldable pub retain_event : PushEnvelope E → List (PushEnvelope E) → List (PushEnvelope E)
  unfolding tail_of
  retain_event envelope replay =
      (if length replay == push_replay_capacity then tail_of replay else replay) ++ (envelope ∷ [])

  -- The first locked part of `publish`: the envelope of an event, at the clock's reading.
  unfoldable pub record_event : ℕ → E → HubState E → PushEnvelope E × HubState E
  unfolding retain_event
  record_event nanos event hub =
      let envelope : PushEnvelope E = record {
        seq = hub.next_seq;
        ts = min nanos u64_max;
        event = event;
      } in
      (
        envelope,
        record hub { next_seq = hub.next_seq + 1; replay = retain_event envelope hub.replay },
      )

  -- The second: the sinks that refused are dropped.
  unfoldable pub prune_sinks : List ℕ → HubState E → HubState E
  prune_sinks dead hub = record hub { sinks = filter (λ sink. not (contains dead sink)) hub.sinks }

  unfoldable pub unregister : ℕ → HubState E → HubState E
  unfolding remove_first
  unregister sink hub = record hub { sinks = rev (remove_first sink (rev hub.sinks)) }

  -- Whether the replay reaches back to the event after `after`.
  unfoldable pub gap_of : ℕ → List (PushEnvelope E) → AttachOutcome
  gap_of after [] = complete
  gap_of after (oldest ∷ replay) =
      if ltb (min (after + 1) u64_max) oldest.seq then gapped oldest.seq else complete

  -- The locked part of `attach`: what to replay, what to answer, and the sink registered.
  unfoldable pub register :
      ℕ → Option ℕ → HubState E → (List (PushEnvelope E) × AttachOutcome) × HubState E
  register sink none hub = (([], complete), record hub { sinks = hub.sinks ++ (sink ∷ []) })
  register sink (some after) hub = (
    (filter (λ envelope. ltb after envelope.seq) hub.replay, gap_of after hub.replay),
    record hub { sinks = hub.sinks ++ (sink ∷ []) },
  )

  module _ (delivers : ℕ → PushEnvelope E → Bool) where
    unfoldable pub publish : ℕ → E → HubState E → ℕ × HubState E
    publish nanos event hub =
        let (envelope, recorded) = record_event nanos event hub in
        let dead = filter (λ sink. not (delivers sink envelope)) recorded.sinks in
        (envelope.seq, prune_sinks dead recorded)

    -- A replay that the sink does not take in full takes it off the hub.
    unfoldable pub attach : ℕ → Option ℕ → HubState E → AttachOutcome × HubState E
    attach sink replay_after hub =
        let ((tail, answer), registered) = register sink replay_after hub in
        if all (delivers sink) tail
        then (answer, registered)
        else (closed, unregister sink registered)
