-- ===== src/Reactivity/Feed.antt =====
-- The change log against one shared history with a position for each consumer
-- (agent-ledger/src/reactivity.rs).
pub mod Buffers
pub mod Tracks
pub mod Refine
use ronna_core.Prelude.{
  ℕ, ◌+◌, Bool, Option, none, some, List, [], ◌∷◌, ◌++◌, if◌then◌else◌, ◌==◌, length, drop,
}
use ronna_core.Reactivity.Signals.{Wakeups}
use ronna_core.Reactivity.Changes.{
  ChangeEvent, ChangeLog, push, consumer, watcher, drain, react, drop_handle,
}

-- What the holders of a log do. The scope in effect, if any, goes with a drain and a react.
pub data Call : Type 0 where
  pushes : ChangeEvent → Call
  takes_consumer : Call
  takes_watcher : Call
  drains : Option ℕ → ℕ → Call
  reacts : Option ℕ → ℕ → Call
  drops : ℕ → Call
  -- The scopes that live change in between, and permits are stored and taken.
  elsewhere : Wakeups → Call

pub data Reply : Type 0 where
  done : Reply
  handle : ℕ → Reply
  changes : List ChangeEvent → Reply

-- One call on the code's state.
unfoldable pub call : Call → ChangeLog → Wakeups → Reply × ChangeLog × Wakeups
unfolding push consumer watcher drain react drop_handle
call (pushes change) log w = let (log', w') = push change log w in (done, log', w')
call takes_consumer log w = let (log', id) = consumer log in (handle id, log', w)
call takes_watcher log w = let (log', id) = watcher log in (handle id, log', w)
call (drains scope id) log w =
    let (log', events) = drain w scope id log in (changes events, log', w)
call (reacts scope id) log w = (done, react w scope id log, w)
call (drops id) log w = (done, drop_handle id log, w)
call (elsewhere w') log w = (done, log, w')

unfoldable pub run : List Call → ChangeLog → Wakeups → List Reply
unfolding call
run [] log w = []
run (c ∷ cs) log w = let (reply, log', w') = call c log w in reply ∷ run cs log' w'

-- The promise: one history that only grows, and for each payload handle how much of it was read.
pub record Feed : Type 0 where
  pub history : List ChangeEvent
  pub next : ℕ
  pub position : ℕ → Option ℕ

unfoldable pub unread : Feed → ℕ → Option (List ChangeEvent)
unread feed id = elim (feed.position id) [ none ↦ none | some n ↦ some (drop n feed.history) ]

unfoldable pub placed : ℕ → Option ℕ → (ℕ → Option ℕ) → ℕ → Option ℕ
placed id p position j = if id == j then p else position j

unfoldable pub promise : Call → Feed → Reply × Feed
unfolding unread placed
promise (pushes change) feed = (done, record feed { history = feed.history ++ (change ∷ []) })
promise takes_consumer feed = (
  handle feed.next,
  record {
    history = feed.history;
    next = feed.next + 1;
    position = placed feed.next (some (length feed.history)) feed.position;
  },
)
promise takes_watcher feed = (
  handle feed.next,
  record {
    history = feed.history;
    next = feed.next + 1;
    position = placed feed.next none feed.position;
  },
)
promise (drains scope id) feed = elim (feed.position id) [
  | none ↦ (changes [], feed)
  | some n ↦ (
    changes (drop n feed.history),
    record feed { position = placed id (some (length feed.history)) feed.position },
  )
]
promise (reacts scope id) feed = (done, feed)
promise (drops id) feed = (done, record feed { position = placed id none feed.position })
promise (elsewhere w) feed = (done, feed)

unfoldable pub promised : List Call → Feed → List Reply
unfolding promise
promised [] feed = []
promised (c ∷ cs) feed = let (reply, feed') = promise c feed in reply ∷ promised cs feed'

unfoldable pub fresh : Feed
fresh = record { history = []; next = 0; position = λ id. none }
