-- ===== src/Reactivity/Changes.antt =====
-- The change log and its consumers (agent-ledger/src/reactivity.rs).
--
-- A consumer's entry in the registry stands with what it points to. `held` says whether the
-- `Consumer` handle, the one strong reference, still exists: an entry whose handle was dropped is a
-- weak reference that cannot be upgraded.
use ronna_core.Prelude.{
  ℕ, ◌+◌, String, Bool, true, false, Option, none, some, List, [], ◌∷◌, ◌++◌, if◌then◌else◌, ◌==◌,
  ◌&&◌, filter, get_or,
}
use ronna_core.Reactivity.Signals.{Wakeups, wake, track, track_required}

pub record ChangeEvent : Type 0 where
  pub action : ℕ
  pub table : String
  pub rowid : ℕ

-- A buffer of `none` is a watcher: it is woken and keeps no changes.
pub record Consumer : Type 0 where
  pub id : ℕ
  pub held : Bool
  pub buffer : Option (List ChangeEvent)
  pub subscribers : List ℕ

pub record ChangeLog : Type 0 where
  pub next : ℕ
  pub consumers : List Consumer

unfoldable pub new : ChangeLog
new = record { next = 0; consumers = [] }

-- What a push does to one live consumer: its queue takes the change, and its scopes are woken.
unfoldable pub append_to : ChangeEvent → Consumer → Consumer
append_to change c = record c {
  buffer = elim c.buffer [ none ↦ none | some b ↦ some (b ++ (change ∷ [])) ];
}

unfoldable pub wake_scopes : Consumer → Wakeups → Consumer × Wakeups
unfolding wake
wake_scopes c w = let (subs, w') = wake c.subscribers w in (record c { subscribers = subs }, w')

-- The push callback's `retain`: entries that cannot be upgraded are dropped.
unfoldable pub push_into : ChangeEvent → List Consumer → Wakeups → List Consumer × Wakeups
unfolding append_to wake_scopes
push_into change [] w = ([], w)
push_into change (c ∷ cs) w =
    let (woken, w') = wake_scopes (append_to change c) w in
    let after = push_into change cs w' in
    let skipped = push_into change cs w in if c.held then (woken ∷ after.0, after.1) else skipped

unfoldable pub push : ChangeEvent → ChangeLog → Wakeups → ChangeLog × Wakeups
unfolding push_into
push change log w =
    let (cs, w') = push_into change log.consumers w in (record log { consumers = cs }, w')

-- `register`: prune the entries whose consumer is gone, add the new one, hand back its handle.
unfoldable pub register : Option (List ChangeEvent) → ChangeLog → ChangeLog × ℕ
register buffer log =
    let c : Consumer = record { id = log.next; held = true; buffer = buffer; subscribers = [] } in
    (
      record { next = log.next + 1; consumers = filter (λ e. e.held) log.consumers ++ (c ∷ []) },
      log.next,
    )

unfoldable pub consumer : ChangeLog → ChangeLog × ℕ
unfolding register
consumer log = register (some []) log

unfoldable pub watcher : ChangeLog → ChangeLog × ℕ
unfolding register
watcher log = register none log

-- A method on a handle reaches the consumer that the handle keeps.
unfoldable pub at_handle : ℕ → (Consumer → Consumer) → List Consumer → List Consumer
at_handle id f [] = []
at_handle id f (c ∷ cs) = (if c.held && (c.id == id) then f c else c) ∷ at_handle id f cs

unfoldable pub deref : ℕ → List Consumer → Option Consumer
deref id [] = none
deref id (c ∷ cs) = if c.held && (c.id == id) then some c else deref id cs

-- The two halves of `drain`, in its order: subscribe the scope, then take the buffer.
unfoldable pub subscribe_scope : Wakeups → Option ℕ → Consumer → Consumer
unfolding track
subscribe_scope w scope c = record c { subscribers = (track w scope c.subscribers).0 }

unfoldable pub taken : Consumer → List ChangeEvent
taken c = get_or c.buffer []

unfoldable pub take_buffer : Consumer → Consumer
take_buffer c = record c { buffer = elim c.buffer [ none ↦ none | some b ↦ some [] ] }

-- `Consumer::drain` in the scope in effect, if there is one.
unfoldable pub drain : Wakeups → Option ℕ → ℕ → ChangeLog → ChangeLog × List ChangeEvent
unfolding at_handle deref subscribe_scope taken take_buffer
drain w scope id log = (
  record log {
    consumers = at_handle id (λ c. take_buffer (subscribe_scope w scope c)) log.consumers;
  },
  elim (deref id log.consumers) [ none ↦ [] | some c ↦ taken (subscribe_scope w scope c) ],
)

-- `Consumer::react`, as a release build runs it
unfoldable pub react : Wakeups → Option ℕ → ℕ → ChangeLog → ChangeLog
unfolding at_handle track_required
react w scope id log = record log {
  consumers =
      at_handle id (λ c. record c { subscribers = track_required w scope c.subscribers })
        log.consumers;
}

-- The handle is dropped, and with it the consumer: its entry stays until the next prune.
unfoldable pub drop_handle : ℕ → ChangeLog → ChangeLog
unfolding at_handle
drop_handle id log = record log {
  consumers = at_handle id (λ c. record c { held = false }) log.consumers;
}
