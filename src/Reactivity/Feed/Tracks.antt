-- ===== src/Reactivity/Feed/Tracks.antt =====
-- How each call keeps a log in step with the history.
use ronna_core.Prelude.{
  ℕ, ◌+◌, ◌<◌, ◌≤◌, ◌≡◌, refl, sym, ap, ◌∙◌, true, false, Option, none, some, List, [], ◌∷◌, ◌++◌,
  All, if◌then◌else◌, ◌==◌, arith, get_or, length, drop, drop-append, length-append,
}
use ronna_core.Reactivity.Signals.{Wakeups, track_required}
use ronna_core.Reactivity.Changes.{
  ChangeEvent, ChangeLog, take_buffer, subscribe_scope, push, register, drain, react, drop_handle,
  new,
}
use ronna_core.Reactivity.Feed.{Feed, unread, placed, fresh}
use ronna_core.Reactivity.Feed.Buffers.{
  buffer_at, extended, emptied, buffer_at-push_into, buffer_at-drop, buffer_at-drain,
  buffer_at-subscribe, Below-at_handle, Below-push_into, Below-register, buffer_at-register,
}

-- Every handle's queue is what its position leaves of the history.
pub record Tracks (log : ChangeLog) (feed : Feed) : Type 0 where
  pub next : log.next ≡ feed.next
  pub below : All (λ e. e.id < log.next) log.consumers
  pub within : (id n : ℕ) → feed.position id ≡ some n → n ≤ length feed.history
  pub queue : (id : ℕ) → buffer_at id log.consumers ≡ unread feed id

pub none_ne_some : {n : ℕ} → ¬ (none ≡ some n)
none_ne_some h = cc

pub Tracks-fresh : Tracks (record { next = 0; consumers = [] }) fresh
unfolding fresh unread buffer_at
Tracks-fresh = record {
  next = refl;
  below = tt;
  within = λ id n h. absurd (none_ne_some h);
  queue = λ id. refl;
}

-- A change extends what every handle has not read.
pub unread-extended :
    (change : ChangeEvent) (history : List ChangeEvent) (p : Option ℕ)
    → ((n : ℕ) → p ≡ some n → n ≤ length history)
    → extended change (elim p [ none ↦ none | some n ↦ some (drop n history) ])
      ≡ elim p [ none ↦ none | some n ↦ some (drop n (history ++ (change ∷ []))) ]
unfolding extended
unread-extended change history none within = refl
unread-extended change history (some n) within =
    ap some (sym (drop-append n history (change ∷ []) (within n refl)))

pub drop-all : (history : List ChangeEvent) → drop (length history) history ≡ []
drop-all [] = refl
drop-all (e ∷ history) = drop-all history

-- A handle that is placed at the end has nothing to read.
pub unread-placed :
    (feed : Feed) (d id : ℕ)
    → unread (record feed { position = placed d (some (length feed.history)) feed.position }) id
      ≡ (if d == id then some [] else unread feed id)
unfolding unread placed
unread-placed feed d id = ground (arith, drop-all feed.history)

pub placed_within :
    (feed : Feed) (d : ℕ) (p : Option ℕ)
    → ((n : ℕ) → p ≡ some n → n ≤ length feed.history)
    → ((id n : ℕ) → feed.position id ≡ some n → n ≤ length feed.history)
    → (id n : ℕ) → placed d p feed.position id ≡ some n
    → n ≤ length feed.history
unfolding placed
placed_within feed d p new old id n h = ground (arith, new n, old id n)

pub at_end : (feed : Feed) (n : ℕ) → some (length feed.history) ≡ some n → n ≤ length feed.history
at_end feed n h = ground arith

-- A drain of a payload handle, and of one that reads nothing.
pub unread-drained :
    (feed : Feed) (d n id : ℕ)
    → feed.position d ≡ some n
    → (if d == id then emptied (unread feed id) else unread feed id)
      ≡ (if d == id then some [] else unread feed id)
unfolding unread emptied
unread-drained feed d n id h = ground arith

pub unread-undrained :
    (feed : Feed) (d id : ℕ)
    → feed.position d ≡ none
    → (if d == id then emptied (unread feed id) else unread feed id) ≡ unread feed id
unfolding unread emptied
unread-undrained feed d id h = ground arith

pub unread-dropped :
    (feed : Feed) (d id : ℕ)
    → unread (record feed { position = placed d none feed.position }) id
      ≡ (if d == id then none else unread feed id)
unfolding unread placed
unread-dropped feed d id = ground arith

pub unread-none : (feed : Feed) (d : ℕ) → feed.position d ≡ none → get_or (unread feed d) [] ≡ []
unfolding unread
unread-none feed d at = rw (at, get_or, unread) refl

pub unread-some :
    (feed : Feed) (d n : ℕ)
    → feed.position d ≡ some n
    → get_or (unread feed d) [] ≡ drop n feed.history
unfolding unread
unread-some feed d n at = rw (at, get_or, unread) refl

module _ {log : ChangeLog} {feed : Feed} (t : Tracks log feed) where
  pub Tracks-push :
      (change : ChangeEvent) (w : Wakeups)
      → Tracks (push change log w).0 (record feed { history = feed.history ++ (change ∷ []) })
  unfolding push unread
  Tracks-push change w = record {
    next = t.next;
    below = Below-push_into log.next change log.consumers w t.below;
    within = λ id n h. omega (arith, t.within id n h, length-append feed.history (change ∷ []));
    queue = λ id.
        buffer_at-push_into id change log.consumers w
        ∙ ap (extended change) (t.queue id)
        ∙ unread-extended change feed.history (feed.position id) (t.within id);
  }

  pub Tracks-register :
      (buffer : Option (List ChangeEvent)) (position : ℕ → Option ℕ)
      → ((id n : ℕ) → position id ≡ some n → n ≤ length feed.history)
      → ((id : ℕ)
          → unread (record feed { position = position }) id
            ≡ (if feed.next == id then buffer else unread feed id))
      → Tracks (register buffer log).0 (record feed { next = feed.next + 1; position = position })
  unfolding register unread
  Tracks-register buffer position within reads = record {
    next = ap (λ n. n + 1) t.next;
    below =
        Below-register log.next (log.next + 1) log.consumers
          (record { id = log.next; held = true; buffer = buffer; subscribers = [] }) (omega arith)
          (omega arith) t.below;
    within = within;
    queue = λ id.
        buffer_at-register id log.consumers
          (record { id = log.next; held = true; buffer = buffer; subscribers = [] }) refl t.below
        ∙ rw (t.queue id, t.next) (sym (reads id));
  }

  pub Tracks-drain :
      (w : Wakeups) (scope : Option ℕ) (d n : ℕ)
      → feed.position d ≡ some n
      → Tracks
          (drain w scope d log).0
          (record feed { position = placed d (some (length feed.history)) feed.position })
  unfolding drain take_buffer subscribe_scope
  Tracks-drain w scope d n at = record {
    next = t.next;
    below =
        Below-at_handle log.next d (λ c. take_buffer (subscribe_scope w scope c)) log.consumers
          (λ c. refl) t.below;
    within = placed_within feed d (some (length feed.history)) (at_end feed) t.within;
    queue = λ id.
        buffer_at-drain id d scope w log.consumers
        ∙ rw (t.queue id) (unread-drained feed d n id at)
        ∙ sym (unread-placed feed d id);
  }

  pub Tracks-drain_watcher :
      (w : Wakeups) (scope : Option ℕ) (d : ℕ)
      → feed.position d ≡ none
      → Tracks (drain w scope d log).0 feed
  unfolding drain take_buffer subscribe_scope
  Tracks-drain_watcher w scope d at = record {
    next = t.next;
    below =
        Below-at_handle log.next d (λ c. take_buffer (subscribe_scope w scope c)) log.consumers
          (λ c. refl) t.below;
    within = t.within;
    queue = λ id.
        buffer_at-drain id d scope w log.consumers
        ∙ rw (t.queue id) (unread-undrained feed d id at);
  }

  pub Tracks-react : (w : Wakeups) (scope : Option ℕ) (d : ℕ) → Tracks (react w scope d log) feed
  unfolding react
  Tracks-react w scope d = record {
    next = t.next;
    below =
        Below-at_handle log.next d
          (λ c. record c { subscribers = track_required w scope c.subscribers }) log.consumers
          (λ c. refl) t.below;
    within = t.within;
    queue = λ id.
        buffer_at-subscribe id d (λ c. track_required w scope c.subscribers) log.consumers
        ∙ t.queue id;
  }

  pub Tracks-drop_handle :
      (d : ℕ) → Tracks (drop_handle d log) (record feed { position = placed d none feed.position })
  unfolding drop_handle
  Tracks-drop_handle d = record {
    next = t.next;
    below =
        Below-at_handle log.next d (λ c. record c { held = false }) log.consumers (λ c. refl)
          t.below;
    within = placed_within feed d none (λ n h. absurd (none_ne_some h)) t.within;
    queue = λ id.
        buffer_at-drop id d log.consumers ∙ rw (t.queue id) refl ∙ sym (unread-dropped feed d id);
  }
