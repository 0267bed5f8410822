-- ===== src/Reactivity/Feed/Buffers.antt =====
-- What the handle of a consumer finds in its queue after each operation.
use ronna_core.Prelude.{
  ℕ, ◌<◌, ◌≡◌, refl, true, false, Option, none, some, List, [], ◌∷◌, ◌++◌, All, if◌then◌else◌, ◌==◌,
  ◌&&◌, filter, arith, Bool-cases, inl, inr, get_or,
}
use ronna_core.Reactivity.Signals.{Wakeups, wake}
use ronna_core.Reactivity.Changes.{
  ChangeEvent, Consumer, push_into, at_handle, deref, subscribe_scope, taken, take_buffer,
  wake_scopes, append_to,
}

unfoldable pub buffer_at : ℕ → List Consumer → Option (List ChangeEvent)
buffer_at id [] = none
buffer_at id (c ∷ cs) = if c.held && (c.id == id) then c.buffer else buffer_at id cs

unfoldable pub extended : ChangeEvent → Option (List ChangeEvent) → Option (List ChangeEvent)
extended change none = none
extended change (some b) = some (b ++ (change ∷ []))

unfoldable pub emptied : Option (List ChangeEvent) → Option (List ChangeEvent)
emptied none = none
emptied (some b) = some []

pub buffer_at-push_into :
    (id : ℕ) (change : ChangeEvent) (cs : List Consumer) (w : Wakeups)
    → buffer_at id (push_into change cs w).0 ≡ extended change (buffer_at id cs)
unfolding buffer_at push_into extended append_to wake_scopes
buffer_at-push_into id change [] w = refl
buffer_at-push_into id change (c ∷ cs) w = elim (Bool-cases c.held) [
  | inl held ↦ elim (Bool-cases (c.id == id)) [
    | inl same ↦ rw (held, same) refl
    | inr other ↦ rw (held, other) (buffer_at-push_into id change cs (wake c.subscribers w).1)
  ]
  | inr gone ↦ rw gone (buffer_at-push_into id change cs w)
]

pub buffer_at-drop :
    (id d : ℕ) (cs : List Consumer)
    → buffer_at id (at_handle d (λ c. record c { held = false }) cs)
      ≡ (if d == id then none else buffer_at id cs)
unfolding buffer_at at_handle
buffer_at-drop id d [] = ground arith
buffer_at-drop id d (c ∷ cs) = ground (arith, buffer_at-drop id d cs)

pub buffer_at-drain :
    (id d : ℕ) (scope : Option ℕ) (w : Wakeups) (cs : List Consumer)
    → buffer_at id (at_handle d (λ c. take_buffer (subscribe_scope w scope c)) cs)
      ≡ (if d == id then emptied (buffer_at id cs) else buffer_at id cs)
unfolding buffer_at at_handle take_buffer subscribe_scope emptied
buffer_at-drain id d scope w [] = ground arith
buffer_at-drain id d scope w (c ∷ cs) = ground (arith, buffer_at-drain id d scope w cs)

pub buffer_at-subscribe :
    (id d : ℕ) (f : Consumer → List ℕ) (cs : List Consumer)
    → buffer_at id (at_handle d (λ c. record c { subscribers = f c }) cs) ≡ buffer_at id cs
unfolding buffer_at at_handle
buffer_at-subscribe id d f [] = refl
buffer_at-subscribe id d f (c ∷ cs) = ground (arith, buffer_at-subscribe id d f cs)

pub taken-deref :
    (d : ℕ) (scope : Option ℕ) (w : Wakeups) (cs : List Consumer)
    → (elim (deref d cs) [ none ↦ [] | some c ↦ taken (subscribe_scope w scope c) ])
      ≡ get_or (buffer_at d cs) []
unfolding buffer_at deref taken subscribe_scope
taken-deref d scope w [] = refl
taken-deref d scope w (c ∷ cs) = ground (arith, taken-deref d scope w cs)

-- The identities of a registry stay below the next one, whatever a handle's method does.
pub Below-at_handle :
    (n d : ℕ) (f : Consumer → Consumer) (cs : List Consumer)
    → ((c : Consumer) → (f c).id ≡ c.id)
    → All (λ e. e.id < n) cs
    → All (λ e. e.id < n) (at_handle d f cs)
unfolding at_handle
Below-at_handle n d f [] same below = tt
Below-at_handle n d f (c ∷ cs) same (lt, below) =
    (ground (arith, same c), Below-at_handle n d f cs same below)

pub Below-push_into :
    (n : ℕ) (change : ChangeEvent) (cs : List Consumer) (w : Wakeups)
    → All (λ e. e.id < n) cs
    → All (λ e. e.id < n) (push_into change cs w).0
unfolding push_into append_to wake_scopes
Below-push_into n change [] w below = tt
Below-push_into n change (c ∷ cs) w (lt, below) = elim (Bool-cases c.held) [
  | inl held ↦ rw held (lt, Below-push_into n change cs (wake c.subscribers w).1 below)
  | inr gone ↦ rw gone (Below-push_into n change cs w below)
]

pub Below-register :
    (n m : ℕ) (cs : List Consumer) (c : Consumer)
    → n < m
    → c.id < m
    → All (λ e. e.id < n) cs
    → All (λ e. e.id < m) (filter (λ e. e.held) cs ++ (c ∷ []))
unfolding filter
Below-register n m [] c lt inside below = (inside, tt)
Below-register n m (e ∷ cs) c lt inside (first, below) = elim (Bool-cases e.held) [
  | inl held ↦ rw held (omega arith, Below-register n m cs c lt inside below)
  | inr gone ↦ rw gone (Below-register n m cs c lt inside below)
]

-- What a handle reaches once a consumer is registered under a new identity.
pub buffer_at-register :
    (id : ℕ) (cs : List Consumer) (c : Consumer)
    → c.held ≡ true
    → All (λ e. e.id < c.id) cs
    → buffer_at id (filter (λ e. e.held) cs ++ (c ∷ []))
      ≡ (if c.id == id then c.buffer else buffer_at id cs)
unfolding buffer_at filter
buffer_at-register id [] c held below = rw held refl
buffer_at-register id (e ∷ cs) c held (lt, below) =
    ground (arith, buffer_at-register id cs c held below)
