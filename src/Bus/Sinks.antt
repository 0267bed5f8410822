-- ===== src/Bus/Sinks.antt =====
-- Who stays registered.
use ronna_core.Prelude.{
  ℕ, ◌+◌, ◌≡◌, refl, sym, ap, ◌∙◌, Bool, true, false, not, ◌&&◌, Option, none, some, List, [], ◌∷◌,
  ◌++◌, if◌then◌else◌, ◌==◌, ==_iff, ==_refl, filter, contains, all, rev-rev, rev-snoc, Bool-cases,
  inl, inr, All, ◌≢◌, append_assoc, ltb, min, subst,
}
use ronna_core.Bus.{
  PushEnvelope, HubState, closed, remove_first, record_event, prune_sinks, unregister, register,
  gap_of, publish, attach, u64_max,
}

contains-filter :
    (p : ℕ → Bool) (sinks : List ℕ) (s : ℕ)
    → contains (filter p sinks) s ≡ (contains sinks s && p s)
unfolding filter contains
contains-filter p [] s = refl
contains-filter p (x ∷ sinks) s =
    let ih = contains-filter p sinks s in
    elim (Bool-cases (x == s)) [
      | inl same ↦
          let e : x ≡ s = (==_iff x s).0 same in
          elim (Bool-cases (p s)) [
            | inl takes ↦ rw (ap p e, takes, same) refl
            | inr drops ↦
                rw (ap p e, drops, same)
                  (ih
                    ∙ rw drops (elim (Bool-cases (contains sinks s)) [
                      | inl has ↦ rw has refl
                      | inr lacks ↦ rw lacks refl
                    ]))
          ]
      | inr other ↦ elim (Bool-cases (p x)) [
        | inl takes ↦ rw (takes, other) ih
        | inr drops ↦ rw (drops, other) ih
      ]
    ]

-- A list without what the list of the refused holds is the list of the rest.
filter-delivers :
    (d : ℕ → Bool) (sinks kept : List ℕ)
    → All (λ s. contains sinks s ≡ true) kept
    → filter (λ s. not (contains (filter (λ t. not (d t)) sinks) s)) kept ≡ filter d kept
unfolding filter
filter-delivers d sinks [] h = refl
filter-delivers d sinks (x ∷ kept) (inside, more) =
    let ih = filter-delivers d sinks kept more in
    let e = contains-filter (λ t. not (d t)) sinks x in
    elim (Bool-cases (d x)) [
      | inl takes ↦ rw (e, inside, takes) (ap (λ l. x ∷ l) ih)
      | inr drops ↦ rw (e, inside, drops) ih
    ]

contains-at : (front sinks : List ℕ) (x : ℕ) → contains (front ++ (x ∷ sinks)) x ≡ true
unfolding contains
contains-at [] sinks x = rw (==_refl x) refl
contains-at (y ∷ front) sinks x = elim (Bool-cases (y == x)) [
  | inl same ↦ rw same refl
  | inr other ↦ rw other (contains-at front sinks x)
]

All-contains : (front sinks : List ℕ) → All (λ s. contains (front ++ sinks) s ≡ true) sinks
All-contains front [] = tt
All-contains front (x ∷ sinks) = (
  contains-at front sinks x,
  subst (λ l. All (λ s. contains l s ≡ true) sinks) (append_assoc front (x ∷ []) sinks)
      (All-contains (front ++ (x ∷ [])) sinks),
)

gap_of-open :
    {E : Type 0} (after : ℕ) (replay : List (PushEnvelope E)) → gap_of after replay ≢ closed
unfolding gap_of
gap_of-open after [] h = cc
gap_of-open after (oldest ∷ replay) h =
    elim (Bool-cases (ltb (min (after + 1) u64_max) oldest.seq)) [ inl gap ↦ cc | inr whole ↦ cc ]

unregister_last :
    {E : Type 0} (sink : ℕ) (hub : HubState E)
    → unregister sink (record hub { sinks = hub.sinks ++ (sink ∷ []) }) ≡ hub
unfolding unregister
unregister_last sink hub =
    ap (λ l. record hub { sinks = l })
      (rw (rev-snoc hub.sinks sink) (unfold remove_first in rw (==_refl sink) (rev-rev hub.sinks)))

register-open :
    {E : Type 0} (sink : ℕ) (replay_after : Option ℕ) (hub : HubState E)
    → (register sink replay_after hub).0.1 ≢ closed
unfolding register
register-open sink none hub h = cc
register-open sink (some after) hub h = gap_of-open after hub.replay h

register-unregister :
    {E : Type 0} (sink : ℕ) (replay_after : Option ℕ) (hub : HubState E)
    → unregister sink (register sink replay_after hub).1 ≡ hub
unfolding register
register-unregister sink none hub = unregister_last sink hub
register-unregister sink (some after) hub = unregister_last sink hub

if_true :
    {A : Type 0} {B : Type 0} (b : Bool) (p q : A × B) → b ≡ true → (if b then p else q).0 ≡ p.0
if_true true p q h = refl
if_true false p q h = cc

module _ {E : Type 0} (delivers : ℕ → PushEnvelope E → Bool) where
  -- A publication drops exactly the sinks that refused its envelope, and numbers it next.
  publish-sinks :
      (nanos : ℕ) (event : E) (hub : HubState E)
      → ((publish delivers nanos event hub).0 ≡ hub.next_seq)
        × ((publish delivers nanos event hub).1.sinks
            ≡ filter (λ sink. delivers sink (record_event nanos event hub).0) hub.sinks)
  unfolding publish record_event prune_sinks
  publish-sinks nanos event hub = (
    refl,
    unfold record_event in
        filter-delivers (λ s. delivers s (record_event nanos event hub).0) hub.sinks hub.sinks
          (All-contains [] hub.sinks),
  )

  -- A sink that does not take its replay in full leaves the hub as it was.
  attach-closed :
      (sink : ℕ) (replay_after : Option ℕ) (hub : HubState E)
      → (attach delivers sink replay_after hub).0 ≡ closed
      → (attach delivers sink replay_after hub).1 ≡ hub
  unfolding attach
  attach-closed sink replay_after hub h =
      elim (Bool-cases (all (delivers sink) (register sink replay_after hub).0.0)) [
        | inl taken ↦ absurd (
            register-open sink replay_after hub (
              sym (
                if_true _ ((register sink replay_after hub).0.1, (register sink replay_after hub).1)
                  (closed, unregister sink (register sink replay_after hub).1) taken)
              ∙ h))
        | inr refused ↦ rw refused (register-unregister sink replay_after hub)
      ]
