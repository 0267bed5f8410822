-- ===== src/Bus/Replay.antt =====
-- What the hub's replay holds, through any interleaving of its locked parts.
use ronna_core.Prelude.{
  ℕ, suc, ◌+◌, ◌≤◌, ◌<◌, ◌≡◌, ◌⊎◌, inl, inr, refl, sym, ◌∙◌, subst, some, Option, List, [], ◌∷◌,
  ◌++◌, ltb, min, ◌==◌, ==_iff, length, length-append, none, filter, arith, Bool-cases,
}
use ronna_core.Bus.{
  PushEnvelope, HubState, AttachOutcome, complete, gapped, push_replay_capacity, u64_max, new_hub,
  tail_of, retain_event, record_event, prune_sinks, unregister, register, gap_of,
}

module _ {E : Type 0} where
  -- The envelopes are numbered one by one from `first` up to `next`, without it.
  abbrev pub Counts : ℕ → List (PushEnvelope E) → ℕ → Type 0
  Counts first [] next = first ≡ next
  Counts first (e ∷ envelopes) next = (e.seq ≡ first) × Counts (suc first) envelopes next

  -- One locked part of an operation of the hub.
  pub data HubStep (hub : HubState E) : HubState E → Type 0 where
    recorded : (nanos : ℕ) (event : E) → HubStep hub (record_event nanos event hub).1
    pruned : (dead : List ℕ) → HubStep hub (prune_sinks dead hub)
    unregistered : (sink : ℕ) → HubStep hub (unregister sink hub)
    registered :
        (sink : ℕ) (replay_after : Option ℕ) → HubStep hub (register sink replay_after hub).1

  -- The states that a hub comes to, whatever the threads do with it.
  pub data Reached : HubState E → Type 0 where
    opened : Reached new_hub
    then_step : {hub next : HubState E} → Reached hub → HubStep hub next → Reached next

  -- The replay runs up to the last event, from the first one or for a whole capacity.
  IsKept : List (PushEnvelope E) → ℕ → Type 0
  IsKept replay next =
      (first : ℕ) × Counts first replay next
      × (length replay ≤ push_replay_capacity)
      × ((first ≡ 1) ⊎ (length replay ≡ push_replay_capacity))

  Counts-snoc :
      (first next : ℕ) (l : List (PushEnvelope E)) (e : PushEnvelope E)
      → e.seq ≡ next
      → Counts first l next
      → Counts first (l ++ (e ∷ [])) (next + 1)
  Counts-snoc first next [] e own counts = (own ∙ sym counts, omega arith)
  Counts-snoc first next (x ∷ l) e own (head, more) =
      (head, Counts-snoc (suc first) next l e own more)

  full-IsKept :
      (first next : ℕ) (l : List (PushEnvelope E)) (e : PushEnvelope E)
      → e.seq ≡ next
      → Counts first l next
      → length l ≡ push_replay_capacity
      → IsKept (tail_of l ++ (e ∷ [])) (next + 1)
  unfolding IsKept tail_of
  full-IsKept first next [] e own counts full = absurd (omega (arith, full))
  full-IsKept first next (x ∷ l) e own counts full = (
    suc first,
    Counts-snoc (suc first) next l e own counts.1,
    omega (arith, length-append l (e ∷ [])),
    inr (omega (arith, length-append l (e ∷ []))),
  )

  retain-IsKept :
      (next : ℕ) (l : List (PushEnvelope E)) (e : PushEnvelope E)
      → e.seq ≡ next
      → IsKept l next
      → IsKept (retain_event e l) (next + 1)
  unfolding retain_event IsKept
  retain-IsKept next l e own kept =
      let (first, counts, within, whole) = kept in
      elim (Bool-cases (length l == push_replay_capacity)) [
        | inl full ↦ rw full (
            full-IsKept first next l e own counts ((==_iff (length l) push_replay_capacity).0 full))
        | inr room ↦
            let bound : length (l ++ (e ∷ [])) ≤ push_replay_capacity =
              ground (arith, length-append l (e ∷ []), room, within) in
            rw room (
              first,
              Counts-snoc first next l e own counts,
              bound,
              elim whole [ inl one ↦ inl one | inr full ↦ absurd (ground (arith, room, full)) ],
            )
      ]

  step-IsKept :
      (hub next : HubState E)
      → HubStep hub next
      → IsKept hub.replay hub.next_seq
      → IsKept next.replay next.next_seq
  step-IsKept hub _ (recorded nanos event) kept =
      unfold record_event in retain-IsKept hub.next_seq hub.replay _ refl kept
  step-IsKept hub _ (pruned dead) kept = unfold prune_sinks in kept
  step-IsKept hub _ (unregistered sink) kept = unfold unregister in kept
  step-IsKept hub _ (registered sink none) kept = unfold register in kept
  step-IsKept hub _ (registered sink (some after)) kept = unfold register in kept

  Reached-IsKept : (hub : HubState E) → Reached hub → IsKept hub.replay hub.next_seq
  Reached-IsKept _ opened = unfold new_hub IsKept in (1, refl, omega arith, inl refl)
  Reached-IsKept next (then_step {hub} r s) = step-IsKept hub next s (Reached-IsKept hub r)

  filter-after_all :
      (first next after : ℕ) (l : List (PushEnvelope E))
      → after < first
      → Counts first l next
      → filter (λ e. ltb after e.seq) l ≡ l
  unfolding filter
  filter-after_all first next after [] late counts = refl
  filter-after_all first next after (e ∷ l) late (head, more) =
      rw (filter-after_all (suc first) next after l (omega arith) more) (ground (arith, head))

  Counts-filter :
      (first next after : ℕ) (l : List (PushEnvelope E))
      → first ≤ suc after
      → after < next
      → Counts first l next
      → Counts (suc after) (filter (λ e. ltb after e.seq) l) next
  unfolding filter
  Counts-filter first next after [] early inside counts = omega arith
  Counts-filter first next after (e ∷ l) early inside (head, more) =
      elim (Bool-cases (ltb after e.seq)) [
        | inl kept ↦
            let e : first ≡ suc after = ground (arith, head, kept) in
            rw kept (
              head ∙ e,
              subst (λ n. Counts (suc n) (filter (λ e. ltb after e.seq) l) next) e
                  (rw (filter-after_all (suc first) next after l (omega arith) more) more),
            )
        | inr dropped ↦
            rw dropped
              (Counts-filter (suc first) next after l (ground (arith, head, dropped)) inside more)
      ]

  -- What a late sink is owed: every event after its cursor, or the whole replay with a gap before
  -- it.
  unfoldable pub IsServed : ℕ → ℕ → List (PushEnvelope E) → AttachOutcome → Type 0
  IsServed after next tail answer =
      ((answer ≡ complete) × Counts (suc after) tail next)
      ⊎ ((oldest : ℕ) × (answer ≡ gapped oldest)
          × (suc after < oldest)
          × Counts oldest tail next
          × (length tail ≡ push_replay_capacity))

  serve :
      (after next : ℕ) (l : List (PushEnvelope E))
      → IsKept l next
      → after < next
      → next ≤ u64_max
      → IsServed after next (filter (λ e. ltb after e.seq) l) (gap_of after l)
  unfolding IsServed IsKept gap_of
  serve after next [] (first, counts, within, whole) inside bound = inl (
    refl,
    unfold filter in elim whole [ inl one ↦ omega arith | inr full ↦ absurd (omega (arith, full)) ],
  )
  serve after next (e ∷ l) (first, (head, more), within, whole) inside bound =
      elim (Bool-cases (ltb (min (after + 1) u64_max) e.seq)) [
        | inl gap ↦
            let late : suc after < e.seq = ground (arith, gap, inside, bound) in
            let all' =
              filter-after_all first next after (e ∷ l) (omega (arith, head, late)) (head, more) in
            inr (
              e.seq,
              rw gap refl,
              late,
              rw all' (refl, subst (λ n. Counts (suc n) l next) (sym head) more),
              rw all' (elim whole [
                | inl one ↦ absurd (omega (arith, one, head, late))
                | inr full ↦ full
              ]),
            )
        | inr near ↦ inl (
          rw near refl,
          Counts-filter first next after (e ∷ l) (ground (arith, near, head, inside)) inside
              (head, more),
        )
      ]

  -- On a hub that any interleaving led to, a sink that registers with a cursor the hub has reached
  -- is told `complete` and handed every event after its cursor, numbered one by one up to the last;
  -- or it is told the oldest event left, which does not follow its cursor, and handed a whole
  -- capacity of events from that one up to the last. The sequence numbers fit in 64 bits.
  pub register-IsServed :
      (sink after : ℕ) (hub : HubState E)
      → Reached hub
      → after < hub.next_seq
      → hub.next_seq ≤ u64_max
      → IsServed after hub.next_seq
          (register sink (some after) hub).0.0
          (register sink (some after) hub).0.1
  unfolding register
  register-IsServed sink after hub r inside bound =
      serve after hub.next_seq hub.replay (Reached-IsKept hub r) inside bound
