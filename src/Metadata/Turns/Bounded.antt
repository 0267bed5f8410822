-- ===== src/Metadata/Turns/Bounded.antt =====
-- How many turns the shared record can hold.
use ronna_core.Prelude.{
  Bool-cases, inl, inr, ℕ, suc, ◌+◌, ◌-◌, ◌≤◌, ◌≡◌, refl, Bool, true, not, Option, List, [], ◌∷◌,
  ◌++◌, ◌==◌, leb, filter, length, All, arith, if◌then◌else◌,
}
use ronna_core.Metadata.Turns.{
  TurnState, new, close_generation, open_turn, close_unsent, bind_turn, seam_close,
}
use ronna_core.Metadata.Turns.Ideal.{Call, opens, closes_unsent, binds, closes, call, after}

-- How many turns the record holds for a binding.
count : ℕ → List (ℕ × Option ℕ) → ℕ
count g [] = 0
count g ((h, a) ∷ turns) = let rest = count g turns in if h == g then suc rest else rest

count-close :
    (g h : ℕ) (turns : List (ℕ × Option ℕ))
    → count g (filter (λ t. not (t.0 == h)) turns) ≡ (if h == g then 0 else count g turns)
unfolding count filter
count-close g h [] = ground arith
count-close g h ((k, a) ∷ turns) = ground (arith, count-close g h turns)

count-snoc :
    (g h : ℕ) (a : Option ℕ) (turns : List (ℕ × Option ℕ))
    → count g (filter (λ t. not (t.0 == h)) turns ++ ((h, a) ∷ []))
      ≡ (if h == g then 1 else count g turns)
unfolding count filter
count-snoc g h a [] = refl
count-snoc g h a ((k, b) ∷ turns) = ground (arith, count-snoc g h a turns)

count-prune :
    (g floor : ℕ) (turns : List (ℕ × Option ℕ))
    → count g (filter (λ t. leb floor t.0) turns) ≤ count g turns
unfolding count filter
count-prune g floor [] = omega arith
count-prune g floor ((k, a) ∷ turns) = ground (arith, count-prune g floor turns)

-- The generations that the record may name: the current one and the one before it.
abbrev Near : ℕ → List (ℕ × Option ℕ) → Type 0
Near n turns = All (λ t. (t.0 ≤ n) × (n ≤ t.0 + 1)) turns

length-le-count :
    (n : ℕ) (turns : List (ℕ × Option ℕ))
    → Near n turns
    → length turns ≤ count n turns + count (n - 1) turns
unfolding count
length-le-count n [] near = omega arith
length-le-count n ((k, a) ∷ turns) ((low, high), near) =
    ground (arith, length-le-count n turns near)

Near-filter :
    (n : ℕ) (p : ℕ × Option ℕ → Bool) (turns : List (ℕ × Option ℕ))
    → Near n turns
    → Near n (filter p turns)
unfolding filter
Near-filter n p [] near = tt
Near-filter n p (t ∷ turns) (here, near) = elim (Bool-cases (p t)) [
  | inl keep ↦ rw keep (here, Near-filter n p turns near)
  | inr cut ↦ rw cut (Near-filter n p turns near)
]

Near-snoc :
    (n : ℕ) (a : Option ℕ) (turns : List (ℕ × Option ℕ))
    → Near n turns
    → Near n (turns ++ ((n, a) ∷ []))
Near-snoc n a [] near = ((omega arith, omega arith), tt)
Near-snoc n a (t ∷ turns) (here, near) = (here, Near-snoc n a turns near)

leb→le : (a b : ℕ) → leb a b ≡ true → a ≤ b
leb→le a b h = ground arith

Near-bind :
    (n : ℕ) (turns : List (ℕ × Option ℕ))
    → Near n turns
    → Near (n + 1) (filter (λ t. leb (n + 1 - 1) t.0) turns)
unfolding filter
Near-bind n [] near = tt
Near-bind n ((k, a) ∷ turns) ((low, high), near) = elim (Bool-cases (leb (n + 1 - 1) k)) [
  | inl keep ↦
      rw keep ((omega arith, omega (arith, leb→le (n + 1 - 1) k keep)), Near-bind n turns near)
  | inr cut ↦ rw cut (Near-bind n turns near)
]

record Bounded (state : TurnState) : Type 0 where
  near : Near state.generation state.turns
  once : (g : ℕ) → count g state.turns ≤ 1

Bounded-call : {state : TurnState} (c : Call) → Bounded state → Bounded (call c state)
unfolding call open_turn close_generation close_unsent bind_turn seam_close
Bounded-call {state} (opens anchor) b = record {
  near = Near-snoc state.generation anchor _ (Near-filter state.generation _ state.turns b.near);
  once = λ g. ground (arith, count-snoc g state.generation anchor state.turns, b.once g);
}
Bounded-call {state} closes_unsent b = record {
  near = Near-filter state.generation _ state.turns b.near;
  once = λ g. ground (arith, count-close g state.generation state.turns, b.once g);
}
Bounded-call {state} binds b = record {
  near = Near-bind state.generation state.turns b.near;
  once = λ g. omega (arith, count-prune g (state.generation + 1 - 1) state.turns, b.once g);
}
Bounded-call {state} (closes h) b = record {
  near = Near-filter state.generation _ state.turns b.near;
  once = λ g. ground (arith, count-close g h state.turns, b.once g);
}

Bounded-after : (calls : List Call) → Bounded (after calls)
unfolding after new count
Bounded-after [] = record { near = tt; once = λ g. omega arith }
Bounded-after (c ∷ before) = Bounded-call c (Bounded-after before)

-- After any opens, closes and binds, in any order and with closes through any seam, the record
-- holds two turns at most, however many readers died without closing theirs.
pub turns_bounded : (calls : List Call) → length (after calls).turns ≤ 2
turns_bounded calls =
    let b = Bounded-after calls in
    let n = (after calls).generation in
    omega (arith, length-le-count n (after calls).turns b.near, b.once n, b.once (n - 1))
