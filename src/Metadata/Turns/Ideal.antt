-- ===== src/Metadata/Turns/Ideal.antt =====
-- The shared record against a table of turns in which each binding has a place of its own.
use ronna_core.Prelude.{
  ℕ, suc, ◌+◌, ◌-◌, ◌≤◌, ◌≡◌, refl, ap, ◌∙◌, not, Option, none, some, List, [], ◌∷◌, ◌++◌, ◌==◌,
  leb, filter, find, any, bind, is_some, arith, if◌then◌else◌,
}
use ronna_core.Metadata.Turns.{
  TurnState, new, turn_of, anchor_of, close_generation, open_turn, close_unsent, is_open, bind_turn,
  seam_anchor, seam_close,
}

-- What the loop and the readers do: a reader closes through the seam of its bind.
pub data Call : Type 0 where
  opens : Option ℕ → Call
  closes_unsent : Call
  binds : Call
  closes : ℕ → Call

unfoldable pub call : Call → TurnState → TurnState
unfolding open_turn close_unsent bind_turn seam_close
call (opens anchor) state = open_turn anchor state
call closes_unsent state = close_unsent state
call binds state = (bind_turn state).0
call (closes generation) state = seam_close generation state

-- The state after the calls, the latest first.
unfoldable pub after : List Call → TurnState
unfolding call
after [] = new
after (c ∷ before) = call c (after before)

unfoldable pub binds_in : List Call → ℕ
binds_in [] = 0
binds_in (binds ∷ before) = suc (binds_in before)
binds_in (_ ∷ before) = binds_in before

-- The turn that a binding has open, told from what was done under that binding alone: the last open
-- that no close of the same binding follows.
unfoldable pub turn_under : ℕ → List Call → Option (Option ℕ)
unfolding binds_in
turn_under g [] = none
turn_under g (opens anchor ∷ before) =
    let earlier = turn_under g before in if binds_in before == g then some anchor else earlier
turn_under g (closes_unsent ∷ before) =
    let earlier = turn_under g before in if binds_in before == g then none else earlier
turn_under g (binds ∷ before) = turn_under g before
turn_under g (closes h ∷ before) =
    let earlier = turn_under g before in if h == g then none else earlier

found : ℕ → List (ℕ × Option ℕ) → Option (Option ℕ)
found g [] = none
found g ((h, anchor) ∷ turns) = if h == g then some anchor else found g turns

anchor_of-found :
    (g : ℕ) (state : TurnState) → anchor_of g state ≡ bind (found g state.turns) (λ a. a)
unfolding anchor_of turn_of found find
anchor_of-found g state = go state.turns
  where
    go :
        (turns : List (ℕ × Option ℕ))
        → bind (turn_of g turns) (λ t. t.1) ≡ bind (found g turns) (λ a. a)
    go [] = refl
    go ((h, a) ∷ turns) = ground (arith, go turns)

found-close :
    (g h : ℕ) (turns : List (ℕ × Option ℕ))
    → found g (filter (λ t. not (t.0 == h)) turns) ≡ (if h == g then none else found g turns)
unfolding found filter
found-close g h [] = ground arith
found-close g h ((k, a) ∷ turns) = ground (arith, found-close g h turns)

found-prune :
    (g floor : ℕ) (turns : List (ℕ × Option ℕ))
    → floor ≤ g
    → found g (filter (λ t. leb floor t.0) turns) ≡ found g turns
unfolding found filter
found-prune g floor [] h = refl
found-prune g floor ((k, a) ∷ turns) h = ground (arith, found-prune g floor turns h)

found-snoc :
    (g h : ℕ) (a : Option ℕ) (turns : List (ℕ × Option ℕ))
    → found g (filter (λ t. not (t.0 == h)) turns ++ ((h, a) ∷ []))
      ≡ (if h == g then some a else found g turns)
unfolding found filter
found-snoc g h a [] = refl
found-snoc g h a ((k, b) ∷ turns) = ground (arith, found-snoc g h a turns)

is_open-found :
    (g : ℕ) (turns : List (ℕ × Option ℕ)) → any (λ t. t.0 == g) turns ≡ is_some (found g turns)
unfolding any found
is_open-found g [] = refl
is_open-found g ((h, a) ∷ turns) = ground (arith, is_open-found g turns)

after-generation : (calls : List Call) → (after calls).generation ≡ binds_in calls
unfolding after binds_in call open_turn close_generation new
after-generation [] = refl
after-generation (opens anchor ∷ before) = after-generation before
after-generation (closes_unsent ∷ before) = after-generation before
after-generation (binds ∷ before) = omega (arith, after-generation before)
after-generation (closes h ∷ before) = after-generation before

found-after :
    (calls : List Call) (g : ℕ)
    → binds_in calls ≤ g + 1
    → found g (after calls).turns ≡ turn_under g calls
unfolding after turn_under call found open_turn close_generation close_unsent bind_turn seam_close
    new
found-after [] g near = refl
found-after (opens anchor ∷ before) g near =
    let s = after before in
    found-snoc g s.generation anchor s.turns
    ∙ ap (λ n. if n == g then some anchor else found g s.turns) (after-generation before)
    ∙ ap (λ t. if binds_in before == g then some anchor else t) (found-after before g near)
found-after (closes_unsent ∷ before) g near =
    let s = after before in
    found-close g s.generation s.turns
    ∙ ap (λ n. if n == g then none else found g s.turns) (after-generation before)
    ∙ ap (λ t. if binds_in before == g then none else t) (found-after before g near)
found-after (binds ∷ before) g near =
    let s = after before in
    found-prune g (s.generation + 1 - 1) s.turns (omega (arith, after-generation before))
    ∙ found-after before g (omega arith)
found-after (closes h ∷ before) g near =
    let s = after before in
    found-close g h s.turns ∙ ap (λ t. if h == g then none else t) (found-after before g near)

-- After any opens, closes and binds, the current binding and the one it replaced each see their own
-- turn alone: the anchor that a seam reads is that of the last turn opened under its binding and
-- not closed since, whatever was opened or closed under another; and a turn counts as in flight
-- exactly if the current binding has one. What is pruned is of older bindings.
pub after-turn_under :
    (calls : List Call) (g : ℕ)
    → binds_in calls ≤ g + 1
    → (seam_anchor g (after calls) ≡ bind (turn_under g calls) (λ a. a))
      × (is_open (after calls) ≡ is_some (turn_under (binds_in calls) calls))
unfolding seam_anchor is_open
after-turn_under calls g near = (
  anchor_of-found g (after calls) ∙ ap (λ t. bind t (λ a. a)) (found-after calls g near),
  is_open-found (after calls).generation (after calls).turns
      ∙ ap (λ n. is_some (found n (after calls).turns)) (after-generation calls)
      ∙ ap is_some (found-after calls (binds_in calls) (omega arith)),
)
