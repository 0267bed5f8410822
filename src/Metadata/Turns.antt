-- ===== src/Metadata/Turns.antt =====
-- `FulfillmentTurn` and `FulfillmentSeam` of agent-ledger/src/metadata.rs. The generation counts
-- the binds; a seam is named by the generation of the bind that made it.
pub mod Ideal
pub mod Bounded
use ronna_core.Prelude.{
  ℕ, ◌+◌, ◌-◌, Bool, not, Option, none, some, List, [], ◌∷◌, ◌++◌, ◌==◌, leb, filter, find, any,
  bind,
}

pub record TurnState : Type 0 where
  pub generation : ℕ
  -- Each open turn with its anchor, by the generation that opened it.
  pub turns : List (ℕ × Option ℕ)

unfoldable pub new : TurnState
new = record { generation = 0; turns = [] }

-- `open.iter().find(|(g, _)| *g == generation)`
unfoldable pub turn_of : ℕ → List (ℕ × Option ℕ) → Option (ℕ × Option ℕ)
turn_of generation turns = find (λ t. t.0 == generation) turns

unfoldable pub anchor_of : ℕ → TurnState → Option ℕ
unfolding turn_of
anchor_of generation state = bind (turn_of generation state.turns) (λ t. t.1)

unfoldable pub close_generation : ℕ → TurnState → TurnState
close_generation generation state = record state {
  turns = filter (λ t. not (t.0 == generation)) state.turns;
}

-- `FulfillmentTurn::open`
unfoldable pub open_turn : Option ℕ → TurnState → TurnState
unfolding close_generation
open_turn anchor state =
    let closed = close_generation state.generation state in
    record closed { turns = closed.turns ++ ((state.generation, anchor) ∷ []) }

unfoldable pub close_unsent : TurnState → TurnState
unfolding close_generation
close_unsent state = close_generation state.generation state

unfoldable pub is_open : TurnState → Bool
is_open state = any (λ t. t.0 == state.generation) state.turns

-- The new state, and the generation that the seam is scoped to.
unfoldable pub bind_turn : TurnState → TurnState × ℕ
bind_turn state =
    let generation = state.generation + 1 in
    let floor = generation - 1 in
    (
      record { generation = generation; turns = filter (λ t. leb floor t.0) state.turns },
      generation,
    )

-- `FulfillmentSeam::anchor` and `close`
unfoldable pub seam_anchor : ℕ → TurnState → Option ℕ
unfolding anchor_of
seam_anchor generation state = anchor_of generation state

unfoldable pub seam_close : ℕ → TurnState → TurnState
unfolding close_generation
seam_close generation state = close_generation generation state
