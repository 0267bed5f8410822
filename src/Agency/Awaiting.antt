-- ===== src/Agency/Awaiting.antt =====
-- Who owes a block's next move: `Awaiting` of crates/agent-ledger/src/types.rs, and its tests.
use ronna_core.Prelude.{Bool, true, false, Option, some, then_some}
use ronna_core.Block.{Role}

pub data Awaiting : Type 0 where
  model system user out_of_band : Awaiting

unfoldable pub is_model : Option Awaiting → Bool
is_model (some Awaiting.model) = true
is_model _ = false

-- `role == Some(Role::User)`.
unfoldable pub is_user : Option Role → Bool
is_user (some Role.user) = true
is_user _ = false

-- A user's own block asks the model; any other asks nobody.
unfoldable pub user_asks : Option Role → Option Awaiting
unfolding is_user
user_asks role = then_some (is_user role) Awaiting.model
