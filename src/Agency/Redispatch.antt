-- ===== src/Agency/Redispatch.antt =====
-- The deferred-work walk: crates/agent-ledger/src/agency/redispatch.rs, over any kind.
pub mod Ends
pub mod Approved
use ronna_core.Prelude.{
  ℕ, zero, suc, Bool, Option, none, some, List, [], ◌∷◌, ◌++◌, ◌==◌, if◌then◌else◌, find, contains,
  last?, length,
}
use ronna_core.Block.{Block}
use ronna_core.Store.{M, pure, ◌>>=◌, ◌>>◌}
use ronna_core.Agency.Interface.{RuntimeKind}

module _ {K S : Type 0} (kind : RuntimeKind K S) where
  open kind use {from_block, post_gate_id, run_post_gate}

  -- What the loop does next, from a head, the visited ids and the chain.
  abbrev Onward : Type 0
  Onward = K → List ℕ → List K → Option (List K)

  visit : Onward → List ℕ → List K → ℕ → Option Block → Option (List K)
  visit onward visited chain next_id none = some chain
  visit onward visited chain next_id (some next) =
      onward (from_block next) (visited ++ (next_id ∷ [])) (from_block next ∷ chain)

  route : Onward → List Block → List ℕ → List K → Option ℕ → Option (List K)
  unfolding visit
  route onward ledger visited chain none = some chain
  route onward ledger visited chain (some next_id) =
      if contains visited next_id
      then some chain
      else visit onward visited chain next_id (find (λ block. block.id == next_id) ledger)

  -- The loop that follows the routing. The chain has its head first, which is the order in which
  -- its kinds run; `none` means that the fuel ran out.
  unfoldable pub walk_chain : ℕ → List Block → K → List ℕ → List K → Option (List K)
  unfolding route
  walk_chain zero ledger head visited chain = none
  walk_chain (suc fuel) ledger head visited chain =
      route (λ h v c. walk_chain fuel ledger h v c) ledger visited chain (post_gate_id head ledger)

  unfoldable pub run_chain : List K → M S (Unit {0})
  run_chain [] = pure tt
  run_chain (k ∷ chain) = run_post_gate k >>= λ _. run_chain chain

  -- A chain of the anchor alone routed nowhere.
  unfoldable pub run_routed : List K → M S (Unit {0})
  run_routed [] = pure tt
  run_routed (k ∷ []) = pure tt
  run_routed (k ∷ next ∷ chain) = run_chain (k ∷ next ∷ chain)

  -- Fuel never runs out: a ledger's rows, and one round more, are enough.
  run_found : Option (List K) → M S (Unit {0})
  unfolding run_routed
  run_found none = pure tt
  run_found (some chain) = run_routed chain

  unfoldable pub walk_from : List Block → Option Block → M S (Unit {0})
  unfolding run_found
  walk_from ledger none = pure tt
  walk_from ledger (some anchor) = run_found (
      walk_chain (suc (length ledger)) ledger (from_block anchor) (anchor.id ∷ [])
        (from_block anchor ∷ []))

  unfoldable pub walk : M S (List Block) → M S (Unit {0})
  walk list_blocks = list_blocks >>= λ ledger. walk_from ledger (last? ledger)
