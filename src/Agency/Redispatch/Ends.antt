-- ===== src/Agency/Redispatch/Ends.antt =====
-- The walk ends by its own conditions.
use ronna_core.Prelude.{
  ℕ, zero, suc, ◌<◌, ◌≤◌, ◌≡◌, refl, false, not, ◌||◌, Option, none, some, List, [], ◌∷◌, ◌++◌,
  ◌==◌, find, filter, contains, length, arith, Bool-cases, inl, inr,
}
use ronna_core.Block.{Block}
use ronna_core.Agency.Interface.{RuntimeKind}
use ronna_core.Agency.Redispatch.{walk_chain, visit, route, Onward}

-- The rows that the walk has not visited.
unvisited : List ℕ → List Block → ℕ
unvisited visited rows = length (filter (λ block. not (contains visited block.id)) rows)

contains-snoc : (xs : List ℕ) (x n : ℕ) → contains (xs ++ (x ∷ [])) n ≡ (contains xs n || (x == n))
unfolding contains
contains-snoc [] x n = ground arith
contains-snoc (y ∷ xs) x n = ground (arith, contains-snoc xs x n)

unvisited-le :
    (visited : List ℕ) (id : ℕ) (rows : List Block)
    → unvisited (visited ++ (id ∷ [])) rows ≤ unvisited visited rows
unfolding unvisited filter
unvisited-le visited id [] = omega arith
unvisited-le visited id (b ∷ rows) =
    ground (arith, contains-snoc visited id b.id, unvisited-le visited id rows)

unvisited-lt :
    (visited : List ℕ) (id : ℕ) (rows : List Block) (row : Block)
    → contains visited id ≡ false
    → find (λ block. block.id == id) rows ≡ some row
    → unvisited (visited ++ (id ∷ [])) rows < unvisited visited rows
unfolding unvisited filter find
unvisited-lt visited id [] row new found = cc
unvisited-lt visited id (b ∷ rows) row new found = ground (
  arith,
  contains-snoc visited id b.id,
  unvisited-le visited id rows,
  unvisited-lt visited id rows row new,
)

unvisited-le-length : (visited : List ℕ) (rows : List Block) → unvisited visited rows ≤ length rows
unfolding unvisited filter
unvisited-le-length visited [] = omega arith
unvisited-le-length visited (b ∷ rows) = ground (arith, unvisited-le-length visited rows)

module _ {K S : Type 0} (kind : RuntimeKind K S) where
  open kind use {from_block, post_gate_id}

  abbrev Ends : Option (List K) → Type 0
  Ends o = (result : List K) × (o ≡ some result)

  visit-Ends :
      (onward : Onward kind) (ledger : List Block) (visited : List ℕ) (chain : List K) (next_id : ℕ)
      → ((head : K) (visited' : List ℕ) (chain' : List K)
          → unvisited visited' ledger < unvisited visited ledger
          → Ends (onward head visited' chain'))
      → contains visited next_id ≡ false
      → (row : Option Block) → find (λ block. block.id == next_id) ledger ≡ row
      → Ends (visit kind onward visited chain next_id row)
  unfolding visit
  visit-Ends onward ledger visited chain next_id ih new none found = (chain, refl)
  visit-Ends onward ledger visited chain next_id ih new (some row) found =
      ih (from_block row) (visited ++ (next_id ∷ [])) (from_block row ∷ chain)
        (unvisited-lt visited next_id ledger row new found)

  route-Ends :
      (onward : Onward kind) (ledger : List Block) (visited : List ℕ) (chain : List K)
      → ((head : K) (visited' : List ℕ) (chain' : List K)
          → unvisited visited' ledger < unvisited visited ledger
          → Ends (onward head visited' chain'))
      → (next : Option ℕ) → Ends (route kind onward ledger visited chain next)
  unfolding route
  route-Ends onward ledger visited chain ih none = (chain, refl)
  route-Ends onward ledger visited chain ih (some next_id) =
      elim (Bool-cases (contains visited next_id)) [
        | inl cycle ↦ (chain, rw cycle)
        | inr new ↦ rw new (
            visit-Ends onward ledger visited chain next_id ih new
              (find (λ block. block.id == next_id) ledger) refl)
      ]

  ends :
      (fuel : ℕ) (ledger : List Block) (head : K) (visited : List ℕ) (chain : List K)
      → unvisited visited ledger < fuel
      → Ends (walk_chain kind fuel ledger head visited chain)
  unfolding walk_chain
  ends zero ledger head visited chain h = absurd (omega arith)
  ends (suc fuel) ledger head visited chain h =
      route-Ends (λ k v c. walk_chain kind fuel ledger k v c) ledger visited chain
        (λ k v c fewer. ends fuel ledger k v c (omega arith)) (post_gate_id head ledger)

  -- The walk always ends: whatever a kind routes to, as many rounds as the ledger has rows, and
  -- one, are enough, since no row is visited twice.
  pub walk_chain_total :
      (ledger : List Block) (head : K) (visited : List ℕ) (chain : List K)
      → (result : List K) × (walk_chain kind (suc (length ledger)) ledger head visited chain
          ≡ some result)
  walk_chain_total ledger head visited chain =
      ends (suc (length ledger)) ledger head visited chain
        (omega (arith, unvisited-le-length visited ledger))
