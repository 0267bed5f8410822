-- ===== src/Agency/Title.antt =====
-- Which title request a response settles: crates/agent-ledger/src/agency/metadata_title_request.rs.
pub mod Pairing
use ronna_core.Prelude.{
  ℕ, zero, suc, Bool, true, false, Option, none, some, List, [], ◌∷◌, ◌++◌, ◌==◌, if◌then◌else◌,
  map,
}
use ronna_core.Block.{Block}
use ronna_core.Agency.Records.{MetadataTitleRequest}
use ronna_core.Agency.Kinds.{BlockKind, from_block}

-- What a row does to the queue of open requests.
pub data Turn : Type 0 where
  request : ℕ → Turn
  response : Turn
  neither : Turn

unfoldable pub turn_of : BlockKind → Turn
turn_of (BlockKind.metadata_title_request r) = request r.id
turn_of BlockKind.metadata_title_response = response
turn_of _ = neither

-- The loop over the rows, with the requests that no response has settled yet, oldest first. A
-- response with no open request before it settles nothing.
unfoldable pub settled_loop : ℕ → List ℕ → List Turn → Bool
settled_loop id outstanding [] = false
settled_loop id outstanding (request r ∷ turns) = settled_loop id (outstanding ++ (r ∷ [])) turns
settled_loop id [] (response ∷ turns) = settled_loop id [] turns
settled_loop id (first ∷ outstanding) (response ∷ turns) =
    let rest = settled_loop id outstanding turns in if first == id then true else rest
settled_loop id outstanding (neither ∷ turns) = settled_loop id outstanding turns

unfoldable pub settled_in : MetadataTitleRequest → List Block → Bool
settled_in r ledger = settled_loop r.id [] (map (λ block. turn_of (from_block block)) ledger)
