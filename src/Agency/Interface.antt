-- ===== src/Agency/Interface.antt =====
-- What the machinery requires of the kind that it runs over: the traits `FromBlock` and `Agency` of
-- crates/agent-ledger/src/agency/mod.rs, as one record. A consumer's composing enum fills it, and
-- so does the library's own.
use ronna_core.Prelude.{ℕ, Bool, Option, List}
use ronna_core.Block.{Block}
use ronna_core.Store.{M}
use ronna_core.Agency.Awaiting.{Awaiting}

pub record RuntimeKind (K S : Type 0) : Type 0 where
  pub from_block : Block → K
  pub awaiting : K → Option Awaiting
  pub durable : K → Bool
  pub frontier_transparent : K → Bool
  pub run : K → M S Bool
  pub post_gate_id : K → List Block → Option ℕ
  pub run_post_gate : K → M S (Unit {0})
