-- ===== src/Store.antt =====
-- What the runtime asks of its store: the errors of crates/agent-ledger/src/store/mod.rs, and the
-- calls of `LedgerSource`, as a monad over a state that can fail.
use ronna_core.Prelude.{ℕ, String, Option, List}
use ronna_core.Block.{Block}

-- An error of the database library is kept as its text.
pub data StoreError : Type 0 where
  rejected contended unusable sqlite : String → StoreError
  actor_stopped : StoreError
  missing_block_content : ℕ → String → StoreError
  other : String → StoreError

pub data Result {ℓ} (A : Type ℓ) : Type ℓ where
  ok : A → Result A
  err : StoreError → Result A

-- A call reads and changes the state, and fails or returns.
abbrev pub M : Type 0 → Type 0 → Type 0
M S A = S → Result A × S

abbrev pub pure : {S A : Type 0} → A → M S A
pure a s = (ok a, s)

abbrev pub after : {S A B : Type 0} → (A → M S B) → Result A × S → Result B × S
after f (ok a, s) = f a s
after f (err e, s) = (err e, s)

infixl 5 ◌>>=◌ ◌>>◌
abbrev pub ◌>>=◌ : {S A B : Type 0} → M S A → (A → M S B) → M S B
◌>>=◌ m f s = after f (m s)

abbrev pub ◌>>◌ : {S A B : Type 0} → M S A → M S B → M S B
m >> k = m >>= λ _. k

-- `LedgerSource` of agency/ratchet.rs: the rows, the tail, and the persisted cursor of one ledger.
pub record LedgerSource (S : Type 0) : Type 0 where
  pub list : M S (List Block)
  pub tail : M S (Option Block)
  pub cursor : M S (Option ℕ)
  pub persist_cursor : ℕ → M S (Unit {0})
