-- ===== src/Agency/Drive.antt =====
-- The ratchet: `drive_ledger` of crates/agent-ledger/src/agency/ratchet.rs, over any kind and any
-- ledger source. A row's work may change the store, so every read is a call on the state.
pub mod Cursor
pub mod Verdict
use ronna_core.Prelude.{
  ℕ, Bool, true, false, not, ◌&&◌, ◌||◌, Option, none, some, List, [], ◌∷◌, ◌==◌, if◌then◌else◌,
  bind, is_none, drop,
}
use ronna_core.Block.{Block}
use ronna_core.Store.{Result, ok, err, M, pure, after, ◌>>=◌, ◌>>◌, LedgerSource}
use ronna_core.Agency.Awaiting.{Awaiting, is_model}
use ronna_core.Agency.Interface.{RuntimeKind}
use ronna_core.Agency.Frontier.{
  resume_at, awaits_model, frontier_block, frontier_owes_turn, ledger_turn_durably_over,
}

pub record Outcome : Type 0 where
  pub cursor : ℕ
  pub owes_turn : Bool
  pub parked : Bool
  pub awaiting : Option Awaiting

pub data Driven : Type 0 where
  ran : Outcome → Driven
  conversation_gone : Driven

unfoldable pub outcome : Driven → Option Outcome
outcome (ran o) = some o
outcome conversation_gone = none

unfoldable pub work_due : Outcome → Bool
work_due o = o.parked || is_model o.awaiting

module _ {K S : Type 0} (kind : RuntimeKind K S) (source : LedgerSource S) where
  open kind use {from_block, awaiting, durable, frontier_transparent, run}
  open source use {list, tail, persist_cursor}

  -- What follows a row's work: a row that is done moves the cursor, if it is durable and elsewhere,
  -- and the drive goes on; a row that is not done, or whose work failed, parks the drive.
  confirm : Block → ℕ → (ℕ → M S (ℕ × Bool)) → Result Bool × S → Result (ℕ × Bool) × S
  confirm block cursor next (ok true, s) =
      (if durable (from_block block) && not (cursor == block.id)
          then (persist_cursor block.id >>= (λ _. next block.id))
          else next cursor)
        s
  confirm block cursor next (ok false, s) = (ok (cursor, true), s)
  confirm block cursor next (err e, s) = (ok (cursor, true), s)

  -- The loop over the rows from the resume point: the cursor, and whether the drive parked.
  unfoldable pub drive_blocks : List Block → ℕ → M S (ℕ × Bool)
  unfolding confirm
  drive_blocks [] cursor s = (ok (cursor, false), s)
  drive_blocks (block ∷ blocks) cursor s =
      confirm block cursor (λ c. drive_blocks blocks c) (run (from_block block) s)

  -- The listing that the frontier is read off, if the tail is transparent or awaits the model.
  unfoldable pub wants_listing : Option Block → Bool
  wants_listing none = false
  wants_listing (some block) = frontier_transparent (from_block block) || awaits_model kind block

  unfoldable pub list_for : Option Block → M S (Option (List Block))
  list_for tail =
      if wants_listing tail then (list >>= (λ blocks. pure (some blocks))) else pure none

  -- The outcome of a drive, from its cursor, its parking, the tail and the listing.
  unfoldable pub verdict : ℕ → Bool → Option Block → Option (List Block) → Outcome
  verdict cursor parked tail listing =
      let frontier : Option Block = elim listing [
        | none ↦ tail
        | some blocks ↦ frontier_block kind blocks
      ] in
      record {
        cursor = cursor;
        owes_turn = not parked && (elim listing [
          | none ↦ false
          | some blocks ↦ frontier_owes_turn kind blocks cursor
        ]);
        parked = parked;
        awaiting = bind frontier (λ block. awaiting (from_block block));
      }

  unfoldable pub drive_from : List Block → ℕ → M S Driven
  drive_from ledger start =
      drive_blocks (drop (resume_at ledger start) ledger) start >>= λ (cursor, parked).
      tail >>= λ last. list_for last >>= λ listing. pure (ran (verdict cursor parked last listing))

  drive_present : List Block → Option ℕ → M S Driven
  drive_present ledger none = pure conversation_gone
  drive_present ledger (some cursor) = drive_from ledger cursor

  unfoldable pub drive_ledger : M S Driven
  unfolding drive_present
  drive_ledger = do ledger ← list; cursor ← source.cursor; drive_present ledger cursor

  unfoldable pub is_conversation_gone : M S Bool
  is_conversation_gone = do cursor ← source.cursor; pure (is_none cursor)

  unfoldable pub turn_durably_over : M S Bool
  turn_durably_over = do ledger ← list; pure (ledger_turn_durably_over kind ledger)
