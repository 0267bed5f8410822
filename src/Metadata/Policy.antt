-- ===== src/Metadata/Policy.antt =====
-- The policy that asks for a title, and the tick of the metadata ratchet: `policy_tick`,
-- `metadata_tick` and `spawn` of agent-ledger/src/metadata.rs.
pub mod Once
use ronna_core.Prelude.{
  ℕ, String, Bool, true, false, not, ◌&&◌, Option, none, some, List, [], ◌∷◌, if◌then◌else◌, ltb,
  leb,
}
use ronna_core.Block.{Block}
use ronna_core.Store.{M, Result, ok, err, LedgerSource}
use ronna_core.Agency.Interface.{RuntimeKind}
use ronna_core.Agency.Drive.{Outcome, Driven, ran, conversation_gone, drive_ledger}
use ronna_core.Metadata.Outside.{Outside, ok_or}
use ronna_core.Metadata.Derivation.{first_id}

abbrev pub title_derive_max_blocks : ℕ
title_derive_max_blocks = 8

module _ {S : Type 0} (outside : Outside S) where
  open outside use {block_count, has_metadata, has_assistant_blocks, list_blocks, insert_request}

  -- A failed write is logged.
  unfoldable pub request_title : S → S
  request_title s = let (blocks, s') = list_blocks s in (insert_request (first_id blocks) s').1

  -- A read that fails counts as a row that exists.
  unfoldable pub unless_metadata : String → (S → S) → S → S
  unless_metadata kind next s =
      let (has, s') = has_metadata kind s in if ok_or has true then s' else next s'

  unfoldable pub if_assistant_spoke : (S → S) → S → S
  if_assistant_spoke next s =
      let (spoke, s') = has_assistant_blocks s in if ok_or spoke false then next s' else s'

  unfoldable pub policy_tick : S → S
  unfolding request_title unless_metadata if_assistant_spoke
  policy_tick s =
      let (count, s') = block_count s in
      let n = ok_or count 0 in
      if ltb 0 n && leb n title_derive_max_blocks
      then unless_metadata "title_request"
          (unless_metadata "title_response" (if_assistant_spoke request_title)) s'
      else s'

module _ {K S : Type 0} (kind : RuntimeKind K S) (metadata_ledger : LedgerSource S) where
  unfoldable pub driven_outcome : Result Driven → Option Outcome
  driven_outcome (ok (ran outcome)) = some outcome
  driven_outcome (ok conversation_gone) = none
  driven_outcome (err e) = none

  unfoldable pub metadata_tick : Bool → S → Option Outcome × S
  unfolding driven_outcome
  metadata_tick true s = (none, s)
  metadata_tick false s =
      let (driven, s') = drive_ledger kind metadata_ledger s in (driven_outcome driven, s')

-- The tasks of a conversation's metadata.
pub data Task : Type 0 where
  policy_watcher metadata_scheduler fulfillment_loop : Task

unfoldable pub spawn : Bool → List Task
spawn title_derivation =
    if title_derivation
    then Task.policy_watcher ∷ Task.metadata_scheduler ∷ Task.fulfillment_loop ∷ []
    else []
