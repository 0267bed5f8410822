-- ===== src/Metadata/Derivation.antt =====
-- The reader of a title's stream: `run_fulfillment_ingestion` of agent-ledger/src/metadata.rs.
--
-- `trimmed` is the text without white space at its ends, then without quotation marks, then without
-- white space: functions of the language's library.
pub mod Stored
use Prim.Native.String.{◌++◌ as str_append}
use ronna_core.Prelude.{
  ℕ, String, Bool, true, false, Option, none, some, List, [], ◌∷◌, ◌++◌, str_eq, if◌then◌else◌,
}
use ronna_core.Block.{Block}
use ronna_core.Store.{M, Result, ok, err}
use ronna_core.Event.{CoreEvent}
use ronna_core.Chat.Events.{FinalContentBlock, StreamEvent}
use ronna_core.Ingestion.Handle.{ProviderResponse}
use ronna_core.Metadata.Throttle.{ThrottleState, record_failure, record_success}
use ronna_core.Metadata.Turns.{TurnState, seam_anchor, seam_close}
use ronna_core.Metadata.Outside.{Outside}

-- The text so far, what the reader shares with the loop, and the events on the bus, in order.
pub record Derivation : Type 0 where
  pub title : String
  pub turn : TurnState
  pub throttle : ThrottleState
  pub emitted : List CoreEvent

-- `collect` of the texts of a restatement.
unfoldable pub restated : List FinalContentBlock → String
restated [] = ""
restated (FinalContentBlock.text text ∷ blocks) = str_append text (restated blocks)
restated (FinalContentBlock.thinking text ∷ blocks) = restated blocks
restated (FinalContentBlock.reasoning text payload ∷ blocks) = restated blocks

-- What an event of the stream makes of the text.
unfoldable pub title_after : StreamEvent → String → String
unfolding restated
title_after (StreamEvent.text_delta text) title = str_append title text
title_after (StreamEvent.text_final text) title = text
title_after (StreamEvent.content_final blocks) title =
    if str_eq (restated blocks) "" then title else restated blocks
title_after _ title = title

unfoldable pub first_id : Result (List Block) → Option ℕ
first_id (ok (block ∷ blocks)) = some block.id
first_id (ok []) = none
first_id (err e) = none

module _ {S : Type 0} (outside : Outside S) (trimmed : String → String)
    (conv_id generation : ℕ) where
  open outside use {clock, list_blocks, insert_response}

  unfoldable pub attempt_failed : Derivation → S → Derivation × S
  attempt_failed d s = (record d { throttle = (record_failure (clock s) d.throttle).0 }, s)

  -- A title is announced once it is stored.
  unfoldable pub on_stored : String → Derivation → Result ℕ × S → Derivation × S
  on_stored title d (ok id, s) = (
    record d {
      throttle = record_success d.throttle;
      emitted = d.emitted ++ (CoreEvent.title_updated conv_id title ∷ []);
    },
    s,
  )
  on_stored title d (err e, s) = attempt_failed d s

  unfoldable pub on_source : String → Derivation → Result (List Block) × S → Derivation × S
  on_source title d (blocks, s) =
      on_stored title d (insert_response (seam_anchor generation d.turn) (first_id blocks) title s)

  unfoldable pub finish_title : Derivation → S → Derivation × S
  finish_title d s =
      let title = trimmed d.title in
      if str_eq title "" then attempt_failed d s else on_source title d (list_blocks s)

  -- `title.clear(); seam.close();`
  unfoldable pub settle : Derivation × S → Derivation × S
  settle (d, s) = (record d { title = ""; turn = seam_close generation d.turn }, s)

  unfoldable pub on_response : ProviderResponse → Derivation → S → Derivation × S
  on_response (ProviderResponse.event event) d s =
      (record d { title = title_after event d.title }, s)
  on_response ProviderResponse.restart d s = (record d { title = "" }, s)
  on_response ProviderResponse.done d s = settle (finish_title d s)
  on_response (ProviderResponse.error message) d s = settle (attempt_failed d s)

  -- The loop, until the channel is closed.
  unfoldable pub run_fulfillment_ingestion : List ProviderResponse → Derivation → S → Derivation × S
  run_fulfillment_ingestion [] d s = (d, s)
  run_fulfillment_ingestion (r ∷ rs) d s =
      let (d', s') = on_response r d s in run_fulfillment_ingestion rs d' s'
