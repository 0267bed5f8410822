-- ===== src/Ingestion/Channel.antt =====
-- The reader's loop: `run_channel` of ingestion.rs.
use ronna_core.Prelude.{ℕ, String, Bool, false, not, ◌&&◌, none, List, [], ◌∷◌, if◌then◌else◌, ◌==◌}
use ronna_core.Ingestion.Rows.{Rows}
use ronna_core.Ingestion.Reader.{
  ChannelReader, Step, Seam, fresh, set_anchor, clear_anchor, mark_abandoned,
  discard_unterminated_tails, discard_tracked_tails, abandon_owed_empty_commit, emit_turn_terminal,
}
use ronna_core.Ingestion.Handle.{ProviderResponse, handle_response}

-- What happens to a waiting reader: a response, the drain's deadline, and what the actor does to
-- what they share.
pub data Input : Type 0 where
  response : ProviderResponse → Input
  deadline : Input
  dispatched : ℕ → Input
  cleared : Input
  latch : Bool → Input

unfoldable pub new_reader : ℕ → ℕ → Seam → Rows → ChannelReader
new_reader conversation generation seam ledger = record {
  conversation_id = conversation;
  trackers = fresh;
  mid_turn = false;
  generation = generation;
  seam = seam;
  abnormal_stop = none;
  owes_empty_commit = false;
  draining = false;
  drained_epoch = 0;
  latched = false;
  ledger = ledger;
  emitted = [];
  faults = [];
}

-- The turn that the deadline ends.
unfoldable pub abandon_turn : Step
abandon_turn reader =
    let swept = discard_unterminated_tails reader in
    emit_turn_terminal (record swept { seam = mark_abandoned swept.drained_epoch swept.seam })

-- The channel has closed.
unfoldable pub close_channel : Step
close_channel reader =
    if reader.mid_turn then emit_turn_terminal (discard_tracked_tails reader) else reader

module _ (interactive : String → Bool) where
  -- The deadline is armed between a message's end and the turn's: it passes an idle reader by. One
  -- that was armed by an earlier turn only ends the drain.
  unfoldable pub run_channel : List Input → Step
  run_channel [] reader = close_channel reader
  run_channel (response r ∷ inputs) reader =
      run_channel inputs (if reader.latched then reader else handle_response interactive r reader)
  run_channel (deadline ∷ inputs) reader =
      let stale = record (abandon_owed_empty_commit reader) { draining = false } in
      let goes_on = run_channel inputs (
        if reader.draining && not (reader.seam.epoch == reader.drained_epoch)
        then stale
        else reader) in
      if reader.draining && (reader.seam.epoch == reader.drained_epoch)
      then close_channel (abandon_turn reader)
      else goes_on
  run_channel (dispatched anchor ∷ inputs) reader =
      run_channel inputs (record reader { seam = set_anchor anchor reader.seam })
  run_channel (cleared ∷ inputs) reader =
      run_channel inputs (record reader { seam = clear_anchor reader.seam })
  run_channel (latch latched ∷ inputs) reader =
      run_channel inputs (record reader { latched = latched })
