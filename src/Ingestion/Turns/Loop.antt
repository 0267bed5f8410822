-- ===== src/Ingestion/Turns/Loop.antt =====
-- How often a reader ends a turn, over its channel: `run_channel` of ingestion.rs.
use ronna_core.Prelude.{
  if_lem, suc, ◌+◌, String, ◌≡◌, refl, ap, ◌∙◌, Bool, true, false, not, ◌&&◌, List, [], ◌∷◌, map,
  if◌then◌else◌, ◌==◌, arith, String, bind,
}
use ronna_core.Event.{error_key}
use ronna_core.Ingestion.Reader.{
  mark_abandoned, is_abandoned, ChannelReader, emit, discard_unterminated_tails, emit_turn_terminal,
  abandon_owed_empty_commit,
}
use ronna_core.Ingestion.Handle.{ProviderResponse, handle_response}
use ronna_core.Ingestion.Channel.{Input, run_channel, abandon_turn, close_channel}
use ronna_core.Ingestion.Quiet.{terminals, terminals-snoc}
use ronna_core.Ingestion.Turns.{
  ends, turns, unterminated-IsQuiet, terminal_event-ends, turn_step, count, handle_response-ends,
  close_channel-terminals,
}

module _ (interactive : String → Bool) where
  -- A reader that is not latched puts one end of stream on the bus for each `done` and each error,
  -- and one for a turn that the channel's end leaves open.
  pub run_channel-terminals :
      (rs : List ProviderResponse) (reader : ChannelReader)
      → reader.latched ≡ false
      → terminals (run_channel interactive (map Input.response rs) reader).emitted
        ≡ terminals reader.emitted + turns rs reader.mid_turn
  unfolding run_channel turns
  run_channel-terminals [] reader free = (close_channel-terminals reader).0
  run_channel-terminals (r ∷ rs) reader free =
      let next = handle_response interactive r reader in
      let (counted, ended, same) = handle_response-ends interactive r reader in
      ap
        (λ (q : ChannelReader).
          terminals (run_channel interactive (map Input.response rs) q).emitted)
        (ap (λ b. if b then reader else next) free)
      ∙ run_channel-terminals rs next (same ∙ free)
      ∙ turn_step (ends r) rs (terminals reader.emitted) (terminals next.emitted) next.mid_turn
          counted ended

  -- Whatever the channel yields, and whatever the actor does meanwhile, the reader leaves no turn
  -- open when it ends.
  run_channel-closes :
      (inputs : List Input) (reader : ChannelReader)
      → (run_channel interactive inputs reader).mid_turn ≡ false
  unfolding run_channel
  run_channel-closes [] reader = (close_channel-terminals reader).1
  run_channel-closes (Input.response r ∷ inputs) reader = run_channel-closes inputs _
  run_channel-closes (Input.deadline ∷ inputs) reader =
      if_lem (λ (r : ChannelReader). r.mid_turn ≡ false)
        (reader.draining && (reader.seam.epoch == reader.drained_epoch))
        (close_channel-terminals (abandon_turn reader)).1 (run_channel-closes inputs _)
  run_channel-closes (Input.dispatched anchor ∷ inputs) reader = run_channel-closes inputs _
  run_channel-closes (Input.cleared ∷ inputs) reader = run_channel-closes inputs _
  run_channel-closes (Input.latch latched ∷ inputs) reader = run_channel-closes inputs _

  -- If the deadline passes for the turn that the reader drains, then whatever comes later the
  -- reader ends the turn once, and the seam says that it was abandoned.
  pub run_channel-deadline :
      (inputs : List Input) (reader : ChannelReader)
      → reader.draining ≡ true
      → reader.seam.epoch ≡ reader.drained_epoch
      → (terminals (run_channel interactive (Input.deadline ∷ inputs) reader).emitted
          ≡ suc (terminals reader.emitted))
        × (is_abandoned (run_channel interactive (Input.deadline ∷ inputs) reader).seam ≡ true)
  unfolding run_channel
  run_channel-deadline inputs reader drains own =
      let expired : (reader.draining && (reader.seam.epoch == reader.drained_epoch)) ≡ true =
        ground (arith, drains, own) in
      let rest = run_channel interactive inputs (
        if reader.draining && not (reader.seam.epoch == reader.drained_epoch)
        then record (abandon_owed_empty_commit reader) { draining = false }
        else reader) in
      let here = ap (λ b. if b then close_channel (abandon_turn reader) else rest) expired in
      (
        ap (λ (r : ChannelReader). terminals r.emitted) here
            ∙ unfold close_channel abandon_turn emit_turn_terminal emit in
              (terminals-snoc _ _
                ∙ rw
                    (terminal_event-ends (discard_unterminated_tails reader).conversation_id
                      (discard_unterminated_tails reader).generation
                      (bind (discard_unterminated_tails reader).abnormal_stop error_key))
                    (ap suc (
                      count (discard_unterminated_tails reader) reader
                        (unterminated-IsQuiet reader)))),
        ap (λ (r : ChannelReader). is_abandoned r.seam) here
            ∙ unfold close_channel abandon_turn emit_turn_terminal emit is_abandoned
                mark_abandoned in
              refl,
      )
