-- ===== src/Tests/Turns.antt =====
-- A reader's channel, at concrete responses.
use ronna_core.Prelude.{String, Bool, true, false, ◌≡◌, refl, none, some, List, [], ◌∷◌, map}
use ronna_core.Chat.Events.{StopReason, StreamEvent, no_usage}
use ronna_core.Ingestion.Rows.{Content}
use ronna_core.Ingestion.Reader.{ChannelReader, Seam, is_abandoned}
use ronna_core.Ingestion.Handle.{ProviderResponse}
use ronna_core.Ingestion.Channel.{Input, new_reader, run_channel}
use ronna_core.Ingestion.Quiet.{terminals}
use ronna_core.Ingestion.Turns.Loop.{run_channel-terminals, run_channel-deadline}
use ronna_core.Tests.Evaluated.{evaluated}

abbrev seam : Seam
seam = record { anchor = some 7; epoch = 1; abandoned = none }

abbrev reader : ChannelReader
reader = new_reader 1 2 seam (record { next_id = 1; rows = [] })

abbrev not_interactive : String → Bool
not_interactive name = false

abbrev said : List ProviderResponse
said =
    ProviderResponse.event StreamEvent.text_block_start
    ∷ ProviderResponse.event (StreamEvent.text_delta "hel")
    ∷ ProviderResponse.event (StreamEvent.text_delta "lo")
    ∷ ProviderResponse.event (StreamEvent.message_end no_usage StopReason.end_turn)
    ∷ ProviderResponse.done
    ∷ []

abbrev after_said : ChannelReader
after_said = run_channel not_interactive (map Input.response said) reader

-- The text is one durable row under the turn's anchor; its tail is gone.
one_row :
    after_said.ledger.rows
    ≡ record {
      id = 2;
      conversation_id = 1;
      dispatch_anchor = some 7;
      content = Content.text "hello";
    }
      ∷ []
unfolding evaluated
one_row = refl

-- A tool's turn that is done, then another that an error ends, then one that is left open.
abbrev three_turns : List ProviderResponse
three_turns =
    ProviderResponse.event (StreamEvent.tool_use_start "c" "read")
    ∷ ProviderResponse.event (StreamEvent.tool_use_input_delta "{}")
    ∷ ProviderResponse.event StreamEvent.tool_use_end
    ∷ ProviderResponse.done
    ∷ ProviderResponse.error "lost"
    ∷ ProviderResponse.event StreamEvent.connected
    ∷ []

run_channel-terminals_example :
    terminals (run_channel not_interactive (map Input.response three_turns) reader).emitted ≡ 3
unfolding evaluated
run_channel-terminals_example = run_channel-terminals not_interactive three_turns reader refl

-- A message has ended and its turn has not.
abbrev draining : ChannelReader
draining = record reader { mid_turn = true; draining = true; drained_epoch = 1 }

run_channel-deadline_example :
    (terminals (run_channel not_interactive (Input.deadline ∷ Input.cleared ∷ []) draining).emitted
      ≡ 1)
    × (is_abandoned
          (run_channel not_interactive (Input.deadline ∷ Input.cleared ∷ []) draining).seam
        ≡ true)
unfolding evaluated
run_channel-deadline_example =
    run_channel-deadline not_interactive (Input.cleared ∷ []) draining refl refl

-- Reasoning that is still open at a message's end is not tracked any more at `done`: its streaming
-- row stays, beside the empty text that the turn commits.
abbrev open_thought : List ProviderResponse
open_thought =
    ProviderResponse.event StreamEvent.thinking_start
    ∷ ProviderResponse.event (StreamEvent.message_end no_usage StopReason.end_turn)
    ∷ ProviderResponse.done
    ∷ []

tail_outlives_its_turn :
    map
      (λ row. row.content)
      (run_channel not_interactive (map Input.response open_thought) reader).ledger.rows
    ≡ Content.streaming_thinking "" none ∷ Content.text "" ∷ []
unfolding evaluated
tail_outlives_its_turn = refl
