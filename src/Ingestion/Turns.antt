-- ===== src/Ingestion/Turns.antt =====
-- How often a reader ends a turn, over one response: `handle_response` of ingestion.rs.
pub mod Loop
use ronna_core.Prelude.{
  scan, if_lem, ℕ, suc, ◌+◌, String, ◌≡◌, refl, ap, ◌∙◌, Bool, true, false, not, ◌&&◌, Option, none,
  some, List, [], ◌∷◌, map, if◌then◌else◌, ◌==◌, arith, is_none, String, bind,
}
use ronna_core.Event.{CoreEvent, error_key}
use ronna_core.Ingestion.Reader.{
  mark_abandoned, is_abandoned, ChannelReader, fresh, has_open_tails, emit,
  discard_unterminated_tails, discard_tracked_tails, emit_turn_terminal, terminal_event,
  abandon_owed_empty_commit, discard_each, set_trackers,
}
use ronna_core.Ingestion.Text.{finalize_streamed_text_tail}
use ronna_core.Ingestion.Handle.{
  ProviderResponse, handle_response, commit_owed_empty_turn, drop_turn,
}
use ronna_core.Ingestion.Channel.{Input, run_channel, abandon_turn, close_channel}
use ronna_core.Ingestion.Quiet.{
  view, View, IsQuiet, terminals, is_terminal, terminals-snoc, attempt-view, stay-IsQuiet,
  discard-IsQuiet,
}
use ronna_core.Ingestion.Quiet.Text.{finalize-IsQuiet}
use ronna_core.Ingestion.Quiet.Calls.{ingest-IsQuiet}

-- Whether a response is the end of its turn.
unfoldable pub ends : ProviderResponse → Bool
ends ProviderResponse.done = true
ends (ProviderResponse.error message) = true
ends _ = false

-- The turns that responses end, and the one that the channel's end leaves open.
unfoldable pub turns : List ProviderResponse → Bool → ℕ
unfolding ends
turns [] mid_turn = if mid_turn then 1 else 0
turns (r ∷ rs) mid_turn =
    let ended = suc (turns rs false) in
    let goes_on = turns rs true in if ends r then ended else goes_on

pub unterminated-IsQuiet : IsQuiet discard_unterminated_tails
unfolding discard_unterminated_tails
unterminated-IsQuiet reader =
    if_lem (λ r. view r ≡ view reader) (has_open_tails reader.trackers) (discard-IsQuiet reader)
      refl

commit_owed-IsQuiet : IsQuiet commit_owed_empty_turn
unfolding commit_owed_empty_turn abandon_owed_empty_commit
commit_owed-IsQuiet reader =
    if_lem (λ r. view r ≡ view reader) (reader.owes_empty_commit && is_none reader.abnormal_stop)
      (attempt-view _ _ _ (abandon_owed_empty_commit reader) (λ _. stay-IsQuiet) stay-IsQuiet) refl

pub terminal_event-ends :
    (conversation generation : ℕ) (o : Option String)
    → is_terminal (terminal_event conversation generation o) ≡ true
unfolding terminal_event
terminal_event-ends conversation generation none = refl
terminal_event-ends conversation generation (some error) = refl

emit_turn_terminal-terminals :
    (reader : ChannelReader)
    → terminals (emit_turn_terminal reader).emitted ≡ suc (terminals reader.emitted)
unfolding emit_turn_terminal emit
emit_turn_terminal-terminals reader =
    terminals-snoc reader.emitted _
    ∙ rw (terminal_event-ends reader.conversation_id reader.generation _) refl

pub count : (a b : ChannelReader) → view a ≡ view b → terminals a.emitted ≡ terminals b.emitted
count a b e = ap (λ (v : View). v.terminals) e

each-IsQuiet : (ids : List ℕ) → IsQuiet (discard_each ids)
unfolding discard_each scan
each-IsQuiet [] reader = refl
each-IsQuiet (id ∷ ids) reader =
    each-IsQuiet ids _ ∙ attempt-view _ _ _ reader (λ _. stay-IsQuiet) stay-IsQuiet

tracked-IsQuiet : IsQuiet discard_tracked_tails
unfolding discard_tracked_tails set_trackers
tracked-IsQuiet reader =
    if_lem (λ r. view r ≡ view reader) (has_open_tails reader.trackers)
      (each-IsQuiet _ (record reader { trackers = fresh })) refl

closes_if :
    (b : Bool) (reader : ChannelReader)
    → reader.mid_turn ≡ b
    → (terminals (if b then emit_turn_terminal (discard_tracked_tails reader) else reader).emitted
        ≡ terminals reader.emitted + (if b then 1 else 0))
      × ((if b then emit_turn_terminal (discard_tracked_tails reader) else reader).mid_turn ≡ false)
closes_if true reader own = (
  omega (
    arith,
    emit_turn_terminal-terminals (discard_tracked_tails reader),
    count (discard_tracked_tails reader) reader (tracked-IsQuiet reader),
  ),
  unfold emit_turn_terminal emit in refl,
)
closes_if false reader own = (omega arith, own)

pub close_channel-terminals :
    (reader : ChannelReader)
    → (terminals (close_channel reader).emitted
        ≡ terminals reader.emitted + (if reader.mid_turn then 1 else 0))
      × ((close_channel reader).mid_turn ≡ false)
unfolding close_channel
close_channel-terminals reader = closes_if reader.mid_turn reader refl

pub turn_step :
    (b : Bool) (rs : List ProviderResponse) (before after' : ℕ) (mid_turn : Bool)
    → after' ≡ (if b then suc before else before)
    → mid_turn ≡ not b
    → after' + turns rs mid_turn ≡ before + (if b then suc (turns rs false) else turns rs true)
turn_step true rs before after' mid_turn counted ended =
    omega (arith, counted, ap (λ m. turns rs m) ended)
turn_step false rs before after' mid_turn counted ended =
    omega (arith, counted, ap (λ m. turns rs m) ended)

module _ (interactive : String → Bool) where
  settle : ChannelReader → ChannelReader
  settle reader =
      commit_owed_empty_turn (discard_unterminated_tails (finalize_streamed_text_tail reader).1)

  settle-IsQuiet : IsQuiet settle
  unfolding settle
  settle-IsQuiet reader = commit_owed-IsQuiet _ ∙ unterminated-IsQuiet _ ∙ finalize-IsQuiet reader

  -- Every response but `done` and `error` leaves the turn open and ends no stream; these two end
  -- one, and the turn.
  pub handle_response-ends :
      (r : ProviderResponse) (reader : ChannelReader)
      → (terminals (handle_response interactive r reader).emitted
          ≡ (if ends r then suc (terminals reader.emitted) else terminals reader.emitted))
        × ((handle_response interactive r reader).mid_turn ≡ not (ends r))
        × ((handle_response interactive r reader).latched ≡ reader.latched)
  unfolding handle_response ends drop_turn abandon_owed_empty_commit emit emit_turn_terminal settle
  handle_response-ends (ProviderResponse.event e) reader =
      let quiet = ingest-IsQuiet interactive e (record reader { mid_turn = true }) in
      (
        ap (λ (v : View). v.terminals) quiet,
        ap (λ (v : View). v.mid_turn) quiet,
        ap (λ (v : View). v.latched) quiet,
      )
  handle_response-ends ProviderResponse.restart reader =
      let quiet = discard-IsQuiet (record reader { mid_turn = true }) in
      (
        ap (λ (v : View). v.terminals) quiet,
        ap (λ (v : View). v.mid_turn) quiet,
        ap (λ (v : View). v.latched) quiet,
      )
  handle_response-ends (ProviderResponse.error message) reader =
      let told =
        emit (CoreEvent.stream_error reader.conversation_id message (some reader.generation))
          (record reader { mid_turn = true }) in
      let quiet = discard-IsQuiet told in
      (
        ap (λ (v : View). v.terminals) quiet ∙ terminals-snoc reader.emitted _,
        refl,
        ap (λ (v : View). v.latched) quiet,
      )
  handle_response-ends ProviderResponse.done reader =
      let quiet = settle-IsQuiet reader in
      (
        emit_turn_terminal-terminals (settle reader) ∙ ap (λ (v : View). suc v.terminals) quiet,
        refl,
        ap (λ (v : View). v.latched) quiet,
      )
