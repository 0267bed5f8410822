-- ===== src/Tests/Evaluated.antt =====
-- Every definition that a run of the tests computes through, on one line to unfold.
use ronna_core.Prelude.{
  rev, position, find, filter, take_while, any, all, find_map, filter_map, contains, scan,
}
use ronna_core.Actor.Bind.{
  bind_failed, bind_channel, with_config, with_instance, with_conversation, bind_provider,
  reuse_provider, ensure_provider,
}
use ronna_core.Actor.Close.{
  turn_end_key, is_closed_edge, is_errored_edge, is_tool_use, turn_continuation_due, drop_turn,
  release_stream, after_close, mark_end, settle_over, settle_unread, settle_turn_identity,
  settle_open, close_dispatch,
}
use ronna_core.Actor.Dispatch.{
  held_turn, headless_error, turn_identity, does_the_ledger_open_with_its_head_kind, request_of,
  sent_to, send_turn, dispatch_for, end_or_dispatch, dispatch_over, with_cursor,
  handle_blocks_ready,
}
use ronna_core.Actor.Flight.{IsInFlight}
use ronna_core.Actor.Handle.{
  unlatch, owns_stream_signal, mark_seam, refuse_input, handle_draft_promoted,
  handle_blocks_appended, handle_tool_call_received, handle_approval_submitted, interrupt_provider,
  handle_interrupt, handle_stream_done, owned, handle, run,
}
use ronna_core.Actor.Reactor.{
  conversation_id, accepts, spawn_actor_set, send_accepted, send_to, with_entry, route_live,
  route_event, mailbox_of,
}
use ronna_core.Actor.State.{as_key, from_key, new_actor, stay, tried, try_call, tell}
use ronna_core.Actor.Tick.{signal_of, tick_latched, tick_driven, scheduler_tick}
use ronna_core.Agency.Approval.{
  covering, decision_in, request_post_gate_id, route_kind, decision_post_gate_id, approval_state,
}
use ronna_core.Agency.Awaiting.{is_model, is_user, user_asks}
use ronna_core.Agency.Calls.{
  parse_tool_call, tool_call_awaiting, parse_tool_result, tool_result_awaiting,
  tool_result_transparent, is_refusal, from_stored, parse_tool_error, records_refusal,
  tool_error_awaiting,
}
use ronna_core.Agency.Claims.{is_unknown, kinds_disjoint, kind_count}
use ronna_core.Agency.Drive.{
  outcome, work_due, drive_blocks, wants_listing, list_for, verdict, drive_from, drive_ledger,
  is_conversation_gone, turn_durably_over,
}
use ronna_core.Agency.Fields.{string_field, optional_string_field, bool_field, id_field}
use ronna_core.Agency.Frontier.{
  resume_at, is_disowned, disown, awaits_model, frontier_loop, frontier_block, frontier_owes_turn,
  fresh_turn_anchor, ledger_turn_durably_over,
}
use ronna_core.Agency.Kinds.{
  contains_kind, concat_kinds, claimed_kinds, try_leaf, from_block, awaiting, durable,
  frontier_transparent, heads_the_ledger,
}
use ronna_core.Agency.Machine.{
  run_tool_call, run_title_request, run as run_machine, post_gate_id, run_post_gate,
}
use ronna_core.Agency.Outcomes.{
  answered_call, answered_by, outcome_in, outcome_position_in, resolved_in, answered_call_ids,
  earlier_unresolved_call, is_owed, system_owed_calls, system_owed_call_from,
  system_owed_call_anchored_in, outcome_asks_for_a_continuation, outcomes_anchored_in, refusal_of,
  trailing_refusal_run, rfind, closes_turn, unanswered_outcome_anchor, unresolved_call_named,
}
use ronna_core.Agency.Records.{
  parse_status, records_turn_end, parse_approval_request, choice_as_str, parse_approval_decision,
  parse_tool_choice, parse_title_request, parse_ancestor_reference, parse_unknown,
}
use ronna_core.Agency.Redispatch.{walk_chain, run_chain, run_routed, walk_from, walk}
use ronna_core.Agency.Title.{turn_of, settled_loop, settled_in}
use ronna_core.Agency.Window.{window_step, window_loop, calls_in_trailing_window}
use ronna_core.Agency.Words.{
  parse_text, text_awaiting, parse_quote, quote_awaiting, parse_code, code_awaiting, parse_thinking,
  parse_system_prompt, parse_harness_message, harness_message_awaiting, parse_date_marker,
}
use ronna_core.Block.{get, as_str, as_bool, as_natural_i64, as_strings, role_as_str}
use ronna_core.Bus.{
  new_hub, retain_event, record_event, prune_sinks, unregister, gap_of, register, publish, attach,
}
use ronna_core.Bus.Replay.{IsServed}
use ronna_core.Chat.Assembly.{arguments_at}
use ronna_core.Chat.Json.{index, as_array, get_first, as_u64, as_object, as_u32, nonempty}
use ronna_core.Chat.Source.{on_event, decode_stream}
use ronna_core.Chat.State.{
  sse_state_new, carries_identity, fragment_index, ensure_call, push_arguments, extend_call,
  change_call, fold_fragment, ingest_tool_call_fragment, sort_calls, call_events, drain_tool_calls,
  capture_reasoning_detail,
}
use ronna_core.Chat.Stream.{
  andthen, nothing, open_reasoning, default_thinking_end_payload, said, joined_summary_delta,
  say_summary, ingest_detail, ingest_details, bare_reasoning, ingest_probed, ingest_reasoning,
  take_reasoning, stop_reason_of, parse_usage, release, release_message_end, release_counted,
  close_reasoning, say_text, decode_string_content, ingest_calls, finish, finish_stream,
  parse_choice, parse_value, parse_sse_chunk,
}
use ronna_core.Compaction.{
  role_run, answered_from, straddles, nearest, extend, cut_at, cut_extended_from, ledger_cut,
}
use ronna_core.Descriptors.{
  affinity_of, affinity_holds, integer_column, is_number, typed_column, field_to_column,
  column_to_field,
}
use ronna_core.Descriptors.Validate.{
  first_of, is_text_type, is_blob, descriptor_for_kind, claim_kinds, column_shape, quotable_column,
  validate_quotable_column, validate_columns, key_column, validate_key, validate_references,
  declared_names, validate_table, validate_each, validate,
}
use ronna_core.Event.{error_key, discards_output}
use ronna_core.Ingestion.Channel.{new_reader, abandon_turn, close_channel, run_channel}
use ronna_core.Ingestion.Handle.{
  is_end_turn, is_committed, end_tail, owes, running_tools, record_error, record_abnormal_stop,
  message_end, tool_use_start, append_call, tool_use_input_delta, drive_call, run_inserted,
  settle_call, discards_rest, commit_owed_empty_turn, drop_turn as drop_turn_handle, insert_call,
  finalize_call, end_call, end_calls, tool_use_end, dispatch_event, ingest, handle_response,
}
use ronna_core.Ingestion.Quiet.{terminals}
use ronna_core.Ingestion.Reader.{
  set_anchor, clear_anchor, mark_abandoned, is_abandoned, attempt, emit, turn_destination,
  set_trackers, stay as stay_reader, terminal_event, emit_turn_terminal, has_open_tails,
  discard_streaming_tails, discard_unterminated_tails, tracked_ids, discard_each,
  discard_tracked_tails, abandon_owed_empty_commit, thinking_block_of, with_thinking_block,
}
use ronna_core.Ingestion.Rows.{
  is_ephemeral, delete_streaming_counterpart, replace_streaming, insert_block,
  insert_streaming_block, insert_streaming_thinking_block, insert_streaming_tool_call_block,
  insert_final_text_block, insert_thinking_block_with_content, insert_tool_call_block,
  insert_status_block, update_row, append_text, append_thinking, append_summary, append_input,
  get_block_content, get_thinking_block_channels, get_streaming_tool_call_input,
  discard_streaming_block, delete_streaming_blocks, is_resolved,
}
use ronna_core.Ingestion.Text.{
  track_text, track_thinking, set_channel, opened, text_block_start, append_to_text,
  with_text_block, respond, text_delta, thinking_start, delta_thinking, thinking_summary_delta,
  finalized, nonempty_text, speaks, close_channels, end_thinking, thinking_end, commit_text,
  finalize_read, finalize_tail, finalize_streamed_text_tail, take_tail, final_text, final_thinking,
  final_block, is_persisted, is_failed, restate, content_final, text_final,
}
use ronna_core.Ingestion.Turns.{ends, turns}
use ronna_core.Metadata.Derivation.{
  restated, title_after, first_id, attempt_failed, on_stored, on_source, finish_title, settle,
  on_response, run_fulfillment_ingestion,
}
use ronna_core.Metadata.Fulfillment.{
  speaks as speaks_fulfillment, has_text, title_source_blocks, title_request, sent_title, unsent,
  unbound, on_config, on_instance, on_conversation, rebind, reuse_channel,
  ensure_provider as ensure_provider_fulfillment, on_title_conversation, on_prose, on_title_blocks,
  request_title_stream, dispatch, on_anchor, on_kind, on_row, on_ledger, deliver,
}
use ronna_core.Metadata.Policy.{
  request_title, unless_metadata, if_assistant_spoke, policy_tick, driven_outcome, metadata_tick,
  spawn,
}
use ronna_core.Metadata.Policy.Once.{policy_ticks}
use ronna_core.Metadata.Throttle.{
  new, delay_after, counted, record_failure, record_success, suppressed, next_attempt,
}
use ronna_core.Metadata.Throttle.Window.{recorded, streak, holds_until, after}
use ronna_core.Metadata.Turns.{
  new as new_turns, turn_of as turn_of_turns, anchor_of, close_generation, open_turn, close_unsent,
  is_open, bind_turn, seam_anchor, seam_close,
}
use ronna_core.Metadata.Turns.Ideal.{call, after as after_ideal, binds_in, turn_under}
use ronna_core.Reactivity.Changes.{
  new as new_changes, append_to, wake_scopes, push_into, push, register as register_changes,
  consumer, watcher, at_handle, deref, subscribe_scope, taken, take_buffer, drain, react,
  drop_handle,
}
use ronna_core.Reactivity.Feed.{
  call as call_feed, run as run_feed, unread, placed, promise, promised, fresh,
}
use ronna_core.Reactivity.Feed.Buffers.{buffer_at, extended, emptied}
use ronna_core.Reactivity.Loop.{born, scope_ends, started}
use ronna_core.Reactivity.Loop.Keeps.{in_hand}
use ronna_core.Reactivity.Signals.{
  notify_one, subscribe, wake, track, track_required, create_signal, get as get_signals, update,
  set, set_if_changed, trigger, react as react_signals,
}
use ronna_core.Render.{
  message_role, join, flatten, text_content, group_content, message_of, take_group, message_loop,
  blocks_to_messages, render_blocks_to_text,
}
use ronna_core.Tools.Choice.{
  choice_of, newest_in, holds, chosen, from_choice, of_ledger, handler, tool_definitions,
}
use ronna_core.Tools.Registry.{
  get as get_registry, names, definitions, insert_handler, register as register_registry,
}
use ronna_core.Tools.Runner.{
  stand_down, claimed, claim, release as release_runner, call_in, no_tools_refusal,
  rate_limit_prefix, concat_texts, rate_limit_refusal, per_tool_rate_limit_refusal, unresolved_tool,
  ends_turn_deferral_refusal, bound_of, runs_in_order, earlier_call_to_act_first, is_approved,
}
use ronna_core.Tools.Runner.Pass.{
  window_spent, resolve_with_error, window_refusal, record_outcome, run_executed, run_claimed,
  run_body, gated, cleared, consumer_admits, with_handler, within_windows, execute_call,
  execute_over, execute_ready_call, run_wakeup,
}

unfoldable pub evaluated : Unit {0}
unfolding rev position find filter take_while any all find_map filter_map contains scan bind_failed
    bind_channel with_config with_instance with_conversation bind_provider reuse_provider
    ensure_provider turn_end_key is_closed_edge is_errored_edge is_tool_use turn_continuation_due
    drop_turn release_stream after_close mark_end settle_over settle_unread settle_turn_identity
    settle_open close_dispatch held_turn headless_error turn_identity
    does_the_ledger_open_with_its_head_kind request_of sent_to send_turn dispatch_for
    end_or_dispatch dispatch_over with_cursor handle_blocks_ready IsInFlight unlatch
    owns_stream_signal mark_seam refuse_input handle_draft_promoted handle_blocks_appended
    handle_tool_call_received handle_approval_submitted interrupt_provider handle_interrupt
    handle_stream_done owned handle run conversation_id accepts spawn_actor_set send_accepted
    send_to with_entry route_live route_event mailbox_of as_key from_key new_actor stay tried
    try_call tell signal_of tick_latched tick_driven scheduler_tick covering decision_in
    request_post_gate_id route_kind decision_post_gate_id approval_state is_model is_user user_asks
    parse_tool_call tool_call_awaiting parse_tool_result tool_result_awaiting
    tool_result_transparent is_refusal from_stored parse_tool_error records_refusal
    tool_error_awaiting is_unknown kinds_disjoint kind_count outcome work_due drive_blocks
    wants_listing list_for verdict drive_from drive_ledger is_conversation_gone turn_durably_over
    string_field optional_string_field bool_field id_field resume_at is_disowned disown awaits_model
    frontier_loop frontier_block frontier_owes_turn fresh_turn_anchor ledger_turn_durably_over
    contains_kind concat_kinds claimed_kinds try_leaf from_block awaiting durable
    frontier_transparent heads_the_ledger run_tool_call run_title_request run_machine post_gate_id
    run_post_gate answered_call answered_by outcome_in outcome_position_in resolved_in
    answered_call_ids earlier_unresolved_call is_owed system_owed_calls system_owed_call_from
    system_owed_call_anchored_in outcome_asks_for_a_continuation outcomes_anchored_in refusal_of
    trailing_refusal_run rfind closes_turn unanswered_outcome_anchor unresolved_call_named
    parse_status records_turn_end parse_approval_request choice_as_str parse_approval_decision
    parse_tool_choice parse_title_request parse_ancestor_reference parse_unknown walk_chain
    run_chain run_routed walk_from walk turn_of settled_loop settled_in window_step window_loop
    calls_in_trailing_window parse_text text_awaiting parse_quote quote_awaiting parse_code
    code_awaiting parse_thinking parse_system_prompt parse_harness_message harness_message_awaiting
    parse_date_marker get as_str as_bool as_natural_i64 as_strings role_as_str new_hub retain_event
    record_event prune_sinks unregister gap_of register publish attach IsServed arguments_at index
    as_array get_first as_u64 as_object as_u32 nonempty on_event decode_stream sse_state_new
    carries_identity fragment_index ensure_call push_arguments extend_call change_call fold_fragment
    ingest_tool_call_fragment sort_calls call_events drain_tool_calls capture_reasoning_detail
    andthen nothing open_reasoning default_thinking_end_payload said joined_summary_delta
    say_summary ingest_detail ingest_details bare_reasoning ingest_probed ingest_reasoning
    take_reasoning stop_reason_of parse_usage release release_message_end release_counted
    close_reasoning say_text decode_string_content ingest_calls finish finish_stream parse_choice
    parse_value parse_sse_chunk role_run answered_from straddles nearest extend cut_at
    cut_extended_from ledger_cut affinity_of affinity_holds integer_column is_number typed_column
    field_to_column column_to_field first_of is_text_type is_blob descriptor_for_kind claim_kinds
    column_shape quotable_column validate_quotable_column validate_columns key_column validate_key
    validate_references declared_names validate_table validate_each validate error_key
    discards_output new_reader abandon_turn close_channel run_channel is_end_turn is_committed
    end_tail owes running_tools record_error record_abnormal_stop message_end tool_use_start
    append_call tool_use_input_delta drive_call run_inserted settle_call discards_rest
    commit_owed_empty_turn drop_turn_handle insert_call finalize_call end_call end_calls
    tool_use_end dispatch_event ingest handle_response terminals set_anchor clear_anchor
    mark_abandoned is_abandoned attempt emit turn_destination set_trackers stay_reader
    terminal_event emit_turn_terminal has_open_tails discard_streaming_tails
    discard_unterminated_tails tracked_ids discard_each discard_tracked_tails
    abandon_owed_empty_commit thinking_block_of with_thinking_block is_ephemeral
    delete_streaming_counterpart replace_streaming insert_block insert_streaming_block
    insert_streaming_thinking_block insert_streaming_tool_call_block insert_final_text_block
    insert_thinking_block_with_content insert_tool_call_block insert_status_block update_row
    append_text append_thinking append_summary append_input get_block_content
    get_thinking_block_channels get_streaming_tool_call_input discard_streaming_block
    delete_streaming_blocks is_resolved track_text track_thinking set_channel opened
    text_block_start append_to_text with_text_block respond text_delta thinking_start delta_thinking
    thinking_summary_delta finalized nonempty_text speaks close_channels end_thinking thinking_end
    commit_text finalize_read finalize_tail finalize_streamed_text_tail take_tail final_text
    final_thinking final_block is_persisted is_failed restate content_final text_final ends turns
    restated title_after first_id attempt_failed on_stored on_source finish_title settle on_response
    run_fulfillment_ingestion speaks_fulfillment has_text title_source_blocks title_request
    sent_title unsent unbound on_config on_instance on_conversation rebind reuse_channel
    ensure_provider_fulfillment on_title_conversation on_prose on_title_blocks request_title_stream
    dispatch on_anchor on_kind on_row on_ledger deliver request_title unless_metadata
    if_assistant_spoke policy_tick driven_outcome metadata_tick spawn policy_ticks new delay_after
    counted record_failure record_success suppressed next_attempt recorded streak holds_until after
    new_turns turn_of_turns anchor_of close_generation open_turn close_unsent is_open bind_turn
    seam_anchor seam_close call after_ideal binds_in turn_under new_changes append_to wake_scopes
    push_into push register_changes consumer watcher at_handle deref subscribe_scope taken
    take_buffer drain react drop_handle call_feed run_feed unread placed promise promised fresh
    buffer_at extended emptied born scope_ends started in_hand notify_one subscribe wake track
    track_required create_signal get_signals update set set_if_changed trigger react_signals
    message_role join flatten text_content group_content message_of take_group message_loop
    blocks_to_messages render_blocks_to_text choice_of newest_in holds chosen from_choice of_ledger
    handler tool_definitions get_registry names definitions insert_handler register_registry
    stand_down claimed claim release_runner call_in no_tools_refusal rate_limit_prefix concat_texts
    rate_limit_refusal per_tool_rate_limit_refusal unresolved_tool ends_turn_deferral_refusal
    bound_of runs_in_order earlier_call_to_act_first is_approved window_spent resolve_with_error
    window_refusal record_outcome run_executed run_claimed run_body gated cleared consumer_admits
    with_handler within_windows execute_call execute_over execute_ready_call run_wakeup
evaluated = tt
