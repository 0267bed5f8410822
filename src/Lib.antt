-- ===== src/Lib.antt =====
-- agent-ledger: the behaviour layer of an agent runtime on an append-only ledger of blocks.
--
-- A conversation is an ordered list of rows (`Block`). Each row parses to a kind, whose hooks say
-- who owes the next move, what work the row does, and whether it is done. The ratchet drives a
-- cursor over the rows and decides whether the model owes a turn; the redispatch walk resumes work
-- that waited for an approval. Everything else the runtime knows of a conversation it reads off the
-- rows.
--
-- Files, with the sources under crates/agent-ledger/src that they model:
-- - Block: block.rs, and the JSON values of a row's payload (serde_json's accessors as the code
--   uses them).
-- - Agency/Fields, Words, Calls, Records: the leaf kinds of agency/*.rs, their parse and their pure
--   hooks. Agency/Kinds: `BlockKind` of agency/mod.rs with the parse chain; Claims: the kind lists
--   that the derive checks at compile time.
-- - Agency/Outcomes (children Debt, Refusals, Resolution): the reads of agency/tool_call.rs.
--   Agency/Window: its trailing window, over a clock that is a parameter.
-- - Agency/Interface: the traits that the machinery requires, as a record over which the ratchet
--   and the walk are generic, as the source is over `K: RuntimeKind`. Agency/Machine fills it with
--   the library's own kinds.
-- - Agency/Frontier (Resume, Speaker with Unique) and Agency/Drive (Cursor, Verdict):
--   agency/ratchet.rs.
-- - Agency/Approval and Agency/Redispatch: agency/approval_*.rs, tools/admission.rs and
--   agency/redispatch.rs. Agency/Title: agency/metadata_title_request.rs.
-- - Store: the calls that the drive makes of a ledger, as functions on a state that can fail.
-- - Render (child Runs): providers/render.rs with the traits and the content it reads, over any
--   kind that has a projection. Runs says the same without the loops.
-- - Bus (children Sinks, Replay): the push hub of bus.rs. What runs under the hub's lock is a step
--   of its own, and Bus/Replay takes the steps in any order, as threads may.
-- - Chat (Json, Events, State, Stream, Source; then Brackets, Assembly, Ending): the decoding of a
--   chat-completions stream, providers/chat/sse.rs. Source is `decode_stream`, over the list of
--   what the transport yields.
-- - Compaction (child Straddling): the cut of store/compaction.rs, with `role_run` of
--   store/conversations.rs.
-- - Event: event.rs, with the stop reasons' answers and the input of types.rs.
-- - Ingestion (Rows, Reader, Text, Handle, Channel; then Quiet and Turns): ingestion.rs, with the
--   seam of dispatch.rs and the statements of store/messages.rs as operations on a list of rows. A
--   reader carries a list that says which of its next store calls fail. Channel is the loop: the
--   inputs are what the channel yields, the deadline's passing, and what the actor does to the latch
--   and to the seam, in any order. Quiet and Turns say what reaches the bus.
-- - Tools (Registry with Ordered and TextOrder, Choice, Offered; Runner with Pass, Claims, Admits):
--   the registry of tools/mod.rs, tools/choice.rs, `newest_in` of agency/tool_choice.rs, and the
--   runner of tools/runner.rs, with the consumer's hooks and the digits of a number as parameters.
--   Debug assertions are compiled out, as in a release build. A lost claim race is a claim that is
--   there already: the passes of one runner take turns at its set.
-- - Actor (State, Bind, Close, Dispatch, Handle, Tick, Reactor; then Facts, Sends, Flight, Latch,
--   Levels): the conversation actor of actor.rs, the tick of its scheduler and the routing of
--   events, with the reasoning levels and the requests of providers/types.rs. What the actor calls
--   of the store, the runner and the providers is a record of functions on a state, `Outside`. Its
--   loop takes any list of signals: mail from the bus, the scheduler's, and a reader that gives its
--   turn up. What the actor puts on the bus is listed; that it comes back as mail, an error that is
--   not stamped among it, is one of those orders.
-- - Metadata (Throttle, Turns, Outside, Fulfillment, Derivation, Policy): metadata.rs. Throttle and
--   Turns are the two records that the loop and the readers share, Turns/Ideal what each binding
--   sees of its own; Fulfillment is what the delivery loop does with one event, Derivation the
--   reader of a title's stream, Policy what asks for a title. `Outside` is the store, the providers
--   and the clock.
-- - Reactivity (Signals, Changes; Feed and Loop): reactivity.rs. A scope is a number, with the
--   permit that its `Notify` stores; Feed is the history that a change log promises its consumers,
--   and Loop the change-driven form of `reactive!` as steps, with pushes between them.
-- - Descriptors (Columns, Validate with Owners): the declarations of store/descriptors.rs, the
--   values of their columns, and the checks at open, which give the first reason to refuse. The
--   schema's reads, doubles and JSON text are parameters.
-- - Tests: a store in memory, runs, and the theorems at concrete inputs.
--
-- Names follow the source in this library's spelling; `parse_text` is `Text::parse`, and
-- `Agency.Machine.run_tool_call` is `ToolCall::run`. A `&[Block]` is a list, oldest row first.
--
-- Bounds: ids are SQLite row numbers, compared and never computed with, and are natural numbers;
-- counts are those of rows, and do not come near the machine's limits. The walk's fuel is the number
-- of rows and one; Agency/Redispatch/Ends says why that is enough.
-- The outer loop of Render has the number of kinds as fuel: a round passes one at least. The
-- extension of a cut has the number of rows: the cut moves on with each round. The hub's
-- sequence numbers are natural numbers, with the saturation of 64 bits where the source has it; the
-- failures that the throttle counts wrap at 32 bits. Generations of binds are natural numbers. A row
-- change's action and rowid are passed through.
--
-- Not modelled: the database and its statements (the store is a state behind `LedgerSource` and
-- `AgencyCtx`, or rows where its order matters), logging, the waking of the loops beside an actor
-- (what wakes them is a signal or a tick here, but for the change-driven loop of Reactivity), the
-- futures' interleavings inside one hook, the requests and the other wire formats of the providers,
-- the broadcast channel beside the push hub. Of `StoreError` the errors of opening and migrating a
-- database are one constructor.
pub mod Prelude
pub mod Block
pub mod Store
pub mod Agency
pub mod Event
pub mod Render
pub mod Bus
pub mod Chat
pub mod Compaction
pub mod Ingestion
pub mod Tools
pub mod Actor
pub mod Metadata
pub mod Reactivity
pub mod Descriptors
pub mod Tests
