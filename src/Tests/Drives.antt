-- ===== src/Tests/Drives.antt =====
-- Drives of a conversation in memory.
use ronna_core.Event.{tool_call_ready}
use ronna_core.Prelude.{true, false, some, List, [], ◌∷◌, ◌≡◌, refl, arith, ap, sym, drop, last?}
use ronna_core.Store.{LedgerSource}
use ronna_core.Agency.Interface.{RuntimeKind}
use ronna_core.Agency.Kinds.{BlockKind}
use ronna_core.Agency.Outcomes.{system_owed_call_from}
use ronna_core.Agency.Frontier.{resume_at, frontier_block}
use ronna_core.Agency.Frontier.Speaker.{Speaks, frontier_block-Speaks}
use ronna_core.Agency.Drive.{Outcome}
use ronna_core.Agency.Drive.Cursor.{Drove, Confirms, drive_ledger-Confirms}
use ronna_core.Agency.Drive.Verdict.{drive_ledger-owes_turn}
use ronna_core.Agency.Drive.Verdict.Stored.{Keeps, drive_ledger-stored}
use ronna_core.Block.{Block}
use ronna_core.Store.{ok}
use ronna_core.Agency.Awaiting.{Awaiting}
use ronna_core.Tests.Evaluated.{evaluated}
use ronna_core.Agency.Machine.{
  run, run_tool_call, run_title_request, library_kind, conversation_ledger,
}
use ronna_core.Agency.Drive.{ran, drive_ledger}
use ronna_core.Tests.Session.{ctx, session, ask, call, Session, answer, say, closed}

abbrev pending : List Block
pending = ask 1 ∷ call 2 ∷ []

abbrev kind : RuntimeKind BlockKind Session
kind = library_kind ctx

abbrev source : LedgerSource Session
source = conversation_ledger ctx

abbrev parked : Outcome
parked = record { cursor = 1; owes_turn = false; parked = true; awaiting = some Awaiting.system }

abbrev woken : Session
woken = record (session pending) { cursor = some 1; emitted = tool_call_ready 1 2 ∷ [] }

-- The drive confirms the question, wakes the call and parks on it.
drive_pending : drive_ledger kind source (session pending) ≡ (ok (ran parked), woken)
unfolding evaluated
drive_pending = refl

drive_ledger-Confirms_example :
    (d : Drove kind source (session pending) parked woken) × Confirms kind source
      (drop (resume_at d.ledger d.start) d.ledger)
      d.start
      d.s_read
      1
      true
      d.s_driven
drive_ledger-Confirms_example = drive_ledger-Confirms kind source drive_pending

run_keeps : (k : BlockKind) (s : Session) → (run ctx k s).1.cursor ≡ s.cursor
unfolding run run_tool_call run_title_request
run_keeps (BlockKind.tool_call c) s = ground arith
run_keeps (BlockKind.metadata_title_request r) s = ground arith
run_keeps _ s = refl

keeps : Keeps kind source (λ s. s.cursor)
unfolding evaluated
keeps = record {
  lists = λ s. refl;
  tails = λ s. refl;
  reads = λ s c s' h. cc (h);
  writes =
      λ id s s' h. let e : record s { cursor = some id } ≡ s' = cc in ap (λ t. t.cursor) (sym e);
  runs = run_keeps;
}

drive_ledger-stored_example : woken.cursor ≡ some 1
drive_ledger-stored_example =
    drive_ledger-stored kind source (λ s. s.cursor) keeps (session pending) parked woken
      drive_pending

abbrev answered : List Block
answered = ask 1 ∷ call 2 ∷ answer 3 2 ∷ []

abbrev owing : Outcome
owing = record { cursor = 3; owes_turn = true; parked = false; awaiting = some Awaiting.model }

abbrev confirmed : Session
confirmed = record (session answered) { cursor = some 3 }

drive_answered : drive_ledger kind source (session answered) ≡ (ok (ran owing), confirmed)
unfolding evaluated
drive_answered = refl

drive_ledger-owes_turn_example :
    (owing.parked ≡ false)
    × (owing.awaiting ≡ some Awaiting.model)
    × ((d : Drove kind source (session answered) owing confirmed) × (blocks : List Block)
        × (d.listing ≡ some blocks)
        × (system_owed_call_from blocks (resume_at blocks 3) ≡ false))
drive_ledger-owes_turn_example = drive_ledger-owes_turn kind source drive_answered refl

-- A closing status is read through, and the question behind it, of the turn it closes, with it.
abbrev buried : List Block
buried = ask 1 ∷ ask 2 ∷ say 3 ∷ closed 4 ∷ []

frontier_buried : frontier_block kind buried ≡ some (ask 2)
unfolding evaluated
frontier_buried = refl

frontier_block-Speaks_example :
    (tail : Block) × (last? buried ≡ some tail) × Speaks kind buried tail (ask 2)
frontier_block-Speaks_example = frontier_block-Speaks kind buried frontier_buried
