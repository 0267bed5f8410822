-- ===== src/Tools/Runner/Claims.antt =====
-- What a body leaves of its claim, and what is so when one runs: tools/runner.rs.
use ronna_core.Prelude.{
  ℕ, Bool, true, false, not, ◌||◌, none, some, List, [], ◌∷◌, ◌++◌, ◌≡◌, ◌⊎◌, refl, ap,
  if◌then◌else◌, is_some, arith, any, filter, ==_refl,
}
use ronna_core.Block.{Block}
use ronna_core.Store.{ok}
use ronna_core.Agency.Calls.{ToolCall, Refusal}
use ronna_core.Agency.Outcomes.{resolved_in}
use ronna_core.Agency.Window.{Clock}
use ronna_core.Agency.Approval.{ApprovalState, approval_state}
use ronna_core.Tools.Registry.{ToolHandler}
use ronna_core.Tools.Choice.{of_ledger, handler}
use ronna_core.Tools.Runner.{
  Runtime, ToolRunner, ToolOutcome, Admission, GateDecision, claimed, claim, release, call_in,
  earlier_call_to_act_first, ends_turn_deferral_refusal,
}
use ronna_core.Tools.Runner.Pass.{window_refusal, resolve_with_error, record_outcome}

pub or-false : {b c : Bool} → b || c ≡ false → (b ≡ false) × (c ≡ false)
or-false e = ground arith

filter-none :
    {A : Type 0} (q : A → Bool) (xs : List A) → any q xs ≡ false → filter (λ x. not (q x)) xs ≡ xs
unfolding any filter
filter-none q [] e = refl
filter-none q (x ∷ xs) e =
    let (off, rest) = or-false {b = q x} {c = any q xs} e in
    rw off (ap (λ ys. x ∷ ys) (filter-none q xs rest))

-- The call stays claimed: a backing system will resolve it.
abbrev pub keeps : ToolHandler → ToolOutcome → Bool
keeps h ToolOutcome.pending = not h.ends_turn
keeps h _ = false

-- A gated call has an approval, or no request and a gate that waves it on.
abbrev pub IsCleared : {S : Type 0} → Runtime S → ToolHandler → ToolCall → ApprovalState → Type 0
IsCleared {S} runtime h call clearance =
    (h.gated ≡ false)
    ⊎ ((clearance ≡ ApprovalState.approved)
        ⊎ ((clearance ≡ ApprovalState.unrequested)
            × ((before : S) × (runtime.gate h call.input before).0 ≡ GateDecision.proceed)))

module _ {S : Type 0} (clock : Clock) (runtime : Runtime S) (call_block_id : ℕ)
    (runner : ToolRunner) (s : S) where
  open runtime use {conversation_id, list_blocks, consumer_admit, gate, execute, registry}

  -- What is so of a call whose body ran: the ledger has it, without an outcome and with no earlier
  -- call to act first; no window refused it; its handler is one of the conversation's tools; the
  -- consumer let it in; it is cleared; nobody else had it; and a second reading of the ledger had
  -- no outcome either.
  pub record Ran (after : ToolRunner) : Type 0 where
    pub ledger : List Block
    pub call : ToolCall
    pub h : ToolHandler
    pub from : S
    pub asked : S
    pub again : S
    pub ledger_again : List Block
    pub read : list_blocks s ≡ (ok ledger, from)
    pub found : call_in ledger call_block_id ≡ some call
    pub open_call : resolved_in call ledger ≡ false
    pub first : is_some (earlier_call_to_act_first call ledger (of_ledger ledger registry)) ≡ false
    pub in_windows :
        window_refusal clock runtime runner ledger call (approval_state ledger call.id) ≡ none
    pub offered : handler (of_ledger ledger registry) call.name ≡ some h
    pub admitted : (consumer_admit h call ledger from).0 ≡ Admission.admit
    pub is_cleared : IsCleared runtime h call (approval_state ledger call.id)
    pub unclaimed : claimed runner conversation_id call.id ≡ false
    pub read_again : (list_blocks asked) ≡ (ok ledger_again, again)
    pub still_open : resolved_in call ledger_again ≡ false
    pub ran : after ≡ record {
      in_flight =
          if keeps h (execute h call again).0
          then (conversation_id, call.id) ∷ runner.in_flight
          else runner.in_flight;
      executed = runner.executed ++ (call.id ∷ []);
    }

  pub released :
      (call : ToolCall)
      → claimed runner conversation_id call.id ≡ false
      → (release conversation_id call.id (claim conversation_id call.id runner)).in_flight
        ≡ runner.in_flight
  unfolding claimed claim release filter
  released call unclaimed =
      rw (==_refl conversation_id) (rw (==_refl call.id) (filter-none _ runner.in_flight unclaimed))

  pub recorded :
      (h : ToolHandler) (call : ToolCall) (executed : List ℕ) (r : ToolOutcome × S)
      → claimed runner conversation_id call.id ≡ false
      → (record_outcome clock runtime h call r
          (record (claim conversation_id call.id runner) { executed = executed })).0
        ≡ record {
          in_flight =
              if keeps h r.0
              then (conversation_id, call.id) ∷ runner.in_flight
              else runner.in_flight;
          executed = executed;
        }
  unfolding record_outcome resolve_with_error release claim
  recorded h call executed (ToolOutcome.done result, s') e =
      ap (λ keys. record { in_flight = keys; executed = executed }) (released call e)
  recorded h call executed (ToolOutcome.error text, s') e =
      ap (λ keys. record { in_flight = keys; executed = executed }) (released call e)
  recorded h call executed (ToolOutcome.declined reason, s') e =
      ap (λ keys. record { in_flight = keys; executed = executed }) (released call e)
  recorded h call executed (ToolOutcome.pending, s') e = over h.ends_turn
    where
      held : ToolRunner
      held = record (claim conversation_id call.id runner) { executed = executed }

      over :
          (b : Bool)
          → (if b
              then resolve_with_error clock runtime call ends_turn_deferral_refusal Refusal.failed
                  (release conversation_id call.id held)
                  s'
              else (held, s')).0
            ≡ record {
              in_flight =
                  if not b then (conversation_id, call.id) ∷ runner.in_flight else runner.in_flight;
              executed = executed;
            }
      over true = ap (λ keys. record { in_flight = keys; executed = executed }) (released call e)
      over false = refl
