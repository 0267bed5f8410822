-- ===== src/Tools/Runner/Admits.antt =====
-- When the body of a tool runs: `execute_ready_call` of tools/runner.rs.
use ronna_core.Prelude.{
  ℕ, true, false, ◌||◌, Option, none, some, List, [], ◌∷◌, ◌≡◌, ◌⊎◌, inl, inr, refl, ap,
  if◌then◌else◌, if_split, is_some, String,
}
use ronna_core.Block.{Block}
use ronna_core.Store.{Result, ok, err}
use ronna_core.Agency.Calls.{ToolCall, Refusal}
use ronna_core.Agency.Outcomes.{resolved_in}
use ronna_core.Agency.Window.{Clock}
use ronna_core.Agency.Approval.{ApprovalState, approval_state}
use ronna_core.Tools.Registry.{ToolHandler}
use ronna_core.Tools.Choice.{ResolvedTools, of_ledger, handler}
use ronna_core.Tools.Runner.{
  unresolved_tool, Runtime, ToolRunner, Admission, GateDecision, stand_down, claimed, claim,
  release, call_in, earlier_call_to_act_first, no_tools_refusal,
}
use ronna_core.Tools.Runner.Pass.{
  window_refusal, resolve_with_error, run_executed, run_claimed, run_body, gated, cleared,
  consumer_admits, with_handler, within_windows, execute_call, execute_over, execute_ready_call,
}
use ronna_core.Tools.Runner.Claims.{or-false, IsCleared, Ran, released, recorded}

module _ {S : Type 0} (clock : Clock) (runtime : Runtime S) (call_block_id : ℕ)
    (runner : ToolRunner) (s : S) where
  open runtime use {conversation_id, list_blocks, consumer_admit, gate, execute, registry}

  -- A pass runs no body, or one body of which all of `Ran` is so.
  IsPass : ToolRunner × S → Type 0
  IsPass r = (r.0 ≡ runner) ⊎ Ran clock runtime call_block_id runner s r.0

  module _ (ledger : List Block) (from : S) (call : ToolCall)
      (read : list_blocks s ≡ (ok ledger, from)) (found : call_in ledger call_block_id ≡ some call)
      (open_call : resolved_in call ledger ≡ false)
      (first : is_some (earlier_call_to_act_first call ledger (of_ledger ledger registry)) ≡ false)
      (in_windows : window_refusal clock runtime runner ledger call (approval_state ledger call.id)
        ≡ none)
      (h : ToolHandler) (offered : handler (of_ledger ledger registry) call.name ≡ some h)
      (admitted : (consumer_admit h call ledger from).0 ≡ Admission.admit) where
    body-IsPass :
        (asked : S)
        → IsCleared runtime h call (approval_state ledger call.id)
        → IsPass (run_body clock runtime h call runner asked)
    unfolding run_body run_claimed run_executed IsPass release claim
    body-IsPass asked is_cleared =
        if_split IsPass (claimed runner conversation_id call.id) (λ _. inl refl)
          (λ unclaimed. over (list_blocks asked) refl unclaimed)
      where
        undone :
            claimed runner conversation_id call.id ≡ false
            → release conversation_id call.id (claim conversation_id call.id runner) ≡ runner
        undone unclaimed =
            ap (λ keys. record runner { in_flight = keys })
              (released clock runtime call_block_id runner s call unclaimed)

        over :
            (r : Result (List Block) × S)
            → list_blocks asked ≡ r
            → claimed runner conversation_id call.id ≡ false
            → IsPass (run_claimed clock runtime h call r (claim conversation_id call.id runner))
        over (err e, again) _ unclaimed = inl (undone unclaimed)
        over (ok ledger_again, again) read_again unclaimed =
            if_split IsPass (resolved_in call ledger_again) (λ _. inl (undone unclaimed))
              (λ still_open. inr (record {
                ledger = ledger;
                call = call;
                h = h;
                from = from;
                asked = asked;
                again = again;
                ledger_again = ledger_again;
                read = read;
                found = found;
                open_call = open_call;
                first = first;
                in_windows = in_windows;
                offered = offered;
                admitted = admitted;
                is_cleared = is_cleared;
                unclaimed = unclaimed;
                read_again = read_again;
                still_open = still_open;
                ran =
                    recorded clock runtime call_block_id runner s h call _ (execute h call again)
                      unclaimed;
              }))

    cleared-IsPass :
        h.gated ≡ true
        → (clearance : ApprovalState) → approval_state ledger call.id ≡ clearance
        → (asked : S) → IsPass (cleared clock runtime h call clearance runner asked)
    unfolding cleared gated stand_down resolve_with_error IsPass
    cleared-IsPass on ApprovalState.approved e asked = body-IsPass asked (inr (inl e))
    cleared-IsPass on ApprovalState.undecided e asked = inl refl
    cleared-IsPass on ApprovalState.denied e asked = inl refl
    cleared-IsPass on ApprovalState.unrequested e asked = over (gate h call.input asked) refl
      where
        over :
            (r : GateDecision × S)
            → gate h call.input asked ≡ r
            → IsPass (gated clock runtime h call r runner)
        over (GateDecision.proceed, s') said =
            body-IsPass s' (inr (inr (e, (asked, ap (λ (q : GateDecision × S). q.0) said))))
        over (GateDecision.refuse reason, s') said = inl refl
        over (GateDecision.defer, s') said = inl refl

    admitted-IsPass :
        (asked : S)
        → IsPass (
            if h.gated
            then cleared clock runtime h call (approval_state ledger call.id) runner asked
            else run_body clock runtime h call runner asked)
    admitted-IsPass asked =
        if_split IsPass h.gated (λ on. cleared-IsPass on _ refl asked)
          (λ off. body-IsPass asked (inl off))

  call-IsPass :
      (ledger : List Block) (from : S)
      → list_blocks s ≡ (ok ledger, from)
      → (o : Option ToolCall) → call_in ledger call_block_id ≡ o
      → IsPass (execute_call clock runtime ledger o runner from)
  unfolding execute_call within_windows with_handler consumer_admits resolve_with_error IsPass
  call-IsPass ledger from read none found = inl refl
  call-IsPass ledger from read (some call) found =
      if_split IsPass
        (resolved_in call ledger || is_some (earlier_call_to_act_first call ledger resolved))
        (λ _. inl refl)
        (λ ready.
          windows (or-false ready).0 (or-false ready).1
            (window_refusal clock runtime runner ledger call (approval_state ledger call.id)) refl)
    where
      resolved : ResolvedTools
      resolved = of_ledger ledger registry

      windows :
          resolved_in call ledger ≡ false
          → is_some (earlier_call_to_act_first call ledger resolved) ≡ false
          → (refusal : Option String)
          → window_refusal clock runtime runner ledger call (approval_state ledger call.id)
            ≡ refusal
          → IsPass (
              within_windows clock runtime ledger call
                (approval_state ledger call.id)
                resolved
                refusal
                runner
                from)
      windows open_call first (some text) e = inl refl
      windows open_call first none e = handled (handler resolved call.name) refl
        where
          handled :
              (o : Option ToolHandler)
              → handler resolved call.name ≡ o
              → IsPass (
                  with_handler clock runtime ledger call
                    (approval_state ledger call.id)
                    resolved
                    o
                    runner
                    from)
          handled none offered = unhandled resolved.names
            where
              unhandled :
                  (names : List String)
                  → IsPass (elim names [
                    | [] ↦
                        resolve_with_error clock runtime call no_tools_refusal Refusal.refused
                          runner from
                    | _ ∷ _ ↦
                        resolve_with_error clock runtime call
                          (unresolved_tool call.name resolved.names)
                          Refusal.failed
                          runner
                          from
                  ])
              unhandled [] = inl refl
              unhandled (_ ∷ _) = inl refl
          handled (some h) offered = asked_of (consumer_admit h call ledger from) refl
            where
              asked_of :
                  (r : Admission × S)
                  → consumer_admit h call ledger from ≡ r
                  → IsPass (
                      consumer_admits clock runtime h call (approval_state ledger call.id) r runner)
              asked_of (Admission.refuse reason, s') said = inl refl
              asked_of (Admission.admit, s') said =
                  admitted-IsPass ledger from call read found open_call first e h offered
                    (ap (λ (q : Admission × S). q.0) said) s'

-- A wakeup runs no body, or the one body of its call, and then all of `Ran` is so of it.
pub execute_ready_call-Ran :
    {S : Type 0} (clock : Clock) (runtime : Runtime S) (call_block_id : ℕ) (runner : ToolRunner)
    (s : S)
    → let after = (execute_ready_call clock runtime call_block_id runner s).0 in
      (after ≡ runner) ⊎ Ran clock runtime call_block_id runner s after
unfolding execute_ready_call execute_over IsPass
execute_ready_call-Ran {S} clock runtime call_block_id runner s = over (runtime.list_blocks s) refl
  where
    over :
        (r : Result (List Block) × S)
        → runtime.list_blocks s ≡ r
        → IsPass clock runtime call_block_id runner s
            (execute_over clock runtime call_block_id r runner)
    over (err e, s') _ = inl refl
    over (ok ledger, from) read =
        call-IsPass clock runtime call_block_id runner s ledger from read _ refl
