-- ===== src/Agency/Approval/State.antt =====
-- How a call's approval moves as rows are appended.
use ronna_core.Prelude.{
  ℕ, ◌≡◌, refl, Bool, true, false, Option, none, some, List, [], ◌∷◌, ◌++◌, if◌then◌else◌, or_else,
  find_map, arith,
}
use ronna_core.Block.{Block}
use ronna_core.Agency.Records.{ApprovalRequest, ApprovalDecision}
use ronna_core.Agency.Approval.{
  covering, decision_in, decided, state_of, ApprovalState, unrequested, undecided, approved, denied,
  approval_state,
}

find_map-append :
    {A B : Type 0} (f : A → Option B) (xs ys : List A)
    → find_map f (xs ++ ys) ≡ or_else (find_map f xs) (find_map f ys)
unfolding find_map
find_map-append f [] ys = refl
find_map-append f (x ∷ xs) ys = ground (arith, find_map-append f xs ys)

covering-append :
    (ledger more : List Block) (id : ℕ)
    → covering (ledger ++ more) id ≡ or_else (covering ledger id) (covering more id)
unfolding covering
covering-append ledger more id = find_map-append _ ledger more

decision_in-append :
    (request : ApprovalRequest) (ledger more : List Block)
    → decision_in request (ledger ++ more)
      ≡ or_else (decision_in request ledger) (decision_in request more)
unfolding decision_in
decision_in-append request ledger more = find_map-append _ ledger more

-- The moves that a call's approval can make.
pub data Moves : ApprovalState → ApprovalState → Type 0 where
  stays : (state : ApprovalState) → Moves state state
  requests : (state : ApprovalState) → Moves unrequested state
  approves : Moves undecided approved
  denies : Moves undecided denied

decided-Moves : (o more : Option ApprovalDecision) → Moves (decided o) (decided (or_else o more))
decided-Moves (some d) more = stays (decided (some d))
decided-Moves none none = stays undecided
decided-Moves none (some d) = by_flag d.approved
  where
    by_flag : (b : Bool) → Moves undecided (if b then approved else denied)
    by_flag true = approves
    by_flag false = denies

-- Appending rows to a ledger moves the approval of a call forward only: a call with no request may
-- come to any state, one that waits may be approved or denied, and an approval or a denial is
-- final.
pub approval_state-Moves :
    (ledger more : List Block) (id : ℕ)
    → Moves (approval_state ledger id) (approval_state (ledger ++ more) id)
unfolding approval_state
approval_state-Moves ledger more id =
    rw (covering-append ledger more id) (by_request (covering ledger id))
  where
    by_request :
        (o : Option ApprovalRequest)
        → Moves (state_of ledger o) (state_of (ledger ++ more) (or_else o (covering more id)))
    by_request none = requests (state_of (ledger ++ more) (covering more id))
    by_request (some request) =
        rw (decision_in-append request ledger more)
          (decided-Moves (decision_in request ledger) (decision_in request more))
