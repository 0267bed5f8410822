-- ===== src/Agency/Outcomes/Resolution.antt =====
-- When a call is resolved, and by what: the reads of crates/agent-ledger/src/agency/tool_call.rs
-- that start from a call.
use ronna_core.Prelude.{
  zero, suc, ℕ, suc, ◌≡◌, refl, ◌∙◌, true, false, ◌||◌, Option, none, some, List, [], ◌∷◌, ◌++◌,
  is_some, bind, or_else, then_some, ◌==◌, get_elem?, take, find_map, filter_map, position,
  contains, All, arith, Option-cases, inl, inr, Bool, ◌<◌, zero, suc, if◌then◌else◌,
}
use ronna_core.Block.{Block}
use ronna_core.Agency.Calls.{ToolCall}
use ronna_core.Agency.Outcomes.{
  answered_call, answered_by, outcome_in, outcome_position_in, resolved_in, answered_call_ids,
  unanswered_kind, earlier_unresolved_call, from_block, BlockKind,
}

resolved-cons :
    (call : ToolCall) (b : Block) (ledger : List Block)
    → resolved_in call (b ∷ ledger) ≡ (is_some (answered_by call b) || resolved_in call ledger)
unfolding resolved_in outcome_position_in position
resolved-cons call b ledger = ground arith

ids-cons :
    (id : ℕ) (b : Block) (ledger : List Block)
    → contains (answered_call_ids (b ∷ ledger)) id ≡ (
        is_some (bind (answered_call b) (λ (named, outcome). then_some (named == id) outcome))
        || contains (answered_call_ids ledger) id)
unfolding answered_call_ids filter_map contains
ids-cons id b ledger = ground arith

-- A call is resolved exactly when its row is among those that the ledger's outcomes name: the set
-- that a whole ledger is read by agrees with the scan for one call.
resolved_in-contains :
    (call : ToolCall) (ledger : List Block)
    → resolved_in call ledger ≡ contains (answered_call_ids ledger) call.id
unfolding answered_by
resolved_in-contains call [] =
    unfold resolved_in outcome_position_in position answered_call_ids filter_map contains in refl
resolved_in-contains call (b ∷ ledger) = ground (
  arith,
  resolved-cons call b ledger,
  ids-cons call.id b ledger,
  resolved_in-contains call ledger,
)

outcome_in-append :
    (call : ToolCall) (ledger more : List Block)
    → outcome_in call (ledger ++ more) ≡ or_else (outcome_in call ledger) (outcome_in call more)
unfolding outcome_in find_map
outcome_in-append call [] more = refl
outcome_in-append call (b ∷ ledger) more = ground (arith, outcome_in-append call ledger more)

outcome-cons :
    (call : ToolCall) (b : Block) (ledger : List Block)
    → outcome_in call (b ∷ ledger) ≡ or_else (answered_by call b) (outcome_in call ledger)
unfolding outcome_in find_map
outcome-cons call b ledger = refl

outcome_in-resolved_in :
    (call : ToolCall) (ledger : List Block)
    → is_some (outcome_in call ledger) ≡ resolved_in call ledger
outcome_in-resolved_in call [] =
    unfold outcome_in find_map resolved_in outcome_position_in position in refl
outcome_in-resolved_in call (b ∷ ledger) = ground (
  arith,
  resolved-cons call b ledger,
  outcome-cons call b ledger,
  outcome_in-resolved_in call ledger,
)

-- A recorded outcome is final: once a call is resolved, no row appended later changes the outcome
-- that it reads, and until then it reads the first that is appended.
outcome_in-append_final :
    (call : ToolCall) (ledger more : List Block)
    → outcome_in call (ledger ++ more)
      ≡ (if resolved_in call ledger then outcome_in call ledger else outcome_in call more)
outcome_in-append_final call ledger more =
    ground (arith, outcome_in-append call ledger more, outcome_in-resolved_in call ledger)

-- Where a first answer was found: at its position, with none before it.
record FoundAt {A : Type 0} {B : Type 0} (f : A → Option B) (xs : List A) (b : B) : Type 0 where
  at : ℕ
  item : A
  stands : get_elem? xs at ≡ some item
  answers : f item ≡ some b
  first : All (λ x. f x ≡ none) (take at xs)

find_map-FoundAt :
    {A B : Type 0} (f : A → Option B) (xs : List A) {b : B}
    → find_map f xs ≡ some b
    → FoundAt f xs b
unfolding find_map
find_map-FoundAt f [] h = cc
find_map-FoundAt f (x ∷ xs) h = elim (Option-cases (f x)) [
  | inl miss ↦
      let rest = find_map-FoundAt f xs (rw miss at h) in
      record {
        at = suc rest.at;
        item = rest.item;
        stands = rest.stands;
        answers = rest.answers;
        first = (miss, rest.first);
      }
  | inr (b', hit) ↦ record {
    at = 0;
    item = x;
    stands = refl;
    answers = hit ∙ (rw hit at h);
    first = tt;
  }
]

-- The calls that another call waits for: recorded before it, unanswered, and of interest.
pub record IsEarlierUnresolved (ledger : List Block) (before : ToolCall)
    (of_interest : ToolCall → Bool) (id : ℕ) : Type 0 where
  own : ℕ
  placed : position (λ block. block.id == before.id) ledger ≡ some own
  at : ℕ
  earlier : at < own
  row : Block
  stands : get_elem? ledger at ≡ some row
  call : ToolCall
  kind : from_block row ≡ BlockKind.tool_call call
  named : call.id ≡ id
  open_call : resolved_in call ledger ≡ false
  wanted : of_interest call ≡ true

get_elem?-take :
    {A : Type 0} (n i : ℕ) (xs : List A) (a : A)
    → get_elem? (take n xs) i ≡ some a
    → (i < n) × (get_elem? xs i ≡ some a)
get_elem?-take zero i xs a h = cc
get_elem?-take (suc n) i [] a h = cc
get_elem?-take (suc n) zero (x ∷ xs) a h = (omega arith, h)
get_elem?-take (suc n) (suc i) (x ∷ xs) a h =
    let r = get_elem?-take n i xs a h in (omega arith, r.1)

unanswered_kind-inv :
    (answered : List ℕ) (of_interest : ToolCall → Bool) (kind : BlockKind) {id : ℕ}
    → unanswered_kind answered of_interest kind ≡ some id
    → (call : ToolCall) × (kind ≡ BlockKind.tool_call call)
      × (call.id ≡ id)
      × (contains answered call.id ≡ false)
      × (of_interest call ≡ true)
unfolding unanswered_kind
unanswered_kind-inv answered of_interest (BlockKind.tool_call call) h =
    (call, refl, ground arith, ground arith, ground arith)
unanswered_kind-inv answered of_interest _ h = cc

-- The call that another one is told to wait for is recorded before it in the ledger, is not
-- answered anywhere in the ledger, and is of interest.
pub earlier_unresolved_call_sound :
    (ledger : List Block) (before : ToolCall) (of_interest : ToolCall → Bool) {id : ℕ}
    → earlier_unresolved_call ledger before of_interest ≡ some id
    → IsEarlierUnresolved ledger before of_interest id
unfolding earlier_unresolved_call
earlier_unresolved_call_sound ledger before of_interest h =
    elim (Option-cases (position (λ block. block.id == before.id) ledger)) [
      | inl missing ↦ absurd (let e = rw missing at h in cc)
      | inr (own, placed) ↦
          let found =
            find_map-FoundAt
              (λ block. unanswered_kind (answered_call_ids ledger) of_interest (from_block block))
              (take own ledger) (rw placed at h) in
          let (earlier, stands) = get_elem?-take own found.at ledger found.item found.stands in
          let (call, kind, named, unanswered, wanted) =
            unanswered_kind-inv (answered_call_ids ledger) of_interest (from_block found.item)
              found.answers in
          record {
            own = own;
            placed = placed;
            at = found.at;
            earlier = earlier;
            row = found.item;
            stands = stands;
            call = call;
            kind = kind;
            named = named;
            open_call = resolved_in-contains call ledger ∙ unanswered;
            wanted = wanted;
          }
    ]
