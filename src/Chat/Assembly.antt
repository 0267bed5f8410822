-- ===== src/Chat/Assembly.antt =====
-- How the fragments of interleaved calls come together: the fold of one fragment in
-- providers/chat/sse.rs.
use ronna_core.Prelude.{
  ℕ, String, true, false, Option, none, some, List, [], ◌∷◌, ◌++◌, ◌≡◌, refl, ap, ◌∙◌, sym, scan,
  any, ◌==◌, or_else, subst, ◌||◌, ==_iff, is_id, if◌then◌else◌, get_or, Bool-cases, inl, inr, All,
  arith,
}
use ronna_core.Block.{Value, as_str}
use ronna_core.Chat.Json.{index, as_u64}
use ronna_core.Chat.State.{
  ToolCallInFlight, SseState, fragment_index, ensure_call, extend_call, change_call, push_arguments,
  fold_fragment, ingest_tool_call_fragment,
}

-- The arguments of the call of an index.
unfoldable pub arguments_at : ℕ → List ToolCallInFlight → Option String
arguments_at at [] = none
arguments_at at (call ∷ calls) =
    if call.index == at then some call.arguments else arguments_at at calls

-- The arguments that a fragment brings.
fragment_arguments : Value → Option String
fragment_arguments fragment = as_str (index (index fragment "function") "arguments")

push_at : Option String → Option String → Option String
push_at none more = none
push_at (some arguments) more = some (push_arguments arguments more)

arguments-change :
    (fragment : Value) (at i : ℕ) (calls : List ToolCallInFlight)
    → arguments_at i (change_call at (extend_call fragment) calls) ≡ (
        if at == i
        then push_at (arguments_at i calls) (fragment_arguments fragment)
        else arguments_at i calls)
unfolding arguments_at change_call extend_call fragment_arguments push_at
arguments-change fragment at i [] = elim (Bool-cases (at == i)) [
  | inl e ↦ rw e refl
  | inr e ↦ rw e refl
]
arguments-change fragment at i (call ∷ calls) =
    let ih = arguments-change fragment at i calls in
    elim (Bool-cases (call.index == at)) [
      | inl found ↦ elim (Bool-cases (call.index == i)) [
        | inl same ↦
            let e : (at == i) ≡ true = ground (arith, found, same) in rw (found, same, e) refl
        | inr other ↦
            let e : (at == i) ≡ false = ground (arith, found, other) in rw (found, other, e) refl
      ]
      | inr missed ↦ elim (Bool-cases (call.index == i)) [
        | inl same ↦
            let e : (at == i) ≡ false = ground (arith, missed, same) in rw (missed, same, e) refl
        | inr other ↦ rw (missed, other) ih
      ]
    ]

arguments-present :
    (at : ℕ) (calls : List ToolCallInFlight)
    → any (λ call. call.index == at) calls ≡ true
    → arguments_at at calls ≡ some (get_or (arguments_at at calls) "")
unfolding arguments_at any
arguments-present at [] h = cc
arguments-present at (call ∷ calls) h = elim (Bool-cases (call.index == at)) [
  | inl found ↦ rw found refl
  | inr missed ↦
      rw missed (
        arguments-present at calls (sym (ap (λ b. b || any (λ c. c.index == at) calls) missed) ∙ h))
]

arguments-missing :
    (at : ℕ) (calls : List ToolCallInFlight)
    → any (λ call. call.index == at) calls ≡ false
    → arguments_at at calls ≡ none
unfolding arguments_at any
arguments-missing at [] h = refl
arguments-missing at (call ∷ calls) h = elim (Bool-cases (call.index == at)) [
  | inl found ↦ absurd (true_false (sym (ap (λ b. b || any (λ c. c.index == at) calls) found) ∙ h))
  | inr missed ↦
      rw missed (
        arguments-missing at calls (sym (ap (λ b. b || any (λ c. c.index == at) calls) missed) ∙ h))
]
  where
    true_false : true ≡ false → ⊥
    true_false e = cc

arguments-snoc :
    (at i : ℕ) (calls : List ToolCallInFlight)
    → arguments_at i (calls ++ (record { index = at; id = ""; name = ""; arguments = "" } ∷ []))
      ≡ or_else (arguments_at i calls) (if at == i then some "" else none)
unfolding arguments_at
arguments-snoc at i [] = refl
arguments-snoc at i (call ∷ calls) = elim (Bool-cases (call.index == i)) [
  | inl same ↦ rw same refl
  | inr other ↦ rw other (arguments-snoc at i calls)
]

or_else-none : (o : Option String) → or_else o none ≡ o
or_else-none none = refl
or_else-none (some s) = refl

arguments-ensure :
    (at i : ℕ) (calls : List ToolCallInFlight)
    → arguments_at i (ensure_call at calls)
      ≡ (if at == i then some (get_or (arguments_at i calls) "") else arguments_at i calls)
unfolding ensure_call
arguments-ensure at i calls = elim (Bool-cases (any (λ call. call.index == at) calls)) [
  | inl found ↦ elim (Bool-cases (at == i)) [
    | inl same ↦
        rw (found, same)
          (subst (λ n. arguments_at n calls ≡ some (get_or (arguments_at n calls) ""))
            ((==_iff at i).0 same) (arguments-present at calls found))
    | inr other ↦ rw (found, other) refl
  ]
  | inr missing ↦ elim (Bool-cases (at == i)) [
    | inl same ↦
        let bare : arguments_at i calls ≡ none =
          subst (λ n. arguments_at n calls ≡ none) ((==_iff at i).0 same)
            (arguments-missing at calls missing) in
        rw (missing, arguments-snoc at i calls, bare, same) refl
    | inr other ↦
        rw (missing, arguments-snoc at i calls, other) (or_else-none (arguments_at i calls))
  ]
]

fold_fragment-arguments :
    (calls : List ToolCallInFlight) (fragment : Value) (i : ℕ)
    → arguments_at i (fold_fragment calls fragment) ≡ (
        if fragment_index calls fragment == i
        then some (push_arguments (get_or (arguments_at i calls) "") (fragment_arguments fragment))
        else arguments_at i calls)
unfolding fold_fragment
fold_fragment-arguments calls fragment i =
    let at = fragment_index calls fragment in
    arguments-change fragment at i (ensure_call at calls) ∙ (elim (Bool-cases (at == i)) [
      | inl same ↦ rw (same, arguments-ensure at i calls) (unfold push_at in rw same refl)
      | inr other ↦ rw (other, arguments-ensure at i calls) (rw other refl)
    ])

-- The arguments of a call after one fragment more: those of the fragment join them if its index on
-- the wire is the call's.
pub take_fragment : ℕ → Value → Option String → Option String
unfolding fragment_arguments
take_fragment i fragment arguments =
    if is_id (as_u64 (index fragment "index")) i
    then some (push_arguments (get_or arguments "") (fragment_arguments fragment))
    else arguments

wire_index :
    (calls : List ToolCallInFlight) (fragment : Value) (at : ℕ)
    → as_u64 (index fragment "index") ≡ some at
    → fragment_index calls fragment ≡ at
unfolding fragment_index
wire_index calls fragment at own = rw own refl

one_more :
    (state : SseState) (fragment : Value) (i at : ℕ)
    → as_u64 (index fragment "index") ≡ some at
    → arguments_at i (ingest_tool_call_fragment state fragment).tool_calls
      ≡ take_fragment i fragment (arguments_at i state.tool_calls)
unfolding ingest_tool_call_fragment take_fragment
one_more state fragment i at own =
    fold_fragment-arguments state.tool_calls fragment i
    ∙ rw (wire_index state.tool_calls fragment at own, own) refl

-- Fragments that carry an index may come interleaved in any way: the arguments of each call are
-- those of the fragments of its index, in the order of arrival, and no others.
pub ingest-arguments :
    (fragments : List Value) (state : SseState) (i : ℕ)
    → All (λ fragment. (at : ℕ) × (as_u64 (index fragment "index") ≡ some at)) fragments
    → arguments_at i
        (scan (λ fragment s. ingest_tool_call_fragment s fragment) state fragments).tool_calls
      ≡ scan (take_fragment i) (arguments_at i state.tool_calls) fragments
unfolding scan
ingest-arguments [] state i indexed = refl
ingest-arguments (fragment ∷ fragments) state i ((at, own), more) =
    ingest-arguments fragments (ingest_tool_call_fragment state fragment) i more
    ∙ ap (λ o. scan (take_fragment i) o fragments) (one_more state fragment i at own)
