-- ===== src/Agency/Outcomes/Debt.antt =====
-- What turn a ledger still owes an outcome's continuation: `unanswered_outcome_anchor` of
-- crates/agent-ledger/src/agency/tool_call.rs, against a running account of the rows.
use ronna_core.Prelude.{
  ℕ, suc, ◌+◌, ◌<◌, ◌≡◌, refl, Bool, not, ◌&&◌, ◌||◌, Option, none, some, List, [], ◌∷◌, ◌++◌,
  if◌then◌else◌, is_id, bind, then_some, length, drop, all, scan, scan_unique, drop-append,
  all-append, arith, Option-cases, Bool-cases, inl, inr,
}
use native.Mathlib.Nat.{zero-add}
use ronna_core.Block.{Block}
use ronna_core.Agency.Outcomes.{
  outcome_asks_for_a_continuation, closes_turn, rfind, unanswered_outcome_anchor,
}

-- The account: an outcome that asks opens its turn's debt and forgets the one before, a text or a
-- status of the same turn settles it, and any other row leaves it.
pub debt_step : Block → Option ℕ → Option ℕ
debt_step block debt =
    if outcome_asks_for_a_continuation block
    then block.dispatch_anchor
    else bind debt (λ anchor.
      then_some (not (is_id block.dispatch_anchor anchor) || not (closes_turn block)) anchor)

rfind-snoc :
    (p : Block → Bool) (i : ℕ) (xs : List Block) (b : Block)
    → rfind p i (xs ++ (b ∷ [])) ≡ (if p b then some (i + length xs, b) else rfind p i xs)
unfolding rfind
rfind-snoc p i [] b = ground arith
rfind-snoc p i (x ∷ xs) b = ground (arith, rfind-snoc p (suc i) xs b)

rfind-lt :
    (p : Block → Bool) (i : ℕ) (xs : List Block) (k : ℕ) (o : Block)
    → rfind p i xs ≡ some (k, o)
    → k < i + length xs
unfolding rfind
rfind-lt p i [] k o h = cc
rfind-lt p i (x ∷ xs) k o h = ground (arith, rfind-lt p (suc i) xs k o)

drop-all : (xs : List Block) (b : Block) → drop (suc (length xs)) (xs ++ (b ∷ [])) ≡ []
drop-all [] b = refl
drop-all (x ∷ xs) b = drop-all xs b

-- Whether a debt stands after the rows `later`.
stands : ℕ → List Block → Bool
stands anchor later =
    all (λ block. not (is_id block.dispatch_anchor anchor) || not (closes_turn block)) later

stands-snoc :
    (anchor : ℕ) (later : List Block) (b : Block)
    → stands anchor (later ++ (b ∷ []))
      ≡ (stands anchor later && (not (is_id b.dispatch_anchor anchor) || not (closes_turn b)))
unfolding stands all
stands-snoc anchor later b = ground (
  arith,
  all-append (λ block. not (is_id block.dispatch_anchor anchor) || not (closes_turn block)) later
      (b ∷ []),
)

-- The debt that a found outcome leaves in a ledger.
debt_at : List Block → ℕ × Block → Option ℕ
debt_at ledger (position, outcome) =
    bind outcome.dispatch_anchor
      (λ anchor. then_some (stands anchor (drop (suc position) ledger)) anchor)

unanswered-debt_at :
    (ledger : List Block)
    → unanswered_outcome_anchor ledger
      ≡ bind (rfind outcome_asks_for_a_continuation 0 ledger) (debt_at ledger)
unfolding unanswered_outcome_anchor debt_at stands
unanswered-debt_at ledger = refl

debt_at-new :
    (ledger : List Block) (b : Block)
    → debt_at (ledger ++ (b ∷ [])) (length ledger, b) ≡ b.dispatch_anchor
unfolding debt_at stands all
debt_at-new ledger b = rw (drop-all ledger b) (ground arith)

debt_at-old :
    (ledger : List Block) (b : Block) (k : ℕ) (o : Block)
    → k < length ledger
    → debt_at (ledger ++ (b ∷ [])) (k, o)
      ≡ bind
          (debt_at ledger (k, o))
          (λ anchor. then_some (not (is_id b.dispatch_anchor anchor) || not (closes_turn b)) anchor)
unfolding debt_at
debt_at-old ledger b k o h =
    rw (drop-append (suc k) ledger (b ∷ []) h) (later (drop (suc k) ledger) o.dispatch_anchor)
  where
    later :
        (rest : List Block) (debt : Option ℕ)
        → bind debt (λ anchor. then_some (stands anchor (rest ++ (b ∷ []))) anchor)
          ≡ bind (bind debt (λ anchor. then_some (stands anchor rest) anchor)) (λ anchor.
            then_some (not (is_id b.dispatch_anchor anchor) || not (closes_turn b)) anchor)
    later rest none = refl
    later rest (some anchor) = ground (arith, stands-snoc anchor rest b)

unanswered-snoc :
    (ledger : List Block) (b : Block)
    → unanswered_outcome_anchor (ledger ++ (b ∷ []))
      ≡ debt_step b (unanswered_outcome_anchor ledger)
unfolding debt_step
unanswered-snoc ledger b =
    rw
      (
        unanswered-debt_at (ledger ++ (b ∷ [])),
        unanswered-debt_at ledger,
        rfind-snoc outcome_asks_for_a_continuation 0 ledger b,
      )
      (elim (Bool-cases (outcome_asks_for_a_continuation b)) [
        | inl asks ↦ rw (asks, zero-add) (debt_at-new ledger b)
        | inr silent ↦
            rw silent (elim (Option-cases (rfind outcome_asks_for_a_continuation 0 ledger)) [
              | inl nothing ↦ rw nothing
              | inr ((k, o), found) ↦ rw found (
                  debt_at-old ledger b k o
                    (rw zero-add at (rfind-lt outcome_asks_for_a_continuation 0 ledger k o found)))
            ])
      ])

-- The turn whose outcome still waits for its continuation, as the code finds it from the ledger's
-- end, is the one that a single pass over the rows is left with: an outcome that asks opens its
-- turn's debt in place of any before it, a text or a status of that turn settles it, and every
-- other row leaves it.
pub unanswered_outcome_anchor-scan :
    (ledger : List Block) → unanswered_outcome_anchor ledger ≡ scan debt_step none ledger
unanswered_outcome_anchor-scan =
    scan_unique debt_step none unanswered_outcome_anchor
      (unfold unanswered_outcome_anchor rfind in refl) unanswered-snoc
