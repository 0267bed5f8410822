-- ===== src/Compaction/Straddling.antt =====
-- What a cut of a ledger parts: the end of the extension, and its fuel.
use ronna_core.Prelude.{
  ℕ, zero, suc, ◌+◌, ◌-◌, ◌≤◌, ◌<◌, ◌≡◌, refl, ap, sym, subst, ◌∙◌, if◌then◌else◌, Bool, false,
  Option, none, some, List, [], ◌∷◌, bind, any, All, length, get_elem?, drop, take, rev, position,
  is_some, arith, Bool-cases, Option-cases, inl, inr,
}
use ronna_core.Block.{Block, Role}
use ronna_core.Agency.Kinds.{BlockKind, from_block}
use ronna_core.Agency.Outcomes.{outcome_position_in, answered_by}
use ronna_core.Agency.Frontier.Resume.{position-FirstAt}
use ronna_core.Compaction.{
  run_length, role_run, answered_pair, push_found, answered_from, straddles, nearer, nearest,
  extend_round, extend, cut_at, cut_extended_from,
}

get_elem?-stands :
    {A : Type 0} (xs : List A) (i : ℕ) → i < length xs → (a : A) × (get_elem? xs i ≡ some a)
get_elem?-stands [] i h = absurd (omega arith)
get_elem?-stands (x ∷ xs) zero h = (x, refl)
get_elem?-stands (x ∷ xs) (suc i) h = get_elem?-stands xs i (omega arith)

get_elem?-bound :
    {A : Type 0} (xs : List A) (i : ℕ) (a : A) → get_elem? xs i ≡ some a → i < length xs
get_elem?-bound [] i a h = cc
get_elem?-bound (x ∷ xs) zero a h = omega arith
get_elem?-bound (x ∷ xs) (suc i) a h = omega (arith, get_elem?-bound xs i a h)

position-bound :
    {A : Type 0} (p : A → Bool) (xs : List A) (i : ℕ) → position p xs ≡ some i → i < length xs
position-bound p xs i h = let r = position-FirstAt p xs i h in get_elem?-bound xs i r.item r.stands

run_length-bound :
    (role : Option Role) (blocks : List Block) → run_length role blocks ≤ length blocks
unfolding run_length
run_length-bound role [] = omega arith
run_length-bound role (block ∷ blocks) = ground (arith, run_length-bound role blocks)

length-drop :
    {A : Type 0} (n : ℕ) (xs : List A) → n ≤ length xs → length (drop n xs) + n ≡ length xs
length-drop zero xs h = omega arith
length-drop (suc n) [] h = absurd (omega arith)
length-drop (suc n) (x ∷ xs) h = omega (arith, length-drop n xs (omega arith))

role_run-bound :
    (blocks : List Block) (i : ℕ)
    → i < length blocks
    → (run : ℕ × ℕ) × (role_run blocks i ≡ some run) × (i ≤ run.1) × (run.1 < length blocks)
unfolding role_run
role_run-bound blocks i h =
    let (block, stands) = get_elem?-stands blocks i h in
    (
      (
        i - run_length block.role (rev (take i blocks)),
        i + run_length block.role (drop (suc i) blocks),
      ),
      rw stands refl,
      omega arith,
      omega (
        arith,
        run_length-bound block.role (drop (suc i) blocks),
        length-drop (suc i) blocks (omega arith),
      ),
    )

-- Every outcome stands in the ledger.
IsWithin : ℕ → List (ℕ × ℕ) → Type 0
IsWithin bound answered = All (λ pair. pair.1 < bound) answered

push_found-IsWithin :
    (bound : ℕ) (o : Option (ℕ × ℕ)) (found : List (ℕ × ℕ))
    → ((pair : ℕ × ℕ) → o ≡ some pair → pair.1 < bound)
    → IsWithin bound found
    → IsWithin bound (push_found o found)
unfolding push_found IsWithin
push_found-IsWithin bound none found h within = within
push_found-IsWithin bound (some pair) found h within = (h pair refl, within)

IsBelow : ℕ → Option (ℕ × ℕ) → Type 0
IsBelow bound none = Unit
IsBelow bound (some pair) = pair.1 < bound

located-bound :
    (bound at : ℕ) (o : Option ℕ) (pair : ℕ × ℕ)
    → ((to : ℕ) → o ≡ some to → to < bound)
    → bind o (λ to. some (at, to)) ≡ some pair
    → pair.1 < bound
unfolding IsBelow
located-bound bound at none pair within h = cc
located-bound bound at (some to) pair within h =
    subst (λ (o : Option (ℕ × ℕ)). IsBelow bound o) h (within to refl)

answered_pair-bound :
    (ledger : List Block) (at : ℕ) (kind : BlockKind) (pair : ℕ × ℕ)
    → answered_pair ledger at kind ≡ some pair
    → pair.1 < length ledger
unfolding answered_pair outcome_position_in
answered_pair-bound ledger at (BlockKind.tool_call call) pair h =
    located-bound (length ledger) at (position (λ block. is_some (answered_by call block)) ledger)
      pair (position-bound (λ block. is_some (answered_by call block)) ledger) h
answered_pair-bound ledger at _ pair h = cc

answered_from-IsWithin :
    (ledger : List Block) (at : ℕ) (blocks : List Block)
    → IsWithin (length ledger) (answered_from ledger at blocks)
unfolding answered_from IsWithin
answered_from-IsWithin ledger at [] = tt
answered_from-IsWithin ledger at (block ∷ blocks) =
    push_found-IsWithin (length ledger) (answered_pair ledger at (from_block block))
      (answered_from ledger (suc at) blocks) (answered_pair-bound ledger at (from_block block))
      (answered_from-IsWithin ledger (suc at) blocks)

none-nearer : (n : ℕ) → some n ≡ none → ⊥
none-nearer n h = cc

nearest-none :
    (answered : List (ℕ × ℕ)) (end : ℕ)
    → nearest answered end ≡ none
    → any (straddles end) answered ≡ false
unfolding nearest any
nearest-none [] end h = refl
nearest-none (pair ∷ answered) end h = elim (Bool-cases (straddles end pair)) [
  | inl parted ↦ absurd (
      none-nearer _ (
        sym (
          ap (λ b. if b then some (nearer pair.1 (nearest answered end)) else nearest answered end)
            parted)
        ∙ h))
  | inr whole ↦ rw whole (
      nearest-none answered end (
        sym (
          ap (λ b. if b then some (nearer pair.1 (nearest answered end)) else nearest answered end)
            whole)
        ∙ h))
]

some-inj : (a b : ℕ) → some a ≡ some b → a ≡ b
some-inj a b h = cc

nearer-within :
    (end bound outcome : ℕ) (rest : Option ℕ)
    → end < outcome
    → outcome < bound
    → ((n : ℕ) → rest ≡ some n → (end < n) × (n < bound))
    → (end < nearer outcome rest) × (nearer outcome rest < bound)
unfolding nearer
nearer-within end bound outcome none past within others = (past, within)
nearer-within end bound outcome (some other) past within others =
    let (past', within') = others other refl in
    (ground (arith, past, past'), ground (arith, within, within'))

nearest-some :
    (answered : List (ℕ × ℕ)) (end bound outcome : ℕ)
    → IsWithin bound answered
    → nearest answered end ≡ some outcome
    → (end < outcome) × (outcome < bound)
unfolding nearest IsWithin straddles
nearest-some [] end bound outcome within h = cc
nearest-some (pair ∷ answered) end bound outcome (first, within) h =
    elim (Bool-cases (straddles end pair)) [
      | inl parted ↦
          let e : nearer pair.1 (nearest answered end) ≡ outcome = some-inj _ _ (rw parted at h) in
          let apart : end < pair.1 = ground (arith, parted) in
          subst (λ n. (end < n) × (n < bound)) e
            (nearer-within end bound pair.1 (nearest answered end) apart first
              (λ n found. nearest-some answered end bound n within found))
      | inr whole ↦ nearest-some answered end bound outcome within (
          sym (
            ap
              (λ b. if b then some (nearer pair.1 (nearest answered end)) else nearest answered end)
              whole)
          ∙ h)
    ]

extend-settles :
    (fuel : ℕ) (blocks : List Block) (answered : List (ℕ × ℕ)) (end : ℕ)
    → IsWithin (length blocks) answered
    → end < length blocks
    → length blocks ≤ end + fuel
    → (e : ℕ) × (extend fuel blocks answered end ≡ some e)
      × (end ≤ e)
      × (e < length blocks)
      × (any (straddles e) answered ≡ false)
unfolding extend extend_round
extend-settles zero blocks answered end within inside enough = absurd (omega arith)
extend-settles (suc fuel) blocks answered end within inside enough =
    elim (Option-cases (nearest answered end)) [
      | inl settled ↦ (end, rw settled refl, omega arith, inside, nearest-none answered end settled)
      | inr (outcome, parted) ↦
          let (past, within') = nearest-some answered end (length blocks) outcome within parted in
          let (run, found, after, inside') = role_run-bound blocks outcome within' in
          let (e, ends, later, last, settled) =
            extend-settles fuel blocks answered run.1 within inside' (omega arith) in
          (e, rw (parted, found) ends, omega arith, last, settled)
    ]

-- From an index of the ledger the extension ends, at an index not before it. No call up to that
-- index has its outcome past it, and the cut is the one after that index.
pub cut_extended_from-settles :
    (blocks : List Block) (end : ℕ)
    → end < length blocks
    → (e : ℕ) × (end ≤ e)
      × (e < length blocks)
      × (any (straddles e) (answered_from blocks 0 blocks) ≡ false)
      × (cut_extended_from blocks end ≡ cut_at blocks e)
unfolding cut_extended_from
cut_extended_from-settles blocks end inside =
    let (e, ends, later, last, settled) =
      extend-settles (length blocks) blocks (answered_from blocks 0 blocks) end
        (answered_from-IsWithin blocks 0 blocks) inside (omega arith) in
    (e, later, last, settled, rw ends refl)
