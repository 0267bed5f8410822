-- ===== src/Metadata/Policy/Once.antt =====
-- How often the policy asks.
use ronna_core.Prelude.{
  ℕ, zero, suc, ◌≤◌, ◌≡◌, refl, sym, ap, ◌∙◌, ◌⊎◌, inl, inr, String, Bool, true, false, ◌&&◌,
  Option, List, [], ◌∷◌, if_lem, if_split, ltb, leb, arith, All,
}
use ronna_core.Store.{Result, StoreError, ok, err}
use ronna_core.Metadata.Outside.{Outside, ok_or}
use ronna_core.Metadata.Derivation.{first_id}
use ronna_core.Metadata.Policy.{
  request_title, unless_metadata, if_assistant_spoke, policy_tick, title_derive_max_blocks,
}

-- What the policy relies on: `requests` counts the title requests of the ledger, which a read
-- leaves, a write that succeeds adds to and one that fails does not; the store's answer, if there
-- is one, says whether there are any.
pub record Counts {S : Type 0} (outside : Outside S) (requests : S → ℕ) : Type 0 where
  pub counting : (s : S) → requests (outside.block_count s).1 ≡ requests s
  pub asking : (kind : String) (s : S) → requests (outside.has_metadata kind s).1 ≡ requests s
  pub answers :
      (s : S) (b : Bool)
      → (outside.has_metadata "title_request" s).0 ≡ ok b
      → b ≡ ltb 0 (requests s)
  pub speaking : (s : S) → requests (outside.has_assistant_blocks s).1 ≡ requests s
  pub listing : (s : S) → requests (outside.list_blocks s).1 ≡ requests s
  pub stores :
      (source : Option ℕ) (s : S) (id : ℕ)
      → (outside.insert_request source s).0 ≡ ok id
      → requests (outside.insert_request source s).1 ≡ suc (requests s)
  pub rejects :
      (source : Option ℕ) (s : S) (e : StoreError)
      → (outside.insert_request source s).0 ≡ err e
      → requests (outside.insert_request source s).1 ≡ requests s

ok_or-false : (r : Result Bool) → ok_or r true ≡ false → r ≡ ok false
ok_or-false (ok b) h = ap ok h
ok_or-false (err e) h = cc

denied : {r : ℕ} (n : ℕ) → false ≡ ltb 0 r → ¬ (r ≡ suc n)
denied n h e = ground arith

-- Runs of the policy, with what happens to the store before each.
unfoldable pub policy_ticks : {S : Type 0} → Outside S → List (S → S) → S → S
policy_ticks outside [] s = s
policy_ticks outside (change ∷ elsewhere) s =
    policy_ticks outside elsewhere (policy_tick outside (change s))

module _ {S : Type 0} {outside : Outside S} {requests : S → ℕ}
    (counts : Counts outside requests) where
  -- One request is added at most to `n`.
  abbrev Adds : ℕ → S → Type 0
  Adds n s = (requests s ≡ n) ⊎ (requests s ≡ suc n)

  abbrev Adding : ℕ → (S → S) → Type 0
  Adding n next = (s : S) → requests s ≡ n → Adds n (next s)

  insert_request-Adds :
      (n : ℕ) (source : Option ℕ) (s : S) (r : Result ℕ × S)
      → outside.insert_request source s ≡ r
      → requests s ≡ n
      → Adds n r.1
  insert_request-Adds n source s (ok id, s') e has =
      inr
        (sym (ap (λ p. requests p.1) e) ∙ counts.stores source s id (ap (λ p. p.0) e) ∙ ap suc has)
  insert_request-Adds n source s (err er, s') e has =
      inl (sym (ap (λ p. requests p.1) e) ∙ counts.rejects source s er (ap (λ p. p.0) e) ∙ has)

  request_title-Adding : (n : ℕ) → Adding n (request_title outside)
  unfolding request_title
  request_title-Adding n s has =
      let s' = (outside.list_blocks s).1 in
      let source = first_id (outside.list_blocks s).0 in
      insert_request-Adds n source s' (outside.insert_request source s') refl
        (counts.listing s ∙ has)

  module _ (n : ℕ) (next : S → S) (adding : Adding n next) where
    if_assistant_spoke-Adding : Adding n (if_assistant_spoke outside next)
    unfolding if_assistant_spoke
    if_assistant_spoke-Adding s has =
        let (spoke, s') = outside.has_assistant_blocks s in
        if_lem (Adds n) (ok_or spoke false) (adding s' (counts.speaking s ∙ has))
          (inl (counts.speaking s ∙ has))

    unless_metadata-Adding : (kind : String) → Adding n (unless_metadata outside kind next)
    unfolding unless_metadata
    unless_metadata-Adding kind s has =
        let (there, s') = outside.has_metadata kind s in
        if_lem (Adds n) (ok_or there true) (inl (counts.asking kind s ∙ has))
          (adding s' (counts.asking kind s ∙ has))

  -- Where a request stands already, or the read fails, nothing is asked.
  unless_request :
      (n : ℕ) (next : S → S) (s : S)
      → requests s ≡ suc n
      → requests (unless_metadata outside "title_request" next s) ≡ suc n
  unfolding unless_metadata
  unless_request n next s has =
      let (there, s') = outside.has_metadata "title_request" s in
      if_split (λ t. requests t ≡ suc n) (ok_or there true)
        (λ _. counts.asking "title_request" s ∙ has)
        (λ none_yet. absurd (denied n (counts.answers s false (ok_or-false there none_yet)) has))

  policy_tick-kept : (n : ℕ) (s : S) → requests s ≡ suc n → requests (policy_tick outside s) ≡ suc n
  unfolding policy_tick
  policy_tick-kept n s has =
      let (count, s') = outside.block_count s in
      if_lem (λ t. requests t ≡ suc n)
        (ltb 0 (ok_or count 0) && leb (ok_or count 0) title_derive_max_blocks)
        (unless_request n
          (unless_metadata outside "title_response"
            (if_assistant_spoke outside (request_title outside)))
          s' (counts.counting s ∙ has))
        (counts.counting s ∙ has)

  policy_tick-first : Adding 0 (policy_tick outside)
  unfolding policy_tick
  policy_tick-first s has =
      let (count, s') = outside.block_count s in
      if_lem (Adds 0) (ltb 0 (ok_or count 0) && leb (ok_or count 0) title_derive_max_blocks)
        (unless_metadata-Adding 0 _
          (unless_metadata-Adding 0 _
            (if_assistant_spoke-Adding 0 (request_title outside) (request_title-Adding 0))
            "title_response")
          "title_request" s' (counts.counting s ∙ has))
        (inl (counts.counting s ∙ has))

  -- However often the policy runs, and whatever else happens to the store before each run so long
  -- as it adds and removes no title request: once one request stands it is the only one, and there
  -- is one at most from a ledger that had none.
  pub policy_ticks-once :
      (elsewhere : List (S → S)) (s : S)
      → All (λ change. (t : S) → requests (change t) ≡ requests t) elsewhere
      → requests s ≤ 1
      → (requests s ≤ requests (policy_ticks outside elsewhere s))
        × (requests (policy_ticks outside elsewhere s) ≤ 1)
  unfolding policy_ticks
  policy_ticks-once [] s keeps few = (omega arith, few)
  policy_ticks-once (change ∷ elsewhere) s (keep, keeps) few =
      let t = policy_tick outside (change s) in
      let within : (requests s ≤ requests t) × (requests t ≤ 1) = bounds (requests s) refl few in
      let (more, most) = policy_ticks-once elsewhere t keeps within.1 in
      (omega (arith, within.0), most)
    where
      bounds :
          (n : ℕ)
          → requests s ≡ n
          → requests s ≤ 1
          → (requests s ≤ requests (policy_tick outside (change s)))
            × (requests (policy_tick outside (change s)) ≤ 1)
      bounds zero has few = elim (policy_tick-first (change s) (keep s ∙ has)) [
        | inl none_yet ↦ (omega arith, omega arith)
        | inr one ↦ (omega arith, omega arith)
      ]
      bounds (suc n) has few =
          let kept = policy_tick-kept n (change s) (keep s ∙ has) in (omega arith, omega arith)
