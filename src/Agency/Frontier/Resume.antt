-- ===== src/Agency/Frontier/Resume.antt =====
-- Where a drive resumes.
use ronna_core.Prelude.{
  ℕ, suc, ◌<◌, ◌≡◌, refl, Bool, true, false, Option, none, some, List, [], ◌∷◌, leb, ◌==◌, position,
  get_elem?, take, any, All, arith, Option-cases, Bool-cases, inl, inr, subst,
}
use ronna_core.Block.{Block}
use ronna_core.Agency.Frontier.{resume_at}

-- What a found position is: a row that passes, with none before it.
pub record FirstAt {A : Type 0} (p : A → Bool) (xs : List A) (at : ℕ) : Type 0 where
  pub item : A
  pub stands : get_elem? xs at ≡ some item
  pub passes : p item ≡ true
  pub first : All (λ x. p x ≡ false) (take at xs)

FirstAt-cons :
    {A : Type 0} (p : A → Bool) (x : A) (xs : List A)
    → p x ≡ false
    → (found : Option ℕ) → ((i : ℕ) → found ≡ some i → FirstAt p xs i)
    → (i : ℕ) → ◌≡◌ {A = Option ℕ} (elim found [ none ↦ none | some j ↦ some (suc j) ]) (some i)
    → FirstAt p (x ∷ xs) i
FirstAt-cons p x xs miss none ih i h = cc
FirstAt-cons p x xs miss (some j) ih i h =
    let e : suc j ≡ i = cc in
    let r = ih j refl in
    subst (FirstAt p (x ∷ xs)) e
      (record { item = r.item; stands = r.stands; passes = r.passes; first = (miss, r.first) })

pub position-FirstAt :
    {A : Type 0} (p : A → Bool) (xs : List A) (i : ℕ) → position p xs ≡ some i → FirstAt p xs i
unfolding position
position-FirstAt p [] i h = cc
position-FirstAt p (x ∷ xs) i h = elim (Bool-cases (p x)) [
  | inl hit ↦
      let e : 0 ≡ i = ground arith in
      subst (FirstAt p (x ∷ xs)) e (record { item = x; stands = refl; passes = hit; first = tt })
  | inr miss ↦ FirstAt-cons p x xs miss (position p xs) (position-FirstAt p xs) i (rw miss at h)
]

pub position-none :
    {A : Type 0} (p : A → Bool) (xs : List A) → position p xs ≡ none → All (λ x. p x ≡ false) xs
unfolding position
position-none p [] h = tt
position-none p (x ∷ xs) h = (ground arith, position-none p xs (ground arith))

All-map :
    {A : Type 0} {P Q : A → Type 0} → ((x : A) → P x → Q x) → (xs : List A) → All P xs → All Q xs
All-map f [] h = tt
All-map f (x ∷ xs) (p, ps) = (f x p, All-map f xs ps)

any-false :
    {A : Type 0} (p : A → Bool) (xs : List A) → All (λ x. p x ≡ false) xs → any p xs ≡ true → ⊥
unfolding any
any-false p [] h e = cc
any-false p (x ∷ xs) (hx, hxs) e = any-false p xs hxs (ground arith)

missing : {A : Type 0} (p : A → Bool) (xs : List A) → any p xs ≡ false → position p xs ≡ none
unfolding any position
missing p [] h = refl
missing p (x ∷ xs) h = ground (arith, missing p xs)

-- A drive whose cursor still has its row resumes on it.
pub resume_at_own :
    (ledger : List Block) (cursor : ℕ)
    → any (λ block. block.id == cursor) ledger ≡ true
    → FirstAt (λ block. block.id == cursor) ledger (resume_at ledger cursor)
unfolding resume_at
resume_at_own ledger cursor h =
    elim (Option-cases (position (λ block. block.id == cursor) ledger)) [
      | inl missing ↦
          absurd (any-false (λ block. block.id == cursor) ledger (position-none _ ledger missing) h)
      | inr (i, found) ↦ rw found (position-FirstAt (λ block. block.id == cursor) ledger i found)
    ]

-- A drive whose cursor lost its row passes over no row with an id at or past the cursor.
resume_at_vanished :
    (ledger : List Block) (cursor : ℕ)
    → any (λ block. block.id == cursor) ledger ≡ false
    → All (λ block. block.id < cursor) (take (resume_at ledger cursor) ledger)
unfolding resume_at
resume_at_vanished ledger cursor h =
    rw (missing (λ block. block.id == cursor) ledger h)
      (elim (Option-cases (position (λ block. leb cursor block.id) ledger)) [
        | inl none_past ↦ rw none_past tt
        | inr (i, found) ↦ rw found (
            All-map (λ block below. ground (arith, below)) (take i ledger)
              (position-FirstAt (λ block. leb cursor block.id) ledger i found).first)
      ])
