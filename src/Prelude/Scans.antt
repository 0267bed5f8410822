-- ===== src/Prelude/Scans.antt =====
-- Lists read from their end, and running values.
use ronna_core.Prelude.Lists.{length, drop, rev, all}
use Prim.Native.Nat.{ℕ, zero, suc, ◌+◌, ◌≤◌}
use mathlib.Core.Path.{◌≡◌, refl, ap, sym, ◌∙◌, subst}
use mathlib.Core.Bool.{Bool, ◌&&◌}
use mathlib.Core.List.{List, [], ◌∷◌, ◌++◌, append_assoc, append-nil}
use native.Mathlib.Omega.{arith}

-- A running value over a list, first element first.
unfoldable pub scan {ℓ κ} : {A : Type ℓ} {S : Type κ} → (A → S → S) → S → List A → S
scan step s [] = s
scan step s (x ∷ xs) = scan step (step x s) xs

module _ {ℓ} {A : Type ℓ} where
  pub rev-append : (xs ys : List A) → rev (xs ++ ys) ≡ rev ys ++ rev xs
  unfolding rev
  rev-append [] ys = sym (append-nil (rev ys))
  rev-append (x ∷ xs) ys = rw (rev-append xs ys) (append_assoc (rev ys) (rev xs) (x ∷ []))

  pub rev-snoc : (xs : List A) (x : A) → rev (xs ++ (x ∷ [])) ≡ x ∷ rev xs
  unfolding rev
  rev-snoc xs x = rev-append xs (x ∷ [])

  pub rev-rev : (xs : List A) → rev (rev xs) ≡ xs
  unfolding rev
  rev-rev [] = refl
  rev-rev (x ∷ xs) = rev-snoc (rev xs) x ∙ ap (λ l. x ∷ l) (rev-rev xs)

  -- Induction from the end of a list.
  pub snoc_induction {κ} :
      (P : List A → Type κ)
      → P []
      → ((xs : List A) (x : A) → P xs → P (xs ++ (x ∷ [])))
      → (xs : List A) → P xs
  unfolding rev
  snoc_induction P base step xs = subst P (rev-rev xs) (go (rev xs))
    where
      go : (ys : List A) → P (rev ys)
      go [] = base
      go (y ∷ ys) = step (rev ys) y (go ys)

  pub scan-snoc {κ} :
      {S : Type κ} (step : A → S → S) (s : S) (xs : List A) (x : A)
      → scan step s (xs ++ (x ∷ [])) ≡ step x (scan step s xs)
  unfolding scan
  scan-snoc step s [] x = refl
  scan-snoc step s (y ∷ ys) x = scan-snoc step (step y s) ys x

  -- A function that follows the step at every appended element is the running value.
  pub scan_unique {κ} :
      {S : Type κ} (step : A → S → S) (s : S) (f : List A → S)
      → f [] ≡ s
      → ((xs : List A) (x : A) → f (xs ++ (x ∷ [])) ≡ step x (f xs))
      → (xs : List A) → f xs ≡ scan step s xs
  unfolding scan
  scan_unique step s f base follow =
      snoc_induction (λ xs. f xs ≡ scan step s xs) base
        (λ xs x ih. follow xs x ∙ ap (step x) ih ∙ sym (scan-snoc step s xs x))

  pub length-append : (xs ys : List A) → length (xs ++ ys) ≡ length xs + length ys
  length-append [] ys = omega arith
  length-append (x ∷ xs) ys = omega (arith, length-append xs ys)

  pub drop-append : (n : ℕ) (xs ys : List A) → n ≤ length xs → drop n (xs ++ ys) ≡ drop n xs ++ ys
  drop-append zero xs ys h = refl
  drop-append (suc n) [] ys h = elim h [ ]
  drop-append (suc n) (x ∷ xs) ys h = drop-append n xs ys (omega arith)

  pub all-append : (p : A → Bool) (xs ys : List A) → all p (xs ++ ys) ≡ (all p xs && all p ys)
  unfolding all
  all-append p [] ys = refl
  all-append p (x ∷ xs) ys = ground (arith, all-append p xs ys)
