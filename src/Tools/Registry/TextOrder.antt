-- ===== src/Tools/Registry/TextOrder.antt =====
-- The order of the names: `compare` on texts is antisymmetric and transitive.
use Prim.Native.Nat.compare as compare_ℕ
use Prim.Native.String.compare
use Prim.Native.String.{String, [], ◌∷◌, compare, then}
use Prim.Native.Nat.{ℕ, Ordering, zero, suc, compare as compare_ℕ}
use Prim.Native.Char.{code}
use mathlib.Core.Path.{◌≡◌, refl, sym, ap, ◌∙◌}

flip : Ordering → Ordering
flip Ordering.lt = Ordering.gt
flip Ordering.eq = Ordering.eq
flip Ordering.gt = Ordering.lt

then-flip : (o p : Ordering) → then (flip o) (flip p) ≡ flip (then o p)
unfolding flip
then-flip Ordering.lt p = refl
then-flip Ordering.eq p = refl
then-flip Ordering.gt p = refl

number-flip : (m n : ℕ) → compare_ℕ m n ≡ flip (compare_ℕ n m)
unfolding flip
number-flip zero zero = compare_ℕ.zero-zero ∙ ap flip (sym compare_ℕ.zero-zero)
number-flip zero (suc n) = compare_ℕ.zero-suc n ∙ ap flip (sym (compare_ℕ.suc-zero n))
number-flip (suc m) zero = compare_ℕ.suc-zero m ∙ ap flip (sym (compare_ℕ.zero-suc m))
number-flip (suc m) (suc n) =
    compare_ℕ.suc-suc m n ∙ number-flip m n ∙ ap flip (sym (compare_ℕ.suc-suc n m))

compare-flip : (s t : String) → compare s t ≡ flip (compare t s)
unfolding flip
compare-flip [] [] = compare.nil-nil ∙ ap flip (sym compare.nil-nil)
compare-flip [] (d ∷ t) = compare.nil-cons d t ∙ ap flip (sym (compare.cons-nil d t))
compare-flip (c ∷ s) [] = compare.cons-nil c s ∙ ap flip (sym (compare.nil-cons c s))
compare-flip (c ∷ s) (d ∷ t) =
    compare.cons-cons c d s t
    ∙ ap (λ o. then o (compare s t)) (number-flip (code c) (code d))
    ∙ ap (then (flip (compare_ℕ (code d) (code c)))) (compare-flip s t)
    ∙ then-flip (compare_ℕ (code d) (code c)) (compare t s)
    ∙ ap flip (sym (compare.cons-cons d c t s))

pub compare-after : (s t : String) → compare s t ≡ Ordering.gt → compare t s ≡ Ordering.lt
unfolding flip
compare-after s t e = compare-flip t s ∙ ap flip e

lt-not_eq : ¬ (Ordering.lt ≡ Ordering.eq)
lt-not_eq e = cc

gt-not_eq : ¬ (Ordering.gt ≡ Ordering.eq)
gt-not_eq e = cc

pub eq-not_lt : ¬ (Ordering.eq ≡ Ordering.lt)
eq-not_lt e = cc

gt-not_lt : ¬ (Ordering.gt ≡ Ordering.lt)
gt-not_lt e = cc

number_equal : (m n : ℕ) → compare_ℕ m n ≡ Ordering.eq → m ≡ n
number_equal zero zero e = refl
number_equal zero (suc n) e = absurd (lt-not_eq (sym (compare_ℕ.zero-suc n) ∙ e))
number_equal (suc m) zero e = absurd (gt-not_eq (sym (compare_ℕ.suc-zero m) ∙ e))
number_equal (suc m) (suc n) e = ap suc (number_equal m n (sym (compare_ℕ.suc-suc m n) ∙ e))

number_trans :
    (l m n : ℕ)
    → compare_ℕ l m ≡ Ordering.lt
    → compare_ℕ m n ≡ Ordering.lt
    → compare_ℕ l n ≡ Ordering.lt
number_trans zero zero n e g = absurd (eq-not_lt (sym compare_ℕ.zero-zero ∙ e))
number_trans (suc l) zero n e g = absurd (gt-not_lt (sym (compare_ℕ.suc-zero l) ∙ e))
number_trans l (suc m) zero e g = absurd (gt-not_lt (sym (compare_ℕ.suc-zero m) ∙ g))
number_trans zero (suc m) (suc n) e g = compare_ℕ.zero-suc n
number_trans (suc l) (suc m) (suc n) e g =
    compare_ℕ.suc-suc l n
    ∙ number_trans l m n (sym (compare_ℕ.suc-suc l m) ∙ e) (sym (compare_ℕ.suc-suc m n) ∙ g)

-- Two first characters, and what is left to compare if they are equal.
then_trans :
    (a b c : ℕ) (p q r : Ordering)
    → (p ≡ Ordering.lt → q ≡ Ordering.lt → r ≡ Ordering.lt)
    → then (compare_ℕ a b) p ≡ Ordering.lt
    → then (compare_ℕ b c) q ≡ Ordering.lt
    → then (compare_ℕ a c) r ≡ Ordering.lt
then_trans a b c p q r rest e g = over (compare_ℕ a b) (compare_ℕ b c) refl refl e g
  where
    over :
        (x y : Ordering)
        → compare_ℕ a b ≡ x
        → compare_ℕ b c ≡ y
        → then x p ≡ Ordering.lt
        → then y q ≡ Ordering.lt
        → then (compare_ℕ a c) r ≡ Ordering.lt
    over Ordering.lt Ordering.lt ab bc e g = ap (λ o. then o r) (number_trans a b c ab bc)
    over Ordering.lt Ordering.eq ab bc e g =
        ap (λ o. then o r) (sym (ap (compare_ℕ a) (number_equal b c bc)) ∙ ab)
    over Ordering.eq Ordering.lt ab bc e g =
        ap (λ o. then o r) (ap (λ k. compare_ℕ k c) (number_equal a b ab) ∙ bc)
    over Ordering.eq Ordering.eq ab bc e g =
        ap (λ o. then o r) (ap (λ k. compare_ℕ k c) (number_equal a b ab) ∙ bc) ∙ rest e g
    over Ordering.gt y ab bc e g = absurd (gt-not_lt e)
    over x Ordering.gt ab bc e g = absurd (gt-not_lt g)

pub compare_trans :
    (s t u : String)
    → compare s t ≡ Ordering.lt
    → compare t u ≡ Ordering.lt
    → compare s u ≡ Ordering.lt
compare_trans [] [] u e g = absurd (eq-not_lt (sym compare.nil-nil ∙ e))
compare_trans (c ∷ s) [] u e g = absurd (gt-not_lt (sym (compare.cons-nil c s) ∙ e))
compare_trans s (d ∷ t) [] e g = absurd (gt-not_lt (sym (compare.cons-nil d t) ∙ g))
compare_trans [] (d ∷ t) (f ∷ u) e g = compare.nil-cons f u
compare_trans (c ∷ s) (d ∷ t) (f ∷ u) e g =
    compare.cons-cons c f s u
    ∙ then_trans (code c) (code d) (code f) (compare s t) (compare t u) (compare s u)
        (compare_trans s t u) (sym (compare.cons-cons c d s t) ∙ e)
        (sym (compare.cons-cons d f t u) ∙ g)
