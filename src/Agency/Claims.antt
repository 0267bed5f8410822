-- ===== src/Agency/Claims.antt =====
-- Which stored type strings the library resolves: the parse chain of
-- crates/agent-ledger/src/agency/mod.rs and the kind lists that its derive checks.
use ronna_core.Prelude.{
  Bool, true, false, not, ◌≡◌, refl, String, List, [], ◌∙◌, ◌∷◌, arith, ◌||◌, if◌then◌else◌, ◌++◌,
  ap, ◌↔◌, ℕ, ◌+◌, length,
}
use text.Mathlib.TextEquality.{eq_iff}
use text.Mathlib.TextPositions.{eq_refl}
use ronna_core.Block.{Block}
use ronna_core.Agency.Records.{parse_unknown}
use ronna_core.Agency.Kinds.{
  BlockKind, unknown, contains_kind, concat_kinds, claimed_sets, claimed_kinds, try_leaf,
  from_block,
}

unfoldable pub is_unknown : BlockKind → Bool
is_unknown (unknown u) = true
is_unknown _ = false

-- The compile-time algebra of the derive: two lists that share no string, and the size of a claim.
unfoldable pub kinds_disjoint : List String → List String → Bool
kinds_disjoint [] ys = true
kinds_disjoint (x ∷ xs) ys = if contains_kind ys x then false else kinds_disjoint xs ys

unfoldable pub kind_count : List (List String) → ℕ
kind_count [] = 0
kind_count (set ∷ sets) = length set + kind_count sets

contains_kind-append :
    (xs ys : List String) (k : String)
    → contains_kind (xs ++ ys) k ≡ (contains_kind xs k || contains_kind ys k)
unfolding contains_kind
contains_kind-append [] ys k = refl
contains_kind-append (x ∷ xs) ys k = ground (arith, contains_kind-append xs ys k)

length-append : (xs ys : List String) → length (xs ++ ys) ≡ length xs + length ys
length-append [] ys = omega arith
length-append (x ∷ xs) ys = omega (arith, length-append xs ys)

kinds_disjoint_sound :
    (xs ys : List String) (k : String)
    → kinds_disjoint xs ys ≡ true
    → contains_kind xs k ≡ true
    → contains_kind ys k ≡ false
unfolding kinds_disjoint contains_kind
kinds_disjoint_sound [] ys k h c = cc
kinds_disjoint_sound (x ∷ xs) ys k h c = ground (arith, eq_iff x k, kinds_disjoint_sound xs ys k)

kinds_disjoint_complete :
    (xs ys : List String)
    → ((k : String) → contains_kind xs k ≡ true → contains_kind ys k ≡ false)
    → kinds_disjoint xs ys ≡ true
unfolding kinds_disjoint contains_kind
kinds_disjoint_complete [] ys h = refl
kinds_disjoint_complete (x ∷ xs) ys h =
    let head = h x in
    let tail = kinds_disjoint_complete xs ys (λ k c. h k (ground arith)) in
    ground (arith, eq_refl x)

-- The check that the derive evaluates passes exactly when no stored string has two owners.
kinds_disjoint_iff :
    (xs ys : List String)
    → (kinds_disjoint xs ys ≡ true)
      ↔ ((k : String) → contains_kind xs k ≡ true → contains_kind ys k ≡ false)
kinds_disjoint_iff xs ys = (λ h k. kinds_disjoint_sound xs ys k h, kinds_disjoint_complete xs ys)

pub claims : List String → String → Bool → Bool
claims set k rest = contains_kind set k || rest

-- Some list of the set claims the string.
pub claimed_by : List (List String) → String → Bool
claimed_by [] k = false
claimed_by (set ∷ sets) k = claims set k (claimed_by sets k)

contains_kind-concat_kinds :
    (sets : List (List String)) (k : String)
    → contains_kind (concat_kinds sets) k ≡ claimed_by sets k
unfolding contains_kind concat_kinds claimed_by claims
contains_kind-concat_kinds [] k = refl
contains_kind-concat_kinds (set ∷ sets) k =
    contains_kind-append set (concat_kinds sets) k
    ∙ ap (λ b. contains_kind set k || b) (contains_kind-concat_kinds sets k)

length-concat_kinds : (sets : List (List String)) → length (concat_kinds sets) ≡ kind_count sets
unfolding concat_kinds kind_count
length-concat_kinds [] = refl
length-concat_kinds (set ∷ sets) =
    omega (arith, length-append set (concat_kinds sets), length-concat_kinds sets)

-- The concatenated claim holds exactly the strings of its sets, and has the length that the derive
-- gives its array.
pub concat_kinds_lem :
    (sets : List (List String)) (k : String)
    → (length (concat_kinds sets) ≡ kind_count sets)
      × (contains_kind (concat_kinds sets) k ≡ claimed_by sets k)
concat_kinds_lem sets k = (length-concat_kinds sets, contains_kind-concat_kinds sets k)

-- A parsed kind agrees with the answer to whether its string is claimed.
record Agrees (kind : BlockKind) (claimed : Bool) : Type 0 where
  known : is_unknown kind ≡ not claimed

-- One arm of the chain.
arm :
    (kinds : List String) (stored : String) (leaf : BlockKind) {rest : Bool} {next : BlockKind}
    → is_unknown leaf ≡ false
    → Agrees next rest
    → Agrees (try_leaf kinds stored leaf next) (claims kinds stored rest)
unfolding try_leaf claims
arm kinds stored leaf known more = record { known = ground (arith, more.known) }

from_block-Agrees : (b : Block) → Agrees (from_block b) (claimed_by claimed_sets b.block_type)
unfolding is_unknown from_block claimed_by
from_block-Agrees b =
    let tail : Agrees (unknown (parse_unknown b)) false = record { known = refl } in
    arm _ _ _ refl (
      arm _ _ _ refl (
        arm _ _ _ refl (
          arm _ _ _ refl (
            arm _ _ _ refl (
              arm _ _ _ refl (
                arm _ _ _ refl (
                  arm _ _ _ refl (
                    arm _ _ _ refl (
                      arm _ _ _ refl (
                        arm _ _ _ refl (
                          arm _ _ _ refl (
                            arm _ _ _ refl (
                              arm _ _ _ refl (
                                arm _ _ _ refl (
                                  arm _ _ _ refl (
                                    arm _ _ _ refl (
                                      arm _ _ _ refl
                                        (arm _ _ _ refl (arm _ _ _ refl (tail))))))))))))))))))))

-- The parse chain falls through to the inert kind exactly on the stored strings that no kind of
-- the library claims.
is_unknown-from_block :
    (b : Block) → is_unknown (from_block b) ≡ not (contains_kind claimed_kinds b.block_type)
unfolding claimed_kinds
is_unknown-from_block b =
    rw (contains_kind-concat_kinds claimed_sets b.block_type) (from_block-Agrees b).known
