-- ===== src/Descriptors/Validate/Owners.antt =====
-- Whose a kind is, once the descriptors are accepted.
use text.Mathlib.TextEquality.{eq_iff}
use ronna_core.Prelude.{
  String, ◌≡◌, refl, sym, ap, ◌∙◌, ◌⊎◌, inl, inr, true, false, Option, none, some, List, [], ◌∷◌,
  Has, here, there, str_eq, find, Bool-cases, arith, map,
}
use ronna_core.Agency.Kinds.{contains_kind}
use ronna_core.Descriptors.{ContentDescriptor}
use ronna_core.Descriptors.Validate.{
  Schema, Reason, library_kind, kind_taken, withdrawn_and_declared, core_kinds, descriptor_for_kind,
  claim_kinds, validate_table, validate_references, validate_each, validate,
}

false_ne_true : ¬ (false ≡ true)
false_ne_true h = cc

some_ne_none : {a : String × Reason} → ¬ (some a ≡ none)
some_ne_none h = cc

abbrev Claim : Type 0
Claim = Reason ⊎ List String

refused : (r : Reason) (out : List String) → ¬ (Path Claim (inl r) (inr out))
refused r out h = ground arith

-- The first kind is free and not the library's, and the others are claimed after it.
claim_kinds-first :
    (kind : String) (kinds claimed out : List String)
    → claim_kinds (kind ∷ kinds) claimed ≡ inr out
    → (contains_kind core_kinds kind ≡ false)
      × (contains_kind claimed kind ≡ false)
      × (claim_kinds kinds (kind ∷ claimed) ≡ inr out)
unfolding claim_kinds
claim_kinds-first kind kinds claimed out ok = elim (Bool-cases (contains_kind core_kinds kind)) [
  | inl library ↦ absurd (refused library_kind out (rw library at ok))
  | inr own ↦ elim (Bool-cases (contains_kind claimed kind)) [
    | inl taken ↦ absurd (refused kind_taken out (rw taken at (rw own at ok)))
    | inr open_kind ↦ (own, open_kind, rw open_kind at (rw own at ok))
  ]
]

-- The kinds claimed after a descriptor are those before it and its own.
claim_kinds-covers :
    (kinds claimed out : List String) (k : String)
    → claim_kinds kinds claimed ≡ inr out
    → contains_kind out k ≡ false
    → (contains_kind claimed k ≡ false) × (contains_kind kinds k ≡ false)
unfolding contains_kind claim_kinds
claim_kinds-covers [] claimed out k ok free = (cc, refl)
claim_kinds-covers (kind ∷ kinds) claimed out k ok free =
    let (own, open_kind, next) = claim_kinds-first kind kinds claimed out ok in
    let (before, others) = claim_kinds-covers kinds (kind ∷ claimed) out k next free in
    ground (arith, before, others)

-- A kind that a descriptor claims was free, and is not the library's.
claim_kinds-free :
    (kinds claimed out : List String) (k : String)
    → claim_kinds kinds claimed ≡ inr out
    → contains_kind kinds k ≡ true
    → (contains_kind claimed k ≡ false) × (contains_kind core_kinds k ≡ false)
unfolding contains_kind
claim_kinds-free [] claimed out k ok has = absurd (false_ne_true has)
claim_kinds-free (kind ∷ kinds) claimed out k ok has =
    let (own, open_kind, next) = claim_kinds-first kind kinds claimed out ok in
    elim (Bool-cases (str_eq kind k)) [
      | inl same ↦
          let e : kind ≡ k = (eq_iff kind k).0 same in
          (
            ap (contains_kind claimed) (sym e) ∙ open_kind,
            ap (contains_kind core_kinds) (sym e) ∙ own,
          )
      | inr other ↦
          let (later, library) =
            claim_kinds-free kinds (kind ∷ claimed) out k next (rw other at has) in
          (rw other at later, library)
    ]

record Accepted (schema : Schema) (tables : List String) (d : ContentDescriptor)
    (ds : List ContentDescriptor) (claimed_tables claimed : List String) : Type 0 where
  out : List String
  claims : claim_kinds d.kinds claimed ≡ inr out
  later : validate_each schema tables ds (d.table ∷ claimed_tables) out ≡ none

module _ (schema : Schema) (tables : List String) where
  validate_each-Accepted :
      (d : ContentDescriptor) (ds : List ContentDescriptor) (claimed_tables claimed : List String)
      → validate_each schema tables (d ∷ ds) claimed_tables claimed ≡ none
      → Accepted schema tables d ds claimed_tables claimed
  unfolding validate_each
  validate_each-Accepted d ds claimed_tables claimed ok =
      over (validate_table schema claimed_tables d) (claim_kinds d.kinds claimed)
        (validate_references schema tables d) refl ok
    where
      over :
          (t : Option Reason) (c : Claim) (r : Option Reason)
          → claim_kinds d.kinds claimed ≡ c
          → Path
              (Option (String × Reason))
              (elim t [
                | some reason ↦ some (d.table, reason)
                | none ↦ elim c [
                  | inl reason ↦ some (d.table, reason)
                  | inr out ↦ elim r [
                    | some reason ↦ some (d.table, reason)
                    | none ↦ validate_each schema tables ds (d.table ∷ claimed_tables) out
                  ]
                ]
              ])
              none
          → Accepted schema tables d ds claimed_tables claimed
      over (some reason) c r e ok = absurd (some_ne_none ok)
      over none (inl reason) r e ok = absurd (some_ne_none ok)
      over none (inr out) (some reason) e ok = absurd (some_ne_none ok)
      over none (inr out) none e ok = record { out = out; claims = e; later = ok }

  -- A kind of a descriptor still to come is not claimed yet.
  kind_unclaimed :
      (d : ContentDescriptor) (ds : List ContentDescriptor) (claimed_tables claimed : List String)
      (k : String)
      → Has d ds
      → validate_each schema tables ds claimed_tables claimed ≡ none
      → contains_kind d.kinds k ≡ true
      → (contains_kind claimed k ≡ false) × (contains_kind core_kinds k ≡ false)
  kind_unclaimed d [] claimed_tables claimed k at ok has = elim at [ ]
  kind_unclaimed _ (d ∷ ds) claimed_tables claimed k here ok has =
      let a = validate_each-Accepted d ds claimed_tables claimed ok in
      claim_kinds-free d.kinds claimed a.out k a.claims has
  kind_unclaimed d (e ∷ ds) claimed_tables claimed k (there at) ok has =
      let a = validate_each-Accepted e ds claimed_tables claimed ok in
      let (free, own) = kind_unclaimed d ds (e.table ∷ claimed_tables) a.out k at a.later has in
      ((claim_kinds-covers e.kinds claimed a.out k a.claims free).0, own)

  owner :
      (d : ContentDescriptor) (ds : List ContentDescriptor) (claimed_tables claimed : List String)
      (k : String)
      → Has d ds
      → validate_each schema tables ds claimed_tables claimed ≡ none
      → contains_kind d.kinds k ≡ true
      → descriptor_for_kind ds k ≡ some d
  unfolding descriptor_for_kind find
  owner d [] claimed_tables claimed k at ok has = elim at [ ]
  owner _ (d ∷ ds) claimed_tables claimed k here ok has = rw has refl
  owner d (e ∷ ds) claimed_tables claimed k (there at) ok has =
      let a = validate_each-Accepted e ds claimed_tables claimed ok in
      let (free, own) = kind_unclaimed d ds (e.table ∷ claimed_tables) a.out k at a.later has in
      let not_here = (claim_kinds-covers e.kinds claimed a.out k a.claims free).1 in
      rw not_here (owner d ds (e.table ∷ claimed_tables) a.out k at a.later has)

-- Descriptors that the open accepts own their kinds: each kind that one of them declares is none of
-- the library's, and is served by that descriptor and no other.
pub validate-descriptor_for_kind :
    (schema : Schema) (descriptors : List ContentDescriptor) (withdrawn : List String)
    (d : ContentDescriptor) (k : String)
    → validate schema descriptors withdrawn ≡ none
    → Has d descriptors
    → contains_kind d.kinds k ≡ true
    → (descriptor_for_kind descriptors k ≡ some d) × (contains_kind core_kinds k ≡ false)
unfolding validate
validate-descriptor_for_kind schema descriptors withdrawn d k ok at has =
    over (find (λ table. contains_kind (map (λ d. d.table) descriptors) table) withdrawn) ok
  where
    over :
        (t : Option String)
        → Path
            (Option (String × Reason))
            (elim t [
              | some table ↦ some (table, withdrawn_and_declared)
              | none ↦ validate_each schema (map (λ d. d.table) descriptors) descriptors [] []
            ])
            none
        → (descriptor_for_kind descriptors k ≡ some d) × (contains_kind core_kinds k ≡ false)
    over (some table) ok = absurd (some_ne_none ok)
    over none ok =
        let tables = map (λ d. d.table) descriptors in
        (
          owner schema tables d descriptors [] [] k at ok has,
          (kind_unclaimed schema tables d descriptors [] [] k at ok has).1,
        )
