-- ===== src/Render/Runs.antt =====
-- The messages of a ledger, without the loops.
use ronna_core.Prelude.{
  ℕ, zero, suc, ◌≤◌, ◌≡◌, refl, ap, ◌∙◌, Bool, true, false, Option, none, some, List, [], ◌∷◌, ◌++◌,
  map, is_some, filter, length, All, arith, Option-cases, Bool-cases, inl, inr, subst,
}
use ronna_core.Block.{Role, Block}
use ronna_core.Render.{
  Projection, Message, is_role, take_group, message_of, message_loop, blocks_to_messages,
  start_group,
}

module _ {K : Type 0} (projection : Projection K) where
  open projection use {group_role}

  -- The first kind has the role.
  continues : Role → List K → Bool
  continues role [] = false
  continues role (k ∷ kinds) = is_role role (group_role k)

  -- A kind joins the group behind it, or makes one.
  join_first : Bool → Role → K → List (Role × List K) → List (Role × List K)
  join_first true role k ((r, group) ∷ rest) = (role, k ∷ group) ∷ rest
  join_first _ role k groups = (role, k ∷ []) ∷ groups

  pub groups_of : List (Role × List K) → List K
  groups_of [] = []
  groups_of ((r, group) ∷ rest) = group ++ groups_of rest

  add_run : Option Role → K → List K → List (Role × List K) → List (Role × List K)
  unfolding continues join_first
  add_run none k kinds rest = rest
  add_run (some role) k kinds rest = join_first (continues role kinds) role k rest

  -- The groups of a ledger, from its end: a kind with no role ends a group and belongs to none, and
  -- a kind with a role joins the group of that role directly behind it.
  pub runs : List K → List (Role × List K)
  unfolding add_run
  runs [] = []
  runs (k ∷ kinds) = add_run (group_role k) k kinds (runs kinds)

  is_role-eq : (role : Role) (o : Option Role) → is_role role o ≡ true → o ≡ some role
  unfolding is_role
  is_role-eq role none h = absurd (by_role role h)
    where
      by_role : (r : Role) → is_role r none ≡ true → ⊥
      by_role Role.user h = cc
      by_role Role.assistant h = cc
      by_role Role.system h = cc
      by_role Role.tool h = cc
  is_role-eq role (some other) h = ground arith

  is_role_self : (role : Role) → is_role role (some role) ≡ true
  unfolding is_role
  is_role_self role = ground arith

  take_group-first :
      (role : Role) (k : K) (kinds : List K)
      → group_role k ≡ some role
      → take_group projection role (k ∷ kinds)
        ≡ (k ∷ (take_group projection role kinds).0, (take_group projection role kinds).1)
  unfolding take_group
  take_group-first role k kinds h = rw (h, is_role_self role)

  take_group-stop :
      (role : Role) (kinds : List K)
      → continues role kinds ≡ false
      → take_group projection role kinds ≡ ([], kinds)
  unfolding take_group continues
  take_group-stop role [] h = refl
  take_group-stop role (k ∷ kinds) h = rw h

  runs-group :
      (role : Role) (k : K) (kinds : List K)
      → group_role k ≡ some role
      → runs (k ∷ kinds)
        ≡ (role, k ∷ (take_group projection role kinds).0)
          ∷ runs (take_group projection role kinds).1
  unfolding runs join_first
  runs-group role k [] h = rw (h, add_run, take_group-stop role [] (unfold continues in refl))
  runs-group role k (k' ∷ kinds) h = elim (Bool-cases (continues role (k' ∷ kinds))) [
    | inl more ↦
        let same : group_role k' ≡ some role =
          is_role-eq role (group_role k') (unfold continues in more) in
        let ih = runs-group role k' kinds same in
        rw (h, add_run, more, take_group-first role k' kinds same)
          (ap (λ rest. join_first true role k rest) ih)
    | inr other ↦ rw (h, add_run, other, take_group-stop role (k' ∷ kinds) other)
  ]

  runs-silent : (k : K) (kinds : List K) → group_role k ≡ none → runs (k ∷ kinds) ≡ runs kinds
  unfolding runs
  runs-silent k kinds h = rw (h, add_run)

  length-take_group-le :
      (role : Role) (kinds : List K) → length (take_group projection role kinds).1 ≤ length kinds
  unfolding take_group
  length-take_group-le role [] = omega arith
  length-take_group-le role (k ∷ kinds) = ground (arith, length-take_group-le role kinds)

  abbrev message_of_run : Role × List K → Message
  message_of_run run = message_of projection run.0 run.1

  loop-silent :
      (fuel : ℕ) (k : K) (kinds : List K)
      → group_role k ≡ none
      → message_loop projection (suc fuel) (k ∷ kinds) ≡ message_loop projection fuel kinds
  unfolding message_loop
  loop-silent fuel k kinds h = rw (h, start_group)

  loop-group :
      (fuel : ℕ) (role : Role) (k : K) (kinds : List K)
      → group_role k ≡ some role
      → message_loop projection (suc fuel) (k ∷ kinds)
        ≡ message_of projection role (k ∷ (take_group projection role kinds).0)
          ∷ message_loop projection fuel (take_group projection role kinds).1
  unfolding message_loop
  loop-group fuel role k kinds h = rw (h, start_group, take_group-first role k kinds h)

  loop-runs :
      (fuel : ℕ) (kinds : List K)
      → length kinds ≤ fuel
      → message_loop projection fuel kinds ≡ map message_of_run (runs kinds)
  loop-runs zero [] h = unfold message_loop runs in refl
  loop-runs zero (k ∷ kinds) h = absurd (omega arith)
  loop-runs (suc fuel) [] h = unfold message_loop runs in refl
  loop-runs (suc fuel) (k ∷ kinds) h = elim (Option-cases (group_role k)) [
    | inl silent ↦
        rw (loop-silent fuel k kinds silent, runs-silent k kinds silent)
          (loop-runs fuel kinds (omega arith))
    | inr (role, speaks) ↦
        rw (loop-group fuel role k kinds speaks, runs-group role k kinds speaks)
          (ap (λ rest. message_of projection role (k ∷ (take_group projection role kinds).0) ∷ rest)
            (loop-runs fuel (take_group projection role kinds).1
              (omega (arith, length-take_group-le role kinds))))
  ]

  blocks_to_messages-runs :
      (from_block : Block → K) (blocks : List Block)
      → blocks_to_messages projection from_block blocks
        ≡ map (λ run. message_of projection run.0 run.1) (runs (map from_block blocks))
  unfolding blocks_to_messages
  blocks_to_messages-runs from_block blocks =
      loop-runs (length (map from_block blocks)) (map from_block blocks) (omega arith)

  -- A run of kinds of one role.
  abbrev pub IsUniform : Role × List K → Type 0
  IsUniform run = All (λ k. group_role k ≡ some run.0) run.1

  join-groups :
      (more : Bool) (role : Role) (k : K) (rest : List (Role × List K))
      → groups_of (join_first more role k rest) ≡ k ∷ groups_of rest
  unfolding join_first groups_of
  join-groups true role k ((r, group) ∷ rest) = refl
  join-groups true role k [] = refl
  join-groups false role k rest = refl

  groups_of-runs :
      (kinds : List K) → groups_of (runs kinds) ≡ filter (λ k. is_some (group_role k)) kinds
  unfolding runs filter
  groups_of-runs [] = unfold groups_of in refl
  groups_of-runs (k ∷ kinds) = elim (Option-cases (group_role k)) [
    | inl silent ↦ rw (silent, add_run) (groups_of-runs kinds)
    | inr (role, speaks) ↦
        rw (speaks, add_run)
          (join-groups (continues role kinds) role k (runs kinds)
            ∙ ap (λ l. k ∷ l) (groups_of-runs kinds))
  ]

  IsUniform-join :
      (role : Role) (k : K) (kinds : List K)
      → group_role k ≡ some role
      → All IsUniform (runs kinds)
      → All IsUniform (join_first (continues role kinds) role k (runs kinds))
  IsUniform-join role k [] h all' = unfold continues runs join_first in ((h, tt), tt)
  IsUniform-join role k (k' ∷ kinds) h all' = elim (Bool-cases (continues role (k' ∷ kinds))) [
    | inl more ↦
        let e =
          runs-group role k' kinds (is_role-eq role (group_role k') (unfold continues in more)) in
        rw (more, e)
          (unfold join_first in
            let (first, rest) = subst (All IsUniform) e all' in ((h, first), rest))
    | inr other ↦ rw other (unfold join_first in ((h, tt), all'))
  ]

  runs-IsUniform : (kinds : List K) → All IsUniform (runs kinds)
  unfolding runs
  runs-IsUniform [] = tt
  runs-IsUniform (k ∷ kinds) = elim (Option-cases (group_role k)) [
    | inl silent ↦ rw (silent, add_run) (runs-IsUniform kinds)
    | inr (role, speaks) ↦
        rw (speaks, add_run) (IsUniform-join role k kinds speaks (runs-IsUniform kinds))
  ]

  -- The messages of a ledger are its runs, in order, one message each. Every kind with a role
  -- stands in exactly one run, in ledger order, and a run's kinds all have its role.
  pub blocks_to_messages_lem :
      (from_block : Block → K) (blocks : List Block)
      → (blocks_to_messages projection from_block blocks
          ≡ map (λ run. message_of projection run.0 run.1) (runs (map from_block blocks)))
        × (groups_of (runs (map from_block blocks))
            ≡ filter (λ k. is_some (group_role k)) (map from_block blocks))
        × All IsUniform (runs (map from_block blocks))
  blocks_to_messages_lem from_block blocks = (
    blocks_to_messages-runs from_block blocks,
    groups_of-runs (map from_block blocks),
    runs-IsUniform (map from_block blocks),
  )
