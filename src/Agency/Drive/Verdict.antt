-- ===== src/Agency/Drive/Verdict.antt =====
-- What a drive concludes, and what it leaves in the store.
pub mod Stored
use ronna_core.Prelude.{
  ℕ, ◌≡◌, ◌≢◌, refl, sym, ap, ◌∙◌, subst, Bool, true, false, not, ◌&&◌, ◌||◌, Option, none, some,
  List, [], ◌∷◌, ◌++◌, if◌then◌else◌, bind, contains, rev, rev-snoc, last?, or_else, snoc_induction,
  arith, Bool-cases, Option-cases, inl, inr, ◌⊎◌,
}
use ronna_core.Block.{Block}
use ronna_core.Store.{Result, ok, err, M, LedgerSource}
use ronna_core.Agency.Awaiting.{Awaiting, is_model}
use ronna_core.Agency.Interface.{RuntimeKind}
use ronna_core.Agency.Outcomes.{system_owed_call_from}
use ronna_core.Agency.Frontier.{
  resume_at, is_disowned, awaits_model, frontier_loop, frontier_block, frontier_owes_turn,
}
use ronna_core.Agency.Drive.{Outcome, Driven, ran, wants_listing, verdict, drive_ledger}
use ronna_core.Agency.Drive.Cursor.{Drove, drive_ledger-Drove}

last?-snoc : (rows : List Block) (b : Block) → last? (rows ++ (b ∷ [])) ≡ some b
last?-snoc [] b = refl
last?-snoc (x ∷ rows) b = ground (arith, last?-snoc rows b)

and-left : (a b c : Bool) → (a && (b && c)) ≡ true → b ≡ true
and-left a b c h = ground arith

is_model-eq : (a : Option Awaiting) → is_model a ≡ true → a ≡ some Awaiting.model
unfolding is_model
is_model-eq none h = cc
is_model-eq (some Awaiting.model) h = refl
is_model-eq (some Awaiting.system) h = cc
is_model-eq (some Awaiting.user) h = cc
is_model-eq (some Awaiting.out_of_band) h = cc

module _ {K S : Type 0} (kind : RuntimeKind K S) (source : LedgerSource S) where
  open kind use {from_block, awaiting, durable, frontier_transparent, run}

  loop-opaque :
      (tail b : Block) (older : List Block)
      → frontier_transparent (from_block b) ≡ false
      → frontier_loop kind tail [] (b ∷ older) ≡ b
  unfolding frontier_loop is_disowned contains
  loop-opaque tail b older h = ground arith

  -- An opaque tail speaks for itself.
  frontier-opaque :
      (rows : List Block) (b : Block)
      → frontier_transparent (from_block b) ≡ false
      → frontier_block kind (rows ++ (b ∷ [])) ≡ some b
  unfolding frontier_block
  frontier-opaque rows b h =
      rw (last?-snoc rows b, rev-snoc rows b) (ap some (loop-opaque b b (rev rows) h))

  owes-opaque :
      (rows : List Block) (b : Block) (at : ℕ)
      → wants_listing kind source (some b) ≡ false
      → frontier_owes_turn kind (rows ++ (b ∷ [])) at ≡ false
  unfolding frontier_owes_turn wants_listing
  owes-opaque rows b at h = ground (arith, frontier-opaque rows b)

  unlisted :
      (at : ℕ) (parked : Bool) (snapshot : List Block)
      → wants_listing kind source (last? snapshot) ≡ false
      → verdict kind source at parked (last? snapshot) none
        ≡ verdict kind source at parked (last? snapshot) (some snapshot)
  unfolding verdict
  unlisted at parked =
      snoc_induction
        (λ snapshot.
          wants_listing kind source (last? snapshot) ≡ false
          → verdict kind source at parked (last? snapshot) none
            ≡ verdict kind source at parked (last? snapshot) (some snapshot))
        (λ h. unfold frontier_owes_turn frontier_block in refl)
        (λ rows b ih h.
          let w : wants_listing kind source (some b) ≡ false = rw last?-snoc at h in
          rw (
            last?-snoc rows b,
            owes-opaque rows b at w,
            frontier-opaque rows b (unfold wants_listing in ground arith),
          ))

  -- The drive reads the ledger again only where the tail is transparent or awaits the model. Where
  -- it does not, it concludes what it would have concluded from the ledger.
  verdict-listing :
      (at : ℕ) (parked : Bool) (snapshot : List Block)
      → verdict kind source at parked
          (last? snapshot)
          (if wants_listing kind source (last? snapshot) then some snapshot else none)
        ≡ verdict kind source at parked (last? snapshot) (some snapshot)
  verdict-listing at parked snapshot =
      elim (Bool-cases (wants_listing kind source (last? snapshot))) [
        | inl wanted ↦ rw wanted
        | inr skipped ↦ rw skipped (unlisted at parked snapshot skipped)
      ]

  verdict-owes :
      (at : ℕ) (parked : Bool) (last : Option Block) (listing : Option (List Block))
      → (verdict kind source at parked last listing).owes_turn ≡ true
      → (blocks : List Block) × (listing ≡ some blocks)
        × (parked ≡ false)
        × ((verdict kind source at parked last listing).awaiting ≡ some Awaiting.model)
        × (system_owed_call_from blocks (resume_at blocks at) ≡ false)
  unfolding verdict frontier_owes_turn
  verdict-owes at parked last none h = ground arith
  verdict-owes at parked last (some blocks) h = (
    blocks,
    refl,
    ground arith,
    speaks (frontier_block kind blocks) (and-left (not parked) _ _ h),
    ground arith,
  )
    where
      speaks :
          (f : Option Block)
          → ◌≡◌ {A = Bool} (elim f [ none ↦ false | some block ↦ awaits_model kind block ]) true
          → bind f (λ block. awaiting (from_block block)) ≡ some Awaiting.model
      speaks none e = cc
      speaks (some block) e = is_model-eq (awaiting (from_block block)) (unfold awaits_model in e)

  -- A drive that owes a turn did not park, its frontier awaits the model, and no tool call from the
  -- resume point on waits for the system in the ledger that it read last.
  pub drive_ledger-owes_turn :
      {s : S} {o : Outcome} {s' : S}
      → drive_ledger kind source s ≡ (ok (ran o), s')
      → o.owes_turn ≡ true
      → (o.parked ≡ false)
        × (o.awaiting ≡ some Awaiting.model)
        × ((d : Drove kind source s o s') × (blocks : List Block) × (d.listing ≡ some blocks)
            × (system_owed_call_from blocks (resume_at blocks o.cursor) ≡ false))
  unfolding verdict
  drive_ledger-owes_turn {s} {o} {s'} h owes =
      let d = drive_ledger-Drove kind source h in
      let (blocks, listed, running, asks, clear) =
        verdict-owes d.at d.parked d.last d.listing
          (subst (λ v. v.owes_turn ≡ true) d.concluded owes) in
      (
        ap (λ v. v.parked) d.concluded ∙ running,
        ap (λ v. v.awaiting) d.concluded ∙ asks,
        (
          d,
          blocks,
          listed,
          subst (λ c. system_owed_call_from blocks (resume_at blocks c) ≡ false)
              (sym (ap (λ v. v.cursor) d.concluded)) clear,
        ),
      )
