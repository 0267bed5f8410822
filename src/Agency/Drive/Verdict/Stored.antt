-- ===== src/Agency/Drive/Verdict/Stored.antt =====
-- The cursor that a drive reports is the one that the store holds.
use ronna_core.Prelude.{
  ℕ, ◌≡◌, refl, sym, ap, ◌∙◌, subst, Bool, true, false, not, ◌&&◌, Option, some, List, [], ◌∷◌,
  ◌==◌, arith, Bool-cases, inl, inr, drop,
}
use ronna_core.Block.{Block}
use ronna_core.Store.{Result, ok, err, M, after, LedgerSource}
use ronna_core.Agency.Interface.{RuntimeKind}
use ronna_core.Agency.Frontier.{resume_at}
use ronna_core.Agency.Drive.{
  Outcome, ran, confirm, drive_blocks, drive_ledger, list_for, wants_listing, verdict,
}
use ronna_core.Agency.Drive.Cursor.{after-ok, drive_ledger-Drove}

-- A source over a state that holds a cursor: the read returns it, a write that succeeds replaces
-- it, and no other call changes it.
pub record Keeps {K S : Type 0} (kind : RuntimeKind K S) (source : LedgerSource S)
    (stored : S → Option ℕ) : Type 0 where
  pub lists : (s : S) → stored (source.list s).1 ≡ stored s
  pub tails : (s : S) → stored (source.tail s).1 ≡ stored s
  pub reads : (s : S) (c : Option ℕ) (s' : S) → source.cursor s ≡ (ok c, s') → stored s' ≡ c
  pub writes : (id : ℕ) (s s' : S) → source.persist_cursor id s ≡ (ok tt, s') → stored s' ≡ some id
  pub runs : (k : K) (s : S) → stored (kind.run k s).1 ≡ stored s

module _ {K S : Type 0} (kind : RuntimeKind K S) (source : LedgerSource S) (stored : S → Option ℕ)
    (keeps : Keeps kind source stored) where
  open kind use {from_block, durable, run}
  open source use {list, tail, persist_cursor}

  abbrev Holds : (ℕ → M S (ℕ × Bool)) → Type 0
  Holds next =
      (c : ℕ) (s : S) (at : ℕ) (parked : Bool) (s' : S)
      → stored s ≡ some c
      → next c s ≡ (ok (at, parked), s')
      → stored s' ≡ some at

  stopped :
      (start at : ℕ) (parked : Bool) (s s' : S)
      → stored s ≡ some start
      → ◌≡◌ {A = Result (ℕ × Bool) × S} (ok (start, true), s) (ok (at, parked), s')
      → stored s' ≡ some at
  stopped start at parked s s' held h =
      let e : start ≡ at = cc in
      let t : s ≡ s' = cc in subst (λ u. stored u ≡ some at) t (held ∙ ap some e)

  persisted :
      (b : Block) (next : ℕ → M S (ℕ × Bool)) (s : S)
      → Holds next
      → (at : ℕ) (parked : Bool) (s' : S)
      → after (λ _. next b.id) (persist_cursor b.id s) ≡ (ok (at, parked), s')
      → stored s' ≡ some at
  persisted b next s ih at parked s' h =
      let (done, s1, wrote, rest) = after-ok (λ _. next b.id) (persist_cursor b.id s) h in
      ih b.id s1 at parked s' (keeps.writes b.id s s1 (unit done s1 wrote)) rest
    where
      unit :
          (u : Unit {0}) (s1 : S)
          → persist_cursor b.id s ≡ (ok u, s1)
          → persist_cursor b.id s ≡ (ok tt, s1)
      unit tt s1 e = e

  confirm-stored :
      (b : Block) (start : ℕ) (next : ℕ → M S (ℕ × Bool)) (r : Result Bool × S)
      → Holds next
      → (at : ℕ) (parked : Bool) (s' : S) → stored r.1 ≡ some start
      → confirm kind source b start next r ≡ (ok (at, parked), s')
      → stored s' ≡ some at
  unfolding confirm
  confirm-stored b start next (ok true, s) ih at parked s' held h =
      elim (Bool-cases (durable (from_block b) && not (start == b.id))) [
        | inl moves ↦ persisted b next s ih at parked s' (rw moves at h)
        | inr stays ↦ ih start s at parked s' held (rw stays at h)
      ]
  confirm-stored b start next (ok false, s) ih at parked s' held h =
      stopped start at parked s s' held h
  confirm-stored b start next (err e, s) ih at parked s' held h =
      stopped start at parked s s' held h

  drive_blocks-stored : (rows : List Block) → Holds (drive_blocks kind source rows)
  unfolding drive_blocks
  drive_blocks-stored [] c s at parked s' held h =
      let e : c ≡ at = cc in
      let t : s ≡ s' = cc in subst (λ u. stored u ≡ some at) t (held ∙ ap some e)
  drive_blocks-stored (b ∷ rows) c s at parked s' held h =
      confirm-stored b c (λ c'. drive_blocks kind source rows c') (run (from_block b) s)
        (drive_blocks-stored rows) at parked s' (keeps.runs (from_block b) s ∙ held) h

  list_for-stored :
      (last : Option Block) (s : S) (listing : Option (List Block)) (s' : S)
      → list_for kind source last s ≡ (ok listing, s')
      → stored s' ≡ stored s
  unfolding list_for
  list_for-stored last s listing s' h = elim (Bool-cases (wants_listing kind source last)) [
    | inl wanted ↦
        let (blocks, s1, listed, rest) = after-ok _ (list s) (rw wanted at h) in
        let t : s1 ≡ s' = cc in
        subst (λ u. stored u ≡ stored s) t (ap (λ r. stored r.1) (sym listed) ∙ keeps.lists s)
    | inr skipped ↦
        let e = rw skipped at h in
        let t : s ≡ s' = ground arith in subst (λ u. stored u ≡ stored s) t refl
  ]

  -- After a drive that ran, over a source that keeps its cursor, the store holds the cursor that
  -- the outcome reports.
  pub drive_ledger-stored :
      (s : S) (o : Outcome) (s' : S)
      → drive_ledger kind source s ≡ (ok (ran o), s')
      → stored s' ≡ some o.cursor
  unfolding verdict
  drive_ledger-stored s o s' h =
      let d = drive_ledger-Drove kind source h in
      let held =
        drive_blocks-stored (drop (resume_at d.ledger d.start) d.ledger) d.start d.s_read d.at
          d.parked d.s_driven (keeps.reads d.s_listed (some d.start) d.s_read d.read) d.driven in
      list_for-stored d.last d.s_tail d.listing s' d.relisted
      ∙ (ap (λ r. stored r.1) (sym d.tailed) ∙ keeps.tails d.s_driven)
      ∙ held
      ∙ ap (λ v. some v.cursor) (sym d.concluded)
