-- ===== src/Agency/Drive/Cursor.antt =====
-- What a drive does to the cursor.
use ronna_core.Prelude.{
  ℕ, ◌≡◌, refl, sym, ap, Bool, true, false, not, ◌&&◌, Option, none, some, List, [], ◌∷◌, ◌++◌,
  ◌==◌, if◌then◌else◌, drop, scan, arith, Bool-cases, inl, inr, subst, ◌≢◌, ◌⊎◌, ◌∙◌,
}
use ronna_core.Block.{Block}
use ronna_core.Store.{StoreError, Result, ok, err, M, after, LedgerSource}
use ronna_core.Agency.Interface.{RuntimeKind}
use ronna_core.Agency.Frontier.{resume_at}
use ronna_core.Agency.Drive.{
  Outcome, ran, confirm, drive_blocks, drive_from, drive_present, drive_ledger, list_for, verdict,
}

-- Inversion of a call that returned.
pub after-ok :
    {S A B : Type 0} (f : A → M S B) (r : Result A × S) {b : B} {s' : S}
    → after f r ≡ (ok b, s')
    → (a : A) × (s : S) × (r ≡ (ok a, s)) × (f a s ≡ (ok b, s'))
after-ok f (ok a, s) h = (a, s, refl, h)
after-ok f (err e, s) h = cc

pub has_rows : List Block → Bool
has_rows [] = false
has_rows (b ∷ rows) = true

module _ {K S : Type 0} (kind : RuntimeKind K S) (source : LedgerSource S) where
  open kind use {from_block, durable, run}
  open source use {list, tail, cursor, persist_cursor}

  -- The cursor after a confirmed row: a durable row takes it, an ephemeral one leaves it.
  pub confirm_row : Block → ℕ → ℕ
  confirm_row block at = if durable (from_block block) then block.id else at

  moves : Block → ℕ → Bool
  moves block at = durable (from_block block) && not (at == block.id)

  -- The stored cursor follows a confirmed row that moves it.
  pub Follows : Block → ℕ → S → S → Type 0
  Follows block at s s' =
      ((moves block at ≡ true) × (persist_cursor block.id s ≡ (ok tt, s')))
      ⊎ ((moves block at ≡ false) × (s ≡ s'))

  -- The work of every row was done, in order, and the stored cursor followed each.
  pub Worked : List Block → ℕ → S → S → Type 0
  Worked [] at s s' = s ≡ s'
  Worked (block ∷ rows) at s s' =
      (s1 : S) × (s2 : S) × (run (from_block block) s ≡ (ok true, s1))
      × Follows block at s1 s2
      × Worked rows (confirm_row block at) s2 s'

  -- The work of the first row was not done, or failed; or there is no row.
  pub Halted : List Block → S → S → Type 0
  Halted [] s s' = s ≡ s'
  Halted (block ∷ rows) s s' =
      (answer : Result Bool) × (run (from_block block) s ≡ (answer, s')) × (answer ≢ ok true)

  -- How a loop over the rows ends: it confirms a first part of them, whose work was done, and halts
  -- at the row after it, whose work was not; it parked exactly if there is such a row.
  pub record Confirms (rows : List Block) (start : ℕ) (s : S) (at : ℕ) (parked : Bool) (s' : S)
      : Type 0 where
    pub confirmed : List Block
    pub left : List Block
    pub splits : rows ≡ confirmed ++ left
    pub s_confirmed : S
    pub worked : Worked confirmed start s s_confirmed
    pub halted : Halted left s_confirmed s'
    pub cursor_at : at ≡ scan confirm_row start confirmed
    pub stopped : parked ≡ has_rows left

  Halts :
      (b : Block) (rows : List Block) (start at : ℕ) (parked : Bool) (s s1 s' : S)
      (answer : Result Bool)
      → run (from_block b) s ≡ (answer, s1)
      → answer ≢ ok true
      → ◌≡◌ {A = Result (ℕ × Bool) × S} (ok (start, true), s1) (ok (at, parked), s')
      → Confirms (b ∷ rows) start s at parked s'
  unfolding Worked Halted scan has_rows
  Halts b rows start at parked s s1 s' answer called undone h = record {
    confirmed = [];
    left = b ∷ rows;
    splits = refl;
    s_confirmed = s;
    worked = refl;
    halted = (answer, called ∙ ap (λ t. (answer, t)) (let e : s1 ≡ s' = cc in e), undone);
    cursor_at = cc;
    stopped = cc;
  }

  Confirms-cons :
      (b : Block) (rows : List Block) (start at : ℕ) (parked : Bool) (s s1 s2 s' : S)
      → run (from_block b) s ≡ (ok true, s1)
      → Follows b start s1 s2
      → Confirms rows (confirm_row b start) s2 at parked s'
      → Confirms (b ∷ rows) start s at parked s'
  unfolding scan Worked
  Confirms-cons b rows start at parked s s1 s2 s' done follows c = record {
    confirmed = b ∷ c.confirmed;
    left = c.left;
    splits = ap (λ l. b ∷ l) c.splits;
    s_confirmed = c.s_confirmed;
    worked = (s1, s2, done, follows, c.worked);
    halted = c.halted;
    cursor_at = c.cursor_at;
    stopped = c.stopped;
  }

  row-moves : (b : Block) (start : ℕ) → moves b start ≡ true → b.id ≡ confirm_row b start
  unfolding confirm_row moves
  row-moves b start h = ground arith

  row-stays : (b : Block) (start : ℕ) → moves b start ≡ false → start ≡ confirm_row b start
  unfolding confirm_row moves
  row-stays b start h = ground arith

  -- What a loop's rest does, for each cursor that it starts from.
  abbrev Rest : List Block → (ℕ → M S (ℕ × Bool)) → Type 0
  Rest rows next =
      (c : ℕ) (s : S) (at : ℕ) (parked : Bool) (s' : S)
      → next c s ≡ (ok (at, parked), s')
      → Confirms rows c s at parked s'

  not_done : ok false ≢ ok true
  not_done e = cc

  not_failed : {e : StoreError} → ◌≢◌ {A = Result Bool} (err e) (ok true)
  not_failed e = cc

  confirm-Confirms :
      (b : Block) (rows : List Block) (start : ℕ) (next : ℕ → M S (ℕ × Bool)) (s : S)
      (r : Result Bool × S)
      → run (from_block b) s ≡ r
      → Rest rows next
      → (at : ℕ) (parked : Bool) (s' : S)
      → confirm kind source b start next r ≡ (ok (at, parked), s')
      → Confirms (b ∷ rows) start s at parked s'
  unfolding confirm Follows moves
  confirm-Confirms b rows start next s (ok true, s1) done ih at parked s' h =
      elim (Bool-cases (durable (from_block b) && not (start == b.id))) [
        | inl on ↦
            let (_, s2, stored, rest) =
              after-ok (λ _. next b.id) (persist_cursor b.id s1) (rw on at h) in
            Confirms-cons b rows start at parked s s1 s2 s' done (inl (on, stored)) (
              subst (λ c. Confirms rows c s2 at parked s') (row-moves b start on)
                (ih b.id s2 at parked s' rest))
        | inr stays ↦ Confirms-cons b rows start at parked s s1 s1 s' done (inr (stays, refl)) (
            subst (λ c. Confirms rows c s1 at parked s') (row-stays b start stays)
              (ih start s1 at parked s' (rw stays at h)))
      ]
  confirm-Confirms b rows start next s (ok false, s1) undone ih at parked s' h =
      Halts b rows start at parked s s1 s' (ok false) undone not_done h
  confirm-Confirms b rows start next s (err e, s1) failed ih at parked s' h =
      Halts b rows start at parked s s1 s' (err e) failed not_failed h

  pub drive_blocks-Confirms : (rows : List Block) → Rest rows (drive_blocks kind source rows)
  unfolding drive_blocks scan has_rows Worked Halted
  drive_blocks-Confirms [] c s at parked s' h = record {
    confirmed = [];
    left = [];
    splits = refl;
    s_confirmed = s;
    worked = refl;
    halted = cc;
    cursor_at = cc;
    stopped = cc;
  }
  drive_blocks-Confirms (b ∷ rows) c s at parked s' h =
      confirm-Confirms b rows c (λ c'. drive_blocks kind source rows c') s (run (from_block b) s)
        refl (drive_blocks-Confirms rows) at parked s' h

  -- The calls of a drive that ran: what it listed and read, and what its parts returned.
  pub record Drove (s : S) (o : Outcome) (s' : S) : Type 0 where
    pub ledger : List Block
    pub s_listed : S
    pub listed : list s ≡ (ok ledger, s_listed)
    pub start : ℕ
    pub s_read : S
    pub read : cursor s_listed ≡ (ok (some start), s_read)
    pub at : ℕ
    pub parked : Bool
    pub s_driven : S
    pub driven :
        drive_blocks kind source (drop (resume_at ledger start) ledger) start s_read
        ≡ (ok (at, parked), s_driven)
    pub last : Option Block
    pub s_tail : S
    pub tailed : tail s_driven ≡ (ok last, s_tail)
    pub listing : Option (List Block)
    pub relisted : list_for kind source last s_tail ≡ (ok listing, s')
    pub concluded : o ≡ verdict kind source at parked last listing

  pub drive_ledger-Drove :
      {s : S} {o : Outcome} {s' : S} → drive_ledger kind source s ≡ (ok (ran o), s') → Drove s o s'
  unfolding drive_ledger drive_from
  drive_ledger-Drove {s} {o} {s'} h =
      let (ledger, s1, listed, h1) = after-ok _ (list s) h in
      let (start, s2, read, h2) = after-ok _ (cursor s1) h1 in
      present ledger s1 listed start s2 read h2
    where
      present :
          (ledger : List Block) (s1 : S)
          → list s ≡ (ok ledger, s1)
          → (start : Option ℕ) (s2 : S) → cursor s1 ≡ (ok start, s2)
          → drive_present kind source ledger start s2 ≡ (ok (ran o), s')
          → Drove s o s'
      present ledger s1 listed none s2 read h2 = cc
      present ledger s1 listed (some start) s2 read h2 =
          let ((at, parked), s3, driven, h3) =
            after-ok _ (drive_blocks kind source (drop (resume_at ledger start) ledger) start s2)
              h2 in
          let (last, s4, tailed, h4) = after-ok _ (tail s3) h3 in
          let (listing, s5, relisted, h5) = after-ok _ (list_for kind source last s4) h4 in
          let same : s5 ≡ s' = cc in
          record {
            ledger = ledger;
            s_listed = s1;
            listed = listed;
            start = start;
            s_read = s2;
            read = read;
            at = at;
            parked = parked;
            s_driven = s3;
            driven = driven;
            last = last;
            s_tail = s4;
            tailed = tailed;
            listing = listing;
            relisted = subst (λ t. list_for kind source last s4 ≡ (ok listing, t)) same relisted;
            concluded = cc;
          }

  -- A drive that ran confirmed a first part of the rows from the resume point on: the work of each
  -- of these rows was done, in order, and after each durable one that is not at the cursor the store
  -- took its id. The work of the row after that part, if there is one, was not done or failed, and
  -- the drive parked exactly if there is one. The drive's cursor is the id of the last durable row
  -- of the part, or the cursor that it started from if the part holds no durable row.
  pub drive_ledger-Confirms :
      {s : S} {o : Outcome} {s' : S}
      → drive_ledger kind source s ≡ (ok (ran o), s')
      → (d : Drove s o s') × Confirms
          (drop (resume_at d.ledger d.start) d.ledger)
          d.start
          d.s_read
          o.cursor
          o.parked
          d.s_driven
  drive_ledger-Confirms {s} {o} {s'} h =
      let d = drive_ledger-Drove h in
      let rows = drop (resume_at d.ledger d.start) d.ledger in
      (
        d,
        subst (λ v. Confirms rows d.start d.s_read v.cursor v.parked d.s_driven) (sym d.concluded)
            (unfold verdict in
              drive_blocks-Confirms rows d.start d.s_read d.at d.parked d.s_driven d.driven),
      )
