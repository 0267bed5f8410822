-- ===== src/Agency/Frontier/Speaker.antt =====
-- Which row speaks for the frontier: what `frontier_block` answers, without its walk.
pub mod Unique
use ronna_core.Prelude.{
  ℕ, ◌≡◌, refl, sym, ◌∙◌, subst, Bool, true, false, ◌||◌, Option, none, some, List, [], ◌∷◌, ◌++◌,
  append_assoc, append-nil, contains, filter, filter_map, rev, rev-rev, last?, arith, Option-cases,
  Bool-cases, inl, inr, ◌⊎◌, ap,
}
use ronna_core.Block.{Block}
use ronna_core.Agency.Interface.{RuntimeKind}
use ronna_core.Agency.Frontier.{is_disowned, disown, frontier_loop, frontier_block}

contains-append :
    (xs ys : List ℕ) (n : ℕ) → contains (xs ++ ys) n ≡ (contains xs n || contains ys n)
unfolding contains
contains-append [] ys n = refl
contains-append (x ∷ xs) ys n = ground (arith, contains-append xs ys n)

module _ {K S : Type 0} (kind : RuntimeKind K S) where
  open kind use {from_block, frontier_transparent}

  -- A row that stores a turn's end, or is neither an ask nor an answer.
  abbrev pub is_transparent : Block → Bool
  is_transparent block = frontier_transparent (from_block block)

  -- The turns that the transparent rows close.
  pub closed_turns : List Block → List ℕ
  closed_turns rows = filter_map (λ block. block.dispatch_anchor) (filter is_transparent rows)

  -- The frontier reads through a row before `newer`: it is transparent, or of a turn that a
  -- transparent row of `newer` closes.
  abbrev pub IsPassed : List Block → Block → Type 0
  IsPassed newer block =
      (is_transparent block ≡ true)
      ⊎ (is_disowned (closed_turns newer) block.dispatch_anchor ≡ true)

  -- Every row is read through, each on account of the rows after it.
  pub AllPassed : List Block → Type 0
  AllPassed [] = Unit
  AllPassed (block ∷ newer) = IsPassed newer block × AllPassed newer

  -- The newest row that is not read through, with the rows after it.
  pub record IsNewest (snapshot : List Block) (block : Block) (newer : List Block) : Type 0 where
    pub older : List Block
    pub splits : snapshot ≡ older ++ (block ∷ newer)
    pub opaque : is_transparent block ≡ false
    pub live : is_disowned (closed_turns newer) block.dispatch_anchor ≡ false
    pub passed : AllPassed newer

  -- Who speaks: the newest row that is not read through, unless a row after it closes the turn that
  -- this row summoned; then, and where every row is read through, the tail.
  pub data Speaks (snapshot : List Block) (tail answer : Block) : Type 0 where
    speaker :
        (newer : List Block)
        → IsNewest snapshot answer newer
        → contains (closed_turns newer) answer.id ≡ false
        → Speaks snapshot tail answer
    answered :
        (summoner : Block) (newer : List Block)
        → IsNewest snapshot summoner newer
        → contains (closed_turns newer) summoner.id ≡ true
        → answer ≡ tail
        → Speaks snapshot tail answer
    nobody : AllPassed snapshot → answer ≡ tail → Speaks snapshot tail answer

  -- The walk's set is the set of the closed turns.
  abbrev pub Tracks : List ℕ → List Block → Type 0
  Tracks disowned newer = (n : ℕ) → contains disowned n ≡ contains (closed_turns newer) n

  pub Tracks-is_disowned :
      (disowned : List ℕ) (newer : List Block)
      → Tracks disowned newer
      → (anchor : Option ℕ) → is_disowned disowned anchor ≡ is_disowned (closed_turns newer) anchor
  unfolding is_disowned
  Tracks-is_disowned disowned newer h none = refl
  Tracks-is_disowned disowned newer h (some anchor) = h anchor

  pub closed-opaque :
      (b : Block) (newer : List Block)
      → is_transparent b ≡ false
      → closed_turns (b ∷ newer) ≡ closed_turns newer
  unfolding closed_turns filter
  closed-opaque b newer h = rw h

  add_anchor : Option ℕ → List ℕ → List ℕ
  add_anchor none ns = ns
  add_anchor (some n) ns = n ∷ ns

  filter_map-anchor :
      (b : Block) (rows : List Block)
      → filter_map (λ block. block.dispatch_anchor) (b ∷ rows)
        ≡ add_anchor b.dispatch_anchor (filter_map (λ block. block.dispatch_anchor) rows)
  unfolding filter_map add_anchor
  filter_map-anchor b rows = ground arith

  closed-transparent :
      (b : Block) (newer : List Block)
      → is_transparent b ≡ true
      → closed_turns (b ∷ newer) ≡ add_anchor b.dispatch_anchor (closed_turns newer)
  unfolding closed_turns filter
  closed-transparent b newer h = rw h (filter_map-anchor b (filter is_transparent newer))

  contains-disown :
      (anchor : Option ℕ) (disowned turns : List ℕ)
      → ((n : ℕ) → contains disowned n ≡ contains turns n)
      → (n : ℕ) → contains (disown anchor disowned) n ≡ contains (add_anchor anchor turns) n
  unfolding disown add_anchor contains
  contains-disown none disowned turns h n = h n
  contains-disown (some a) disowned turns h n =
      ground (arith, h n, h a, contains-append disowned (a ∷ []) n)

  pub Tracks-transparent :
      (b : Block) (disowned : List ℕ) (newer : List Block)
      → is_transparent b ≡ true
      → Tracks disowned newer
      → Tracks (disown b.dispatch_anchor disowned) (b ∷ newer)
  Tracks-transparent b disowned newer through h n =
      rw (closed-transparent b newer through)
        (contains-disown b.dispatch_anchor disowned (closed_turns newer) h n)

  pub closed-nil : Tracks [] []
  unfolding closed_turns filter filter_map
  closed-nil n = refl

  loop-Speaks :
      (tail : Block) (rows newer : List Block) (disowned : List ℕ)
      → Tracks disowned newer
      → AllPassed newer
      → Speaks (rev rows ++ newer) tail (frontier_loop kind tail disowned rows)
  unfolding frontier_loop rev AllPassed
  loop-Speaks tail [] newer disowned h passed = nobody passed refl
  loop-Speaks tail (b ∷ rows) newer disowned h passed =
      rw (append_assoc (rev rows) (b ∷ []) newer) (elim (Bool-cases (is_transparent b)) [
        | inl through ↦ rw through (
            loop-Speaks tail rows (b ∷ newer) (disown b.dispatch_anchor disowned)
              (Tracks-transparent b disowned newer through h) (inl through, passed))
        | inr opaque ↦ rw opaque (elim (Bool-cases (is_disowned disowned b.dispatch_anchor)) [
          | inl closed ↦ rw closed (
              loop-Speaks tail rows (b ∷ newer) disowned
                (λ n. h n ∙ sym (ap (λ ns. contains ns n) (closed-opaque b newer opaque)))
                (
                  inr (sym (Tracks-is_disowned disowned newer h b.dispatch_anchor) ∙ closed),
                  passed,
                ))
          | inr live ↦ rw live (
              let newest : IsNewest (rev rows ++ (b ∷ newer)) b newer = record {
                older = rev rows;
                splits = refl;
                opaque = opaque;
                live = sym (Tracks-is_disowned disowned newer h b.dispatch_anchor) ∙ live;
                passed = passed;
              } in
              elim (Bool-cases (contains disowned b.id)) [
                | inl done ↦ rw done (answered b newer newest (sym (h b.id) ∙ done) refl)
                | inr owed ↦ rw owed (speaker newer newest (sym (h b.id) ∙ owed))
              ])
        ])
      ])

  -- The row that the frontier reads is the one that speaks: the newest row that is neither
  -- transparent nor of a turn which a transparent row after it closes (each row is judged by the rows
  -- after that row alone), unless a transparent row
  -- after it closes the turn that this row summoned; in that case, and where every row is read
  -- through, the tail.
  pub frontier_block-Speaks :
      (snapshot : List Block) {answer : Block}
      → frontier_block kind snapshot ≡ some answer
      → (tail : Block) × (last? snapshot ≡ some tail) × Speaks snapshot tail answer
  unfolding frontier_block AllPassed
  frontier_block-Speaks snapshot {answer} h = elim (Option-cases (last? snapshot)) [
    | inl empty ↦ absurd (let e = rw empty at h in cc)
    | inr (tail, at_end) ↦
        let e : frontier_loop kind tail [] (rev snapshot) ≡ answer = ground arith in
        let all_rows : rev (rev snapshot) ++ [] ≡ snapshot =
          append-nil (rev (rev snapshot)) ∙ rev-rev snapshot in
        (
          tail,
          at_end,
          subst (Speaks snapshot tail) e (
              subst (λ rows. Speaks rows tail (frontier_loop kind tail [] (rev snapshot))) all_rows
                (loop-Speaks tail (rev snapshot) [] [] closed-nil tt)),
        )
  ]
