-- ===== src/Agency/Frontier/Speaker/Unique.antt =====
-- The row that speaks for the frontier is determined by its description.
use ronna_core.Prelude.{
  ℕ, ◌≡◌, refl, sym, ◌∙◌, true, false, List, [], ◌∷◌, ◌++◌, append_assoc, append-nil, contains, rev,
  Bool-cases, inl, inr, ap, rev-append, if◌then◌else◌,
}
use ronna_core.Block.{Block}
use ronna_core.Agency.Interface.{RuntimeKind}
use ronna_core.Agency.Frontier.{is_disowned, disown, frontier_loop}
use ronna_core.Agency.Frontier.Speaker.{
  is_transparent, closed_turns, IsPassed, AllPassed, IsNewest, Speaks, speaker, answered, nobody,
  Tracks, Tracks-is_disowned, closed-opaque, Tracks-transparent, closed-nil,
}

rev-around :
    {A : Type 0} (older : List A) (x : A) (newer : List A)
    → rev (older ++ (x ∷ newer)) ≡ rev newer ++ (x ∷ rev older)
unfolding rev
rev-around older x newer =
    rev-append older (x ∷ newer) ∙ append_assoc (rev newer) (x ∷ []) (rev older)

module _ {K S : Type 0} (kind : RuntimeKind K S) where
  passed-opaque :
      (newer : List Block) (b : Block)
      → IsPassed kind newer b
      → is_transparent kind b ≡ false
      → is_disowned (closed_turns kind newer) b.dispatch_anchor ≡ true
  passed-opaque newer b (inl through) opaque = cc
  passed-opaque newer b (inr closed) opaque = closed

  -- The walk goes over rows that are read through.
  loop-AllPassed :
      (tail : Block) (newer rows : List Block)
      → AllPassed kind newer
      → (disowned : List ℕ) × Tracks kind disowned newer
        × (frontier_loop kind tail [] (rev newer ++ rows) ≡ frontier_loop kind tail disowned rows)
  unfolding AllPassed rev frontier_loop
  loop-AllPassed tail [] rows passed = ([], closed-nil kind, refl)
  loop-AllPassed tail (b ∷ newer) rows (here, passed) =
      let (disowned, tracks, walked) = loop-AllPassed tail newer (b ∷ rows) passed in
      let onto : frontier_loop kind tail [] (rev (b ∷ newer) ++ rows)
          ≡ frontier_loop kind tail disowned (b ∷ rows) =
        ap (frontier_loop kind tail []) (append_assoc (rev newer) (b ∷ []) rows) ∙ walked in
      elim (Bool-cases (is_transparent kind b)) [
        | inl through ↦ (
          disown b.dispatch_anchor disowned,
          Tracks-transparent kind b disowned newer through tracks,
          onto ∙ rw through refl,
        )
        | inr opaque ↦ (
          disowned,
          λ n. tracks n ∙ sym (ap (λ ns. contains ns n) (closed-opaque kind b newer opaque)),
          onto
              ∙ rw opaque (
                  rw
                    (Tracks-is_disowned kind disowned newer tracks b.dispatch_anchor
                      ∙ passed-opaque newer b here opaque)
                    refl),
        )
      ]

  -- The walk stops at the newest row that is not read through.
  loop-IsNewest :
      (tail : Block) (snapshot : List Block) (b : Block) (newer : List Block)
      → IsNewest kind snapshot b newer
      → frontier_loop kind tail [] (rev snapshot)
        ≡ (if contains (closed_turns kind newer) b.id then tail else b)
  unfolding frontier_loop
  loop-IsNewest tail snapshot b newer newest =
      let (disowned, tracks, walked) =
        loop-AllPassed tail newer (b ∷ rev newest.older) newest.passed in
      ap (λ rows. frontier_loop kind tail [] (rev rows)) newest.splits
      ∙ ap (frontier_loop kind tail []) (rev-around newest.older b newer)
      ∙ walked
      ∙ rw newest.opaque (
          rw (Tracks-is_disowned kind disowned newer tracks b.dispatch_anchor ∙ newest.live)
            (rw (tracks b.id) refl))

  -- The description determines the row: the one that speaks is the one that the frontier reads.
  Speaks-frontier_loop :
      (snapshot : List Block) (tail answer : Block)
      → Speaks kind snapshot tail answer
      → frontier_loop kind tail [] (rev snapshot) ≡ answer
  unfolding frontier_loop
  Speaks-frontier_loop snapshot tail answer (speaker newer newest owed) =
      loop-IsNewest tail snapshot answer newer newest ∙ rw owed refl
  Speaks-frontier_loop snapshot tail answer (answered summoner newer newest done at_tail) =
      loop-IsNewest tail snapshot summoner newer newest ∙ rw done (sym at_tail)
  Speaks-frontier_loop snapshot tail answer (nobody passed at_tail) =
      let (disowned, tracks, walked) = loop-AllPassed tail snapshot [] passed in
      ap (frontier_loop kind tail []) (sym (append-nil (rev snapshot))) ∙ walked ∙ sym at_tail

  -- Two rows that speak for one ledger are the same row.
  Speaks-unique :
      (snapshot : List Block) (tail answer other : Block)
      → Speaks kind snapshot tail answer
      → Speaks kind snapshot tail other
      → answer ≡ other
  Speaks-unique snapshot tail answer other speaks speaks' =
      sym (Speaks-frontier_loop snapshot tail answer speaks)
      ∙ Speaks-frontier_loop snapshot tail other speaks'
