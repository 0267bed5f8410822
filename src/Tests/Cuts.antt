-- ===== src/Tests/Cuts.antt =====
-- The cut of a ledger whose call is answered past its middle.
use ronna_core.Prelude.{ℕ, false, some, List, [], ◌∷◌, ◌≡◌, ◌≤◌, ◌<◌, refl, any, length, arith}
use ronna_core.Block.{Block}
use ronna_core.Compaction.{straddles, answered_from, cut_extended_from, cut_at, ledger_cut}
use ronna_core.Compaction.Straddling.{cut_extended_from-settles}
use ronna_core.Tests.Evaluated.{evaluated}
use ronna_core.Tests.Session.{ask, call, answer, say}

abbrev long : List Block
long = ask 11 ∷ call 12 ∷ ask 13 ∷ answer 14 12 ∷ say 15 ∷ ask 16 ∷ []

cut_past_answer :
    ledger_cut (ask 11 ∷ call 12 ∷ ask 13 ∷ answer 14 12 ∷ say 15 ∷ [])
    ≡ some (record { first_half_ends = 14; second_half_begins = 15 })
unfolding evaluated
cut_past_answer = refl

cut_extended_from-settles_example :
    (e : ℕ) × (1 ≤ e)
    × (e < length long)
    × (any (straddles e) (answered_from long 0 long) ≡ false)
    × (cut_extended_from long 1 ≡ cut_at long e)
cut_extended_from-settles_example = cut_extended_from-settles long 1 (omega arith)
