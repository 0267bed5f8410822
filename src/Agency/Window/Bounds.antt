-- ===== src/Agency/Window/Bounds.antt =====
-- What the count of a trailing window is, and its bounds.
use ronna_core.Prelude.{
  ℕ, suc, ◌≤◌, ◌≡◌, refl, ap, ◌∙◌, Bool, true, false, not, ◌&&◌, Option, none, some, List, [], ◌∷◌,
  String, str_eq, rev, arith, get_or, filter, take_while, length, ltb, leb, if◌then◌else◌,
}
use ronna_core.Agency.Kinds.{BlockKind, from_block}
use ronna_core.Block.{Block}
use ronna_core.Agency.Window.{Clock, window_step, window_loop, calls_in_trailing_window}

-- What a row's kind and stamp say of it.
is_call : BlockKind → Bool
is_call (BlockKind.tool_call call) = true
is_call _ = false

calls_tool : Option String → BlockKind → Bool
calls_tool none (BlockKind.tool_call call) = true
calls_tool (some name) (BlockKind.tool_call call) = str_eq call.name name
calls_tool of_tool _ = false

before : ℕ → Option ℕ → Bool
before cutoff none = false
before cutoff (some at) = ltb at cutoff

not_before : ℕ → Option ℕ → Bool
not_before cutoff none = false
not_before cutoff (some at) = leb cutoff at

module _ (clock : Clock) where
  -- The instant before which a call is outside the window.
  pub cutoff_of : ℕ → Option ℕ
  cutoff_of seconds =
      clock.checked_sub_signed clock.now_instant
        (get_or (clock.try_seconds seconds) clock.zero_span)

  -- A call that is stamped before the cutoff.
  pub is_old_call : ℕ → Block → Bool
  is_old_call cutoff block =
      is_call (from_block block) && before cutoff (clock.parse_stamp block.created_at)

  -- A call of the tool, or of any tool, that is stamped at the cutoff or after it.
  pub is_counted : ℕ → Option String → Block → Bool
  is_counted cutoff of_tool block =
      calls_tool of_tool (from_block block)
      && not_before cutoff (clock.parse_stamp block.created_at)

  step_lem :
      (cutoff : ℕ) (of_tool : Option String) (b : Block) (rest : ℕ)
      → window_step clock cutoff of_tool b rest ≡ (
          if not (is_old_call cutoff b)
          then if is_counted cutoff of_tool b then suc rest else rest
          else 0)
  unfolding window_step is_old_call is_counted is_call calls_tool before not_before
  step_lem cutoff of_tool b rest = ground arith

  counted_one :
      (live counts : Bool) (p : Block → Bool) (b : Block) (rows : List Block)
      → p b ≡ counts
      → (if live
          then if counts then suc (length (filter p rows)) else length (filter p rows)
          else 0)
        ≡ length (filter p (if live then b ∷ rows else []))
  unfolding filter
  counted_one false counts p b rows e = refl
  counted_one true true p b rows e = rw e refl
  counted_one true false p b rows e = rw e refl

  loop_lem :
      (cutoff : ℕ) (of_tool : Option String) (rows : List Block)
      → window_loop clock cutoff of_tool rows
        ≡ length
            (filter (is_counted cutoff of_tool) (take_while (λ b. not (is_old_call cutoff b)) rows))
  unfolding window_loop take_while filter
  loop_lem cutoff of_tool [] = refl
  loop_lem cutoff of_tool (b ∷ rows) =
      step_lem cutoff of_tool b (window_loop clock cutoff of_tool rows)
      ∙ ap
          (λ n.
            if not (is_old_call cutoff b)
            then if is_counted cutoff of_tool b then suc n else n
            else 0)
          (loop_lem cutoff of_tool rows)
      ∙ counted_one (not (is_old_call cutoff b)) (is_counted cutoff of_tool b)
          (is_counted cutoff of_tool) b (take_while (λ b. not (is_old_call cutoff b)) rows) refl

  -- The count is that of the calls, of the tool if one is given, that are stamped at the cutoff or
  -- after it, among the newest rows of the ledger up to the first call, newest first, that is
  -- stamped before the cutoff. Rows that are no calls, and calls whose stamp cannot be read, neither
  -- count nor end the window. With no cutoff the count is 0.
  pub calls_in_trailing_window_lem :
      (ledger : List Block) (seconds : ℕ) (of_tool : Option String)
      → calls_in_trailing_window clock ledger seconds of_tool ≡ elim (cutoff_of seconds) [
        | none ↦ 0
        | some cutoff ↦ length (
            filter
              (is_counted cutoff of_tool)
              (take_while (λ b. not (is_old_call cutoff b)) (rev ledger)))
      ]
  unfolding calls_in_trailing_window cutoff_of
  calls_in_trailing_window_lem ledger seconds of_tool = by_cutoff (
      clock.checked_sub_signed clock.now_instant
        (get_or (clock.try_seconds seconds) clock.zero_span))
    where
      by_cutoff :
          (cutoff : Option ℕ)
          → ◌≡◌ {A = ℕ}
              (elim cutoff [ none ↦ 0 | some c ↦ window_loop clock c of_tool (rev ledger) ])
              (elim cutoff [
                | none ↦ 0
                | some c ↦ length (
                    filter
                      (is_counted c of_tool)
                      (take_while (λ b. not (is_old_call c b)) (rev ledger)))
              ])
      by_cutoff none = refl
      by_cutoff (some c) = loop_lem c of_tool (rev ledger)

  step_mono :
      (cutoff : ℕ) (name : String) (b : Block) (m n : ℕ)
      → m ≤ n
      → window_step clock cutoff (some name) b m ≤ window_step clock cutoff none b n
  unfolding window_step
  step_mono cutoff name b m n h = ground arith

  loop_le :
      (cutoff : ℕ) (name : String) (rows : List Block)
      → window_loop clock cutoff (some name) rows ≤ window_loop clock cutoff none rows
  unfolding window_loop
  loop_le cutoff name [] = omega arith
  loop_le cutoff name (b ∷ rows) =
      step_mono cutoff name b (window_loop clock cutoff (some name) rows)
        (window_loop clock cutoff none rows) (loop_le cutoff name rows)

  -- One tool's calls in a window are never more than all of them.
  calls_in_trailing_window_mono :
      (ledger : List Block) (seconds : ℕ) (name : String)
      → calls_in_trailing_window clock ledger seconds (some name)
        ≤ calls_in_trailing_window clock ledger seconds none
  unfolding calls_in_trailing_window
  calls_in_trailing_window_mono ledger seconds name = by_cutoff (
      clock.checked_sub_signed clock.now_instant
        (get_or (clock.try_seconds seconds) clock.zero_span))
    where
      by_cutoff :
          (cutoff : Option ℕ)
          → (elim cutoff [ none ↦ 0 | some c ↦ window_loop clock c (some name) (rev ledger) ])
            ≤ (elim cutoff [ none ↦ 0 | some c ↦ window_loop clock c none (rev ledger) ])
      by_cutoff none = omega arith
      by_cutoff (some c) = loop_le c name (rev ledger)
