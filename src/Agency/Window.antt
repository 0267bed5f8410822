-- ===== src/Agency/Window.antt =====
-- How many calls a trailing window holds: `calls_in_trailing_window` of
-- crates/agent-ledger/src/agency/tool_call.rs. Instants are counted in the clock's smallest unit.
pub mod Bounds
use ronna_core.Prelude.{
  ℕ, suc, Bool, true, Option, none, some, List, [], ◌∷◌, String, str_eq, leb, if◌then◌else◌, get_or,
  rev,
}
use ronna_core.Block.{Block}
use ronna_core.Agency.Calls.{ToolCall}
use ronna_core.Agency.Kinds.{BlockKind, from_block}

-- What the code takes from chrono and the store's clock: the present instant, a span of so many
-- seconds, the subtraction of a span, and the reading of a stored stamp.
pub record Clock : Type 1 where
  pub Span : Type 0
  pub now_instant : ℕ
  pub zero_span : Span
  pub try_seconds : ℕ → Option Span
  pub checked_sub_signed : ℕ → Span → Option ℕ
  pub parse_stamp : String → Option ℕ

is_wanted : Option String → String → Bool
is_wanted none name = true
is_wanted (some wanted) name = str_eq name wanted

module _ (clock : Clock) where
  open clock use {Span, now_instant, zero_span, try_seconds, checked_sub_signed, parse_stamp}

  count_call : ℕ → Option String → ToolCall → ℕ → Option ℕ → ℕ
  unfolding is_wanted
  count_call cutoff of_tool call rest (some at) =
      if leb cutoff at then (if is_wanted of_tool call.name then suc rest else rest) else 0
  count_call cutoff of_tool call rest none = rest

  window_kind : ℕ → Option String → Option ℕ → ℕ → BlockKind → ℕ
  unfolding count_call
  window_kind cutoff of_tool stamp rest (BlockKind.tool_call call) =
      count_call cutoff of_tool call rest stamp
  window_kind cutoff of_tool stamp rest _ = rest

  -- The loop's body, given what the rest of the loop counts: a call inside the window is counted,
  -- one before it stops the loop, and any other row is passed over.
  unfoldable pub window_step : ℕ → Option String → Block → ℕ → ℕ
  unfolding window_kind
  window_step cutoff of_tool block rest =
      window_kind cutoff of_tool (parse_stamp block.created_at) rest (from_block block)

  -- The loop over the rows, newest first.
  unfoldable pub window_loop : ℕ → Option String → List Block → ℕ
  window_loop cutoff of_tool [] = 0
  window_loop cutoff of_tool (block ∷ older) =
      window_step cutoff of_tool block (window_loop cutoff of_tool older)

  unfoldable pub calls_in_trailing_window : List Block → ℕ → Option String → ℕ
  calls_in_trailing_window ledger seconds of_tool =
      let span = get_or (try_seconds seconds) zero_span in
      elim (checked_sub_signed now_instant span) [
        | none ↦ 0
        | some cutoff ↦ window_loop cutoff of_tool (rev ledger)
      ]
