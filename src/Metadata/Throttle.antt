-- ===== src/Metadata/Throttle.antt =====
-- `FulfillmentThrottle` of agent-ledger/src/metadata.rs. Instants and durations are numbers of
-- milliseconds, and the clock's reading is an argument.
pub mod Window
use ronna_core.Prelude.{
  ℕ, ◌+◌, ◌-◌, ◌*◌, ◌%◌, ◌^◌, min, Bool, true, false, Option, none, some, if◌then◌else◌, ltb,
}

abbrev pub backoff_base : ℕ
backoff_base = 1000

abbrev pub backoff_cap : ℕ
backoff_cap = 60000

pub record ThrottleState : Type 0 where
  pub consecutive_failures : ℕ
  pub not_before : Option ℕ

unfoldable pub new : ThrottleState
new = record { consecutive_failures = 0; not_before = none }

unfoldable pub delay_after : ℕ → ℕ
delay_after failures = min (backoff_base * 2 ^ min (failures - 1) 6) backoff_cap

-- The count of failures is a u32.
unfoldable pub counted : ThrottleState → ℕ
counted state = (state.consecutive_failures + 1) % 2 ^ 32

-- The new state, the failures in a row and the delay applied.
unfoldable pub record_failure : ℕ → ThrottleState → ThrottleState × ℕ × ℕ
unfolding counted
record_failure now state =
    let delay = delay_after (counted state) in
    (
      record { consecutive_failures = counted state; not_before = some (now + delay) },
      counted state,
      delay,
    )

unfoldable pub record_success : ThrottleState → ThrottleState
unfolding new
record_success state = new

unfoldable pub suppressed : ℕ → ThrottleState → Bool
suppressed now state = elim state.not_before [ none ↦ false | some until ↦ ltb now until ]

unfoldable pub next_attempt : ThrottleState → ℕ
unfolding counted
next_attempt state = counted state
