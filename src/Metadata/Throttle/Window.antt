-- ===== src/Metadata/Throttle/Window.antt =====
-- How long a history of attempts holds the next one back.
use ronna_core.Prelude.{
  ℕ, zero, suc, ◌+◌, ◌-◌, ◌*◌, ◌%◌, ◌^◌, ◌≤◌, ◌<◌, min, ◌≡◌, refl, ap, ◌∙◌, List, [], ◌∷◌, ltb,
  length, dec_lt, arith, subst,
}
use ronna_core.Metadata.Throttle.{
  backoff_base, backoff_cap, ThrottleState, new, delay_after, counted, record_failure,
  record_success, suppressed,
}

-- An attempt, by the instant at which it ended.
pub data Attempt : Type 0 where
  failed : ℕ → Attempt
  fulfilled : ℕ → Attempt

unfoldable pub recorded : Attempt → ThrottleState → ThrottleState
unfolding record_failure record_success
recorded (failed now) state = (record_failure now state).0
recorded (fulfilled now) state = record_success state

-- The failures since the last success, and the instant of the last, latest attempt first.
unfoldable pub streak : List Attempt → ℕ
streak [] = 0
streak (failed now ∷ before) = suc (streak before)
streak (fulfilled now ∷ before) = 0

unfoldable pub holds_until : List Attempt → ℕ
unfolding streak
holds_until [] = 0
holds_until (failed now ∷ before) = now + min (backoff_base * 2 ^ streak before) backoff_cap
holds_until (fulfilled now ∷ before) = 0

-- The state after the attempts, the latest first.
unfoldable pub after : List Attempt → ThrottleState
unfolding recorded
after [] = new
after (a ∷ before) = recorded a (after before)

streak-le-length : (attempts : List Attempt) → streak attempts ≤ length attempts
unfolding streak
streak-le-length [] = omega arith
streak-le-length (failed now ∷ before) = omega (arith, streak-le-length before)
streak-le-length (fulfilled now ∷ before) = omega arith

after-streak :
    (attempts : List Attempt)
    → length attempts < 2 ^ 32
    → (after attempts).consecutive_failures ≡ streak attempts
unfolding after streak new recorded record_failure counted
after-streak [] small = refl
after-streak (failed now ∷ before) small =
    omega (arith, after-streak before (omega arith), streak-le-length before)
after-streak (fulfilled now ∷ before) small = refl

pow_two-suc : (k : ℕ) → 2 ^ suc k ≡ 2 * 2 ^ k
pow_two-suc k = omega arith

pow_two-from_six : (k : ℕ) → 64 ≤ 2 ^ (6 + k)
pow_two-from_six zero = omega arith
pow_two-from_six (suc k) =
    let e : 6 + suc k ≡ suc (6 + k) = omega arith in
    rw e (omega (arith, pow_two-suc (6 + k), pow_two-from_six k))

capped : (p : ℕ) → 64 ≤ p → backoff_cap ≡ min (backoff_base * p) backoff_cap
capped p h = omega arith

-- The cap of the exponent does not show: from the sixth doubling on the delay is the greatest.
delay_after-suc : (n : ℕ) → delay_after (suc n) ≡ min (backoff_base * 2 ^ n) backoff_cap
unfolding delay_after
delay_after-suc n = elim (dec_lt n 6) [
  | yes low ↦
      let e : min (suc n - 1) 6 ≡ n = omega arith in
      ap (λ e. min (backoff_base * 2 ^ e) backoff_cap) e
  | no high ↦
      let e : min (suc n - 1) 6 ≡ 6 = omega arith in
      let back : 6 + (n - 6) ≡ n = omega arith in
      ap (λ e. min (backoff_base * 2 ^ e) backoff_cap) e
      ∙ capped (2 ^ n) (subst (λ m. 64 ≤ 2 ^ m) back (pow_two-from_six (n - 6)))
]

-- After any attempts, fewer than 2^32, the next is held back exactly until the instant of the last
-- failure and its delay: a second, doubled for each failure since the last success before it, and a
-- minute at most. A success lifts it.
pub suppressed-after :
    (attempts : List Attempt) (now : ℕ)
    → length attempts < 2 ^ 32
    → suppressed now (after attempts) ≡ ltb now (holds_until attempts)
unfolding after suppressed holds_until new recorded record_failure counted
suppressed-after [] now small = ground arith
suppressed-after (failed at ∷ before) now small =
    let n = (after before).consecutive_failures in
    let e : (n + 1) % 2 ^ 32 ≡ suc (streak before) =
      omega (arith, after-streak before (omega arith), streak-le-length before) in
    ap (λ m. ltb now (at + delay_after m)) e
    ∙ ap (λ d. ltb now (at + d)) (delay_after-suc (streak before))
suppressed-after (fulfilled at ∷ before) now small = ground arith
