-- ===== src/Reactivity/Signals/Wakes.antt =====
-- Who is woken, and who stays subscribed.
use ronna_core.Prelude.{
  ℕ, ◌≡◌, refl, ap, ◌∙◌, sym, true, List, [], ◌∷◌, ◌++◌, ◌==◌, ==_refl, ==_iff, filter, contains,
  Bool-cases, inl, inr, arith,
}
use ronna_core.Reactivity.Signals.{Wakeups, notify_one, subscribe, wake}

pub contains-append_self : (xs : List ℕ) (s : ℕ) → contains (xs ++ (s ∷ [])) s ≡ true
unfolding contains
contains-append_self [] s = rw (==_refl s) refl
contains-append_self (x ∷ xs) s = ground (arith, contains-append_self xs s)

pub subscribe-contains :
    (w : Wakeups) (s : ℕ) (subs : List ℕ) → contains (subscribe w s subs) s ≡ true
unfolding subscribe
subscribe-contains w s subs = contains-append_self (filter (contains w.live) subs) s

pub notify_one-permit : (s : ℕ) (w : Wakeups) → contains (notify_one s w).permits s ≡ true
unfolding notify_one contains
notify_one-permit s w = ground (arith, ==_refl s)

pub notify_one-permits :
    (s t : ℕ) (w : Wakeups)
    → contains w.permits s ≡ true
    → contains (notify_one t w).permits s ≡ true
unfolding notify_one contains
notify_one-permits s t w has = ground arith

pub notify_one-live : (s : ℕ) (w : Wakeups) → (notify_one s w).live ≡ w.live
unfolding notify_one
notify_one-live s w = ground arith

-- The scopes that live are untouched.
pub wake-live : (subs : List ℕ) (w : Wakeups) → (wake subs w).1.live ≡ w.live
unfolding wake
wake-live [] w = refl
wake-live (t ∷ subs) w = elim (Bool-cases (contains w.live t)) [
  | inl lives ↦ rw lives (wake-live subs (notify_one t w) ∙ notify_one-live t w)
  | inr gone ↦ rw gone (wake-live subs w)
]

-- A stored permit stays stored.
pub wake-permits :
    (s : ℕ) (subs : List ℕ) (w : Wakeups)
    → contains w.permits s ≡ true
    → contains (wake subs w).1.permits s ≡ true
unfolding wake
wake-permits s [] w has = has
wake-permits s (t ∷ subs) w has = elim (Bool-cases (contains w.live t)) [
  | inl lives ↦ rw lives (wake-permits s subs (notify_one t w) (notify_one-permits s t w has))
  | inr gone ↦ rw gone (wake-permits s subs w has)
]

-- Every live subscriber is handed a permit, and stays subscribed.
pub wake_lem :
    (s : ℕ) (subs : List ℕ) (w : Wakeups)
    → contains w.live s ≡ true
    → contains subs s ≡ true
    → (contains (wake subs w).1.permits s ≡ true) × (contains (wake subs w).0 s ≡ true)
unfolding wake contains
wake_lem s [] w lives has = cc
wake_lem s (t ∷ subs) w lives has = elim (Bool-cases (t == s)) [
  | inl same ↦
      let e : t ≡ s = (==_iff t s).0 same in
      rw (ap (contains w.live) e ∙ lives, same)
        (
          wake-permits s subs (notify_one t w)
              (ap (contains (notify_one t w).permits) (sym e) ∙ notify_one-permit t w),
          refl,
        )
  | inr other ↦ elim (Bool-cases (contains w.live t)) [
    | inl there ↦
        let ih =
          wake_lem s subs (notify_one t w) (ap (λ l. contains l s) (notify_one-live t w) ∙ lives)
            (rw other at has) in
        rw (there, other) ih
    | inr gone ↦ rw gone (wake_lem s subs w lives (rw other at has))
  ]
]
