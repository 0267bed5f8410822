-- ===== src/Reactivity/Loop/Wait.antt =====
-- What a loop that waits has delivered.
use ronna_core.Prelude.{
  ℕ, ◌≡◌, refl, sym, ap, ◌∙◌, ◌⊎◌, inl, inr, true, false, [], ◌∷◌, ◌++◌, contains, append_assoc,
  append-nil, subst,
}
use ronna_core.Reactivity.Signals.{Wakeups, notify_one, wake}
use ronna_core.Reactivity.Signals.Wakes.{notify_one-permits, notify_one-live, wake-live, wake_lem}
use ronna_core.Reactivity.Changes.{ChangeEvent, append_to, wake_scopes, taken}
use ronna_core.Reactivity.Loop.{
  parked, Loop, Step, Reach, started, opens, tracks, takes, handles, parks, resumes, appends, wakes,
  stirs, stays, further,
}
use ronna_core.Reactivity.Loop.Keeps.{
  in_hand, Attends, Keeps, taken-append_to, true_ne_false, Attends-carry, Keeps-started,
  Keeps-opens, Keeps-tracks, Keeps-takes, Keeps-handles, Keeps-parks, Keeps-resumes,
}

module _ {l : Loop} (k : Keeps l) where
  Keeps-appends :
      (change : ChangeEvent)
      → Keeps (record l {
        source = append_to change l.source;
        waking = true;
        pushed = l.pushed ++ (change ∷ []);
      })
  unfolding append_to
  Keeps-appends change =
      let (b, e) = k.queued in
      record {
        queued = (b ++ (change ∷ []), rw e refl);
        conserved =
            ap (λ t. t ++ (change ∷ [])) k.conserved
            ∙ append_assoc l.delivered (in_hand l.phase ++ taken l.source) (change ∷ [])
            ∙ ap (λ t. l.delivered ++ t)
                (append_assoc (in_hand l.phase) (taken l.source) (change ∷ [])
                  ∙ ap (λ t. in_hand l.phase ++ t) (sym (taken-append_to change l.source b e)));
        attends =
            Attends-carry l.phase (λ scope lives. lives)
              (λ scope w. record { lives = w.lives; subscribed = w.subscribed })
              (λ scope w awake. inr (inr refl)) k.attends;
      }

  Keeps-wakes : Keeps (record l {
    source = (wake_scopes l.source l.wakeups).0;
    wakeups = (wake_scopes l.source l.wakeups).1;
    waking = false;
  })
  unfolding wake_scopes taken
  Keeps-wakes = record {
    queued = k.queued;
    conserved = k.conserved;
    attends =
        Attends-carry l.phase (λ scope lives. still scope ∙ lives)
          (λ scope w. record {
            lives = still scope ∙ w.lives;
            subscribed = (wake_lem scope l.source.subscribers l.wakeups w.lives w.subscribed).1;
          })
          (λ scope w awake.
            inr (inl (wake_lem scope l.source.subscribers l.wakeups w.lives w.subscribed).0))
          k.attends;
  }
    where
      still :
          (scope : ℕ)
          → contains (wake l.source.subscribers l.wakeups).1.live scope
            ≡ contains l.wakeups.live scope
      still scope = ap (λ t. contains t scope) (wake-live l.source.subscribers l.wakeups)

  Keeps-stirs : (other : ℕ) → Keeps (record l { wakeups = notify_one other l.wakeups })
  Keeps-stirs other = record {
    queued = k.queued;
    conserved = k.conserved;
    attends =
        Attends-carry l.phase (λ scope lives. still scope ∙ lives)
          (λ scope w. record { lives = still scope ∙ w.lives; subscribed = w.subscribed })
          (λ scope w awake. elim awake [
            | inl nothing ↦ inl nothing
            | inr (inl permit) ↦ inr (inl (notify_one-permits scope other l.wakeups permit))
            | inr (inr waking) ↦ inr (inr waking)
          ])
          k.attends;
  }
    where
      still :
          (scope : ℕ)
          → contains (notify_one other l.wakeups).live scope ≡ contains l.wakeups.live scope
      still scope = ap (λ t. contains t scope) (notify_one-live other l.wakeups)

Keeps-step : {l m : Loop} → Keeps l → Step l m → Keeps m
Keeps-step k (opens scope at new unwoken) = Keeps-opens k scope at
Keeps-step k (tracks scope at) = Keeps-tracks k scope at
Keeps-step k (takes scope at) = Keeps-takes k scope at
Keeps-step k (handles scope change rest at) = Keeps-handles k scope change rest at
Keeps-step k (parks scope at) = Keeps-parks k scope at
Keeps-step k (resumes scope at permit) = Keeps-resumes k scope at
Keeps-step k (appends change quiet) = Keeps-appends k change
Keeps-step k (wakes waking) = Keeps-wakes k
Keeps-step k (stirs scope) = Keeps-stirs k scope

Keeps-reach : {l m : Loop} → Keeps l → Reach l m → Keeps m
Keeps-reach k stays = k
Keeps-reach k (further r s) = Keeps-step (Keeps-reach k r) s

-- However pushes and other notifications fall between the steps of a change-driven loop, a loop
-- that waits in a scope, with no push under way, has run its body for every change that was pushed
-- since the consumer was registered, once each and in order, or it is about to be woken.
pub wait_delivered :
    (id : ℕ) (w : Wakeups) {l : Loop} (scope : ℕ)
    → Reach (started id w) l
    → l.phase ≡ parked scope
    → l.waking ≡ false
    → (l.delivered ≡ l.pushed) ⊎ (contains l.wakeups.permits scope ≡ true)
unfolding in_hand
wait_delivered id w {l} scope r at quiet =
    let k = Keeps-reach (Keeps-started id w) r in
    let whole = k.conserved ∙ ap (λ p. l.delivered ++ (in_hand p ++ taken l.source)) at in
    elim (subst (λ p. Attends p l) at k.attends).1 [
      | inl nothing ↦
          inl (sym (whole ∙ ap (λ t. l.delivered ++ t) nothing ∙ append-nil l.delivered))
      | inr (inl permit) ↦ inr permit
      | inr (inr waking) ↦ absurd (true_ne_false (sym waking ∙ quiet))
    ]
