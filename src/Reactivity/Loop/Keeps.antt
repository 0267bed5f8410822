-- ===== src/Reactivity/Loop/Keeps.antt =====
-- What every step of the loop keeps.
use ronna_core.Prelude.{
  ℕ, ◌≡◌, refl, sym, ap, ◌∙◌, ◌⊎◌, inl, inr, true, false, some, List, [], ◌∷◌, ◌++◌, contains,
  append_assoc, append-nil, subst, arith, ==_refl, Option-cases,
}
use ronna_core.Reactivity.Signals.{Wakeups}
use ronna_core.Reactivity.Signals.Wakes.{subscribe-contains}
use ronna_core.Reactivity.Changes.{
  ChangeEvent, Consumer, append_to, subscribe_scope, taken, take_buffer,
}
use ronna_core.Reactivity.Loop.{
  Phase, idle, scoped, tracked, works, parked, Loop, born, scope_ends, started,
}

-- What the loop took from the queue and has not handled.
unfoldable pub in_hand : Phase → List ChangeEvent
in_hand (works scope rest) = rest
in_hand _ = []

-- The scope will be woken for what comes, and is to be woken for what came.
pub record Watches (scope : ℕ) (l : Loop) : Type 0 where
  pub lives : contains l.wakeups.live scope ≡ true
  pub subscribed : contains l.source.subscribers scope ≡ true

abbrev pub Awake : ℕ → Loop → Type 0
Awake scope l =
    (taken l.source ≡ []) ⊎ (contains l.wakeups.permits scope ≡ true) ⊎ (l.waking ≡ true)

abbrev pub Attends : Phase → Loop → Type 0
Attends idle l = Unit
Attends (scoped scope) l = contains l.wakeups.live scope ≡ true
Attends (tracked scope) l = Watches scope l
Attends (works scope rest) l = Watches scope l × Awake scope l
Attends (parked scope) l = Watches scope l × Awake scope l

pub record Keeps (l : Loop) : Type 0 where
  pub queued : (b : List ChangeEvent) × (l.source.buffer ≡ some b)
  pub conserved : l.pushed ≡ l.delivered ++ (in_hand l.phase ++ taken l.source)
  pub attends : Attends l.phase l

pub Keeps-started : (id : ℕ) (w : Wakeups) → Keeps (started id w)
unfolding started taken in_hand
Keeps-started id w = record { queued = ([], refl); conserved = refl; attends = tt }

taken-take_buffer : (c : Consumer) → taken (take_buffer c) ≡ []
unfolding taken take_buffer
taken-take_buffer c = elim (Option-cases c.buffer) [
  | inl empty ↦ rw empty refl
  | inr (q, full) ↦ rw full refl
]

pub taken-append_to :
    (change : ChangeEvent) (c : Consumer) (b : List ChangeEvent)
    → c.buffer ≡ some b
    → taken (append_to change c) ≡ taken c ++ (change ∷ [])
unfolding taken append_to
taken-append_to change c b e = rw e refl

pub true_ne_false : ¬ (true ≡ false)
true_ne_false h = cc

-- What holds in the phase at hand is carried over, part by part.
pub Attends-carry :
    {l m : Loop} (p : Phase)
    → ((scope : ℕ) → contains l.wakeups.live scope ≡ true → contains m.wakeups.live scope ≡ true)
    → ((scope : ℕ) → Watches scope l → Watches scope m)
    → ((scope : ℕ) → Watches scope l → Awake scope l → Awake scope m)
    → Attends p l
    → Attends p m
Attends-carry idle lives watches awake h = tt
Attends-carry (scoped scope) lives watches awake h = lives scope h
Attends-carry (tracked scope) lives watches awake h = watches scope h
Attends-carry (works scope rest) lives watches awake (w, a) = (watches scope w, awake scope w a)
Attends-carry (parked scope) lives watches awake (w, a) = (watches scope w, awake scope w a)

module _ {l : Loop} (k : Keeps l) where
  pub Keeps-opens :
      (scope : ℕ)
      → l.phase ≡ idle
      → Keeps (record l { wakeups = born scope l.wakeups; phase = scoped scope })
  unfolding born in_hand contains
  Keeps-opens scope at = record {
    queued = k.queued;
    conserved = k.conserved ∙ ap (λ p. l.delivered ++ (in_hand p ++ taken l.source)) at;
    attends = ground (arith, ==_refl scope);
  }

  pub Keeps-tracks :
      (scope : ℕ)
      → l.phase ≡ scoped scope
      → Keeps (record l {
        source = subscribe_scope l.wakeups (some scope) l.source;
        phase = tracked scope;
      })
  unfolding subscribe_scope in_hand taken
  Keeps-tracks scope at = record {
    queued = k.queued;
    conserved = k.conserved ∙ ap (λ p. l.delivered ++ (in_hand p ++ taken l.source)) at;
    attends = record {
      lives = subst (λ p. Attends p l) at k.attends;
      subscribed = subscribe-contains l.wakeups scope l.source.subscribers;
    };
  }

  pub Keeps-takes :
      (scope : ℕ)
      → l.phase ≡ tracked scope
      → Keeps (record l { source = take_buffer l.source; phase = works scope (taken l.source) })
  unfolding take_buffer in_hand taken
  Keeps-takes scope at =
      let (b, e) = k.queued in
      let w : Watches scope l = subst (λ p. Attends p l) at k.attends in
      record {
        queued = ([], rw e refl);
        conserved =
            k.conserved
            ∙ ap (λ p. l.delivered ++ (in_hand p ++ taken l.source)) at
            ∙ ap (λ t. l.delivered ++ t)
                (sym (
                  ap (λ t. taken l.source ++ t) (taken-take_buffer l.source)
                  ∙ append-nil (taken l.source)));
        attends = (record { lives = w.lives; subscribed = w.subscribed }, inl (rw e refl));
      }

  pub Keeps-handles :
      (scope : ℕ) (change : ChangeEvent) (rest : List ChangeEvent)
      → l.phase ≡ works scope (change ∷ rest)
      → Keeps (record l { phase = works scope rest; delivered = l.delivered ++ (change ∷ []) })
  unfolding in_hand
  Keeps-handles scope change rest at =
      let (w, awake) : Watches scope l × Awake scope l = subst (λ p. Attends p l) at k.attends in
      record {
        queued = k.queued;
        conserved =
            k.conserved
            ∙ ap (λ p. l.delivered ++ (in_hand p ++ taken l.source)) at
            ∙ sym (append_assoc l.delivered (change ∷ []) (rest ++ taken l.source));
        attends = (record { lives = w.lives; subscribed = w.subscribed }, awake);
      }

  pub Keeps-parks :
      (scope : ℕ) → l.phase ≡ works scope [] → Keeps (record l { phase = parked scope })
  unfolding in_hand
  Keeps-parks scope at =
      let (w, awake) : Watches scope l × Awake scope l = subst (λ p. Attends p l) at k.attends in
      record {
        queued = k.queued;
        conserved = k.conserved ∙ ap (λ p. l.delivered ++ (in_hand p ++ taken l.source)) at;
        attends = (record { lives = w.lives; subscribed = w.subscribed }, awake);
      }

  pub Keeps-resumes :
      (scope : ℕ)
      → l.phase ≡ parked scope
      → Keeps (record l { wakeups = scope_ends scope l.wakeups; phase = idle })
  unfolding in_hand
  Keeps-resumes scope at = record {
    queued = k.queued;
    conserved = k.conserved ∙ ap (λ p. l.delivered ++ (in_hand p ++ taken l.source)) at;
    attends = tt;
  }
