-- ===== src/Actor/Facts.antt =====
-- What each kind of signal may change of the actor.
use ronna_core.Prelude.{
  if_lem, ℕ, ◌+◌, String, ◌≡◌, refl, ap, ◌∙◌, Bool, true, false, ◌||◌, Option, none, some, List,
  if◌then◌else◌,
}
use ronna_core.Block.{Block}
use ronna_core.Store.{M, Result, ok, err, StoreError}
use ronna_core.Event.{CoreEvent}
use ronna_core.Ingestion.Reader.{Seam}
use ronna_core.Actor.State.{
  Outside, ConversationActor, ProviderRequest, Act, stay, tried, try_call, tell,
}
use ronna_core.Actor.Close.{
  CloseEdge, is_errored_edge, drop_turn, mark_end, settle_over, settle_unread, settle_turn_identity,
  settle_open, release_stream, after_close, close_dispatch, turn_end_key,
}
use ronna_core.Actor.Handle.{
  unlatch, owns_stream_signal, refuse_input, handle_draft_promoted, handle_blocks_appended,
  handle_tool_call_received, handle_approval_submitted, handle_interrupt, handle_stream_done, owned,
  handle,
}

-- What holds whether a call outside is done or fails, with what it answered.
pub try_split :
    {S A : Type 0} (Q : ConversationActor × S → Type 0) (call : M S A) (good : A → Act S)
    (bad : StoreError → Act S) (actor : ConversationActor) (s : S)
    → ((a : A) (s' : S) → call s ≡ (ok a, s') → Q (good a actor s'))
    → ((e : StoreError) (s' : S) → Q (bad e actor s'))
    → Q (try_call call good bad actor s)
unfolding try_call tried
try_split {S} {A} Q call good bad actor s g b = over (call s) refl
  where
    over : (r : Result A × S) → call s ≡ r → Q (tried good bad actor r)
    over (ok a, s') e = g a s' e
    over (err e, s') _ = b e s'

pub try_lem :
    {S A : Type 0} (Q : ConversationActor × S → Type 0) (call : M S A) (good : A → Act S)
    (bad : StoreError → Act S) (actor : ConversationActor) (s : S)
    → ((a : A) (s' : S) → Q (good a actor s'))
    → ((e : StoreError) (s' : S) → Q (bad e actor s'))
    → Q (try_call call good bad actor s)
try_lem Q call good bad actor s g b = try_split Q call good bad actor s (λ a s' e. g a s') b

-- What most signals leave alone.
pub record Kept : Type 0 where
  pub latched : Bool
  pub recheck : ℕ
  pub provider_tx : Option ℕ
  pub streaming : Bool
  pub owed_turn_deferred : Bool
  pub turn_anchor : Seam
  pub open_turn : Option ℕ
  pub sent : List (ℕ × ProviderRequest)

abbrev pub keep : ConversationActor → Kept
keep actor = record {
  latched = actor.latched;
  recheck = actor.recheck;
  provider_tx = actor.provider_tx;
  streaming = actor.streaming;
  owed_turn_deferred = actor.owed_turn_deferred;
  turn_anchor = actor.turn_anchor;
  open_turn = actor.open_turn;
  sent = actor.sent;
}

-- What a close leaves alone, whatever becomes of the open turn.
abbrev pub flight : ConversationActor → Kept
flight actor = record (keep actor) { open_turn = none }

-- The events that let the actor dispatch again, and those that close what is in flight.
abbrev pub releases : CoreEvent → Bool
releases (CoreEvent.draft_promoted c) = true
releases (CoreEvent.blocks_appended c blocks) = true
releases (CoreEvent.unlatch_requested c) = true
releases CoreEvent.unlatch_all = true
releases _ = false

abbrev pub closes : CoreEvent → Bool
closes (CoreEvent.interrupt_requested c) = true
closes (CoreEvent.stream_error c error generation) = true
closes (CoreEvent.stream_closed c generation) = true
closes _ = false

module _ {S : Type 0} (outside : Outside S) where
  mark_end-flight :
      (blocks : List Block) (anchor : ℕ) (key : Option String) (actor : ConversationActor) (s : S)
      → flight (mark_end outside blocks anchor key actor s).0 ≡ flight actor
  unfolding mark_end stay
  mark_end-flight blocks anchor none actor s = refl
  mark_end-flight blocks anchor (some key) actor s =
      if_lem (λ (r : ConversationActor × S). flight r.0 ≡ flight actor) _
        (try_lem (λ (r : ConversationActor × S). flight r.0 ≡ flight actor) _ _ _ actor s
          (λ a s'. refl) (λ e s'. refl))
        refl

  settle_open-flight :
      (o : Option ℕ) (edge : CloseEdge) (goes_on : Bool) (actor : ConversationActor) (s : S)
      → flight (settle_open outside o edge goes_on actor s).0 ≡ flight actor
  unfolding settle_open settle_turn_identity settle_over settle_unread stay drop_turn
  settle_open-flight none edge goes_on actor s = refl
  settle_open-flight (some anchor) edge goes_on actor s =
      let Same = λ (r : ConversationActor × S). flight r.0 ≡ flight actor in
      try_lem Same _ _ _ actor s
        (λ blocks s'.
          if_lem Same _ refl
            (mark_end-flight blocks anchor (turn_end_key edge) (drop_turn actor) s'))
        (λ e s'. if_lem Same goes_on refl refl)

  pub close_dispatch-flight :
      (edge : CloseEdge) (actor : ConversationActor) (s : S)
      → flight (close_dispatch outside edge actor s).0
        ≡ flight (after_close edge (release_stream actor))
  unfolding close_dispatch after_close
  close_dispatch-flight edge actor s =
      ap
        (λ (k : Kept). record k {
          latched = is_errored_edge edge || k.latched;
          recheck = if k.owed_turn_deferred then k.recheck + 1 else k.recheck;
          owed_turn_deferred = false;
        })
        (settle_open-flight actor.open_turn edge _ (release_stream actor) s)

  -- An interrupt closes, latches, and lets the provider go.
  pub handle_interrupt-flight :
      (actor : ConversationActor) (s : S)
      → flight (handle_interrupt outside actor s).0
        ≡ record (flight
            (after_close CloseEdge.teardown (release_stream (record actor { latched = true })))) {
              provider_tx = none;
            }
  unfolding handle_interrupt stay
  handle_interrupt-flight actor s =
      let latched = record actor { latched = true } in
      let closed = close_dispatch outside CloseEdge.teardown latched s in
      let Same = λ (r : ConversationActor × S).
        flight r.0 ≡ record (flight closed.0) { provider_tx = none } in
      try_lem Same _ _ _ (record closed.0 { provider_tx = none }) _
        (λ n s'.
          try_lem Same _ _ _ (record closed.0 { provider_tx = none }) s' (λ _ _. refl)
            (λ _ _. refl))
        (λ e s'.
          try_lem Same _ _ _ (record closed.0 { provider_tx = none }) s' (λ _ _. refl)
            (λ _ _. refl))
      ∙ ap (λ (k : Kept). record k { provider_tx = none })
          (close_dispatch-flight CloseEdge.teardown latched s)

  -- The kinds of events, by what they change.
  pub handle_lem :
      (Q : ConversationActor × S → Type 0) (event : CoreEvent) (actor : ConversationActor) (s : S)
      → ((a : ConversationActor) (s' : S) → keep a ≡ keep actor → Q (a, s'))
      → (releases event ≡ true
          → (a : ConversationActor) (s' : S) → keep a ≡ keep (unlatch actor)
          → Q (a, s'))
      → (closes event ≡ true → (edge : CloseEdge) → Q (close_dispatch outside edge actor s))
      → (closes event ≡ true → Q (handle_interrupt outside actor s))
      → Q (handle outside event actor s)
  unfolding handle handle_draft_promoted handle_blocks_appended handle_tool_call_received
      handle_approval_submitted handle_stream_done owned refuse_input unlatch stay tell
  handle_lem Q (CoreEvent.draft_promoted c) actor s same released closed cut =
      try_lem Q _ _ _ actor s (λ a s'. released refl _ s' refl) (λ e s'. same _ s' refl)
  handle_lem Q (CoreEvent.blocks_appended c blocks) actor s same released closed cut =
      try_lem Q _ _ _ actor s (λ a s'. released refl _ s' refl) (λ e s'. same _ s' refl)
  handle_lem Q (CoreEvent.tool_call_received c id name input) actor s same released closed cut =
      try_lem Q _ _ _ actor s (λ a s'. same _ s' refl) (λ e s'. same _ s' refl)
  handle_lem Q (CoreEvent.approval_submitted c request decision system_reason user_reason) actor s
        same released closed cut =
      try_lem Q _ _ _ actor s (λ a s'. same _ s' refl) (λ e s'. same _ s' refl)
  handle_lem Q (CoreEvent.interrupt_requested c) actor s same released closed cut = cut refl
  handle_lem Q (CoreEvent.unlatch_requested c) actor s same released closed cut =
      released refl _ s refl
  handle_lem Q CoreEvent.unlatch_all actor s same released closed cut = released refl _ s refl
  handle_lem Q (CoreEvent.stream_done c usage stop generation) actor s same released closed cut =
      if_lem Q (owns_stream_signal generation actor) (same _ s refl) (same _ s refl)
  handle_lem Q (CoreEvent.stream_error c error generation) actor s same released closed cut =
      if_lem Q (owns_stream_signal generation actor) (closed refl CloseEdge.errored) (same _ s refl)
  handle_lem Q (CoreEvent.stream_closed c generation) actor s same released closed cut =
      if_lem Q (owns_stream_signal generation actor) (closed refl CloseEdge.closed) (same _ s refl)
  handle_lem Q _ actor s same released closed cut = same _ s refl
