-- ===== src/Actor/Sends.antt =====
-- What the actor is told by its scheduler: when `handle_blocks_ready` of actor.rs sends a request.
use ronna_core.Prelude.{
  ℕ, Bool, true, false, List, String, Option, none, some, ◌≡◌, refl, ap, if_lem, if_split,
  if◌then◌else◌, not, not-false, leb, ◌++◌, ◌∷◌, [], inl, inr, ◌⊎◌,
}
use Prim.Native.String.{◌++◌ as str_append}
use ronna_core.Block.{Block}
use ronna_core.Store.{ok}
use ronna_core.Agency.Interface.{RuntimeKind}
use ronna_core.Agency.Frontier.{frontier_block, frontier_owes_turn}
use ronna_core.Agency.Outcomes.{trailing_refusal_run}
use ronna_core.Render.{Projection}
use ronna_core.Actor.State.{
  Outside, ConversationActor, Conversation, ProviderRequest, Act, stay, try_call, tell,
}
use ronna_core.Actor.Bind.{
  ensure_provider, bind_provider, reuse_provider, with_conversation, with_instance, with_config,
  bind_channel, bind_failed,
}
use ronna_core.Actor.Dispatch.{
  handle_blocks_ready, with_cursor, dispatch_over, end_or_dispatch, dispatch_for, send_turn,
  sent_to, turn_identity, request_of, does_the_ledger_open_with_its_head_kind,
}
use ronna_core.Ingestion.Reader.{set_anchor, clear_anchor}
use ronna_core.Actor.Close.{drop_turn}
use ronna_core.Actor.Facts.{try_lem, try_split}

-- What a bind leaves alone.
pub record Calm : Type 0 where
  pub latched : Bool
  pub recheck : ℕ
  pub streaming : Bool
  pub owed_turn_deferred : Bool
  pub sent : List (ℕ × ProviderRequest)

abbrev pub calm : ConversationActor → Calm
calm actor = record {
  latched = actor.latched;
  recheck = actor.recheck;
  streaming = actor.streaming;
  owed_turn_deferred = actor.owed_turn_deferred;
  sent = actor.sent;
}

module _ {S : Type 0} (outside : Outside S) where
  open outside use {
    is_closed, has_module, error_text, find_conversation, find_provider_type, has_config,
  }

  bind_provider_lem :
      (Q : ConversationActor × S → Type 0) (next : ℕ → Act S) (actor : ConversationActor) (s : S)
      → ((a : ConversationActor) (s' : S) → calm a ≡ calm actor → Q (a, s'))
      → ((tx : ℕ) (a : ConversationActor) (s' : S)
          → calm a ≡ calm actor
          → a.provider_tx ≡ some tx
          → Q (next tx a s'))
      → Q (bind_provider outside next actor s)
  unfolding bind_provider with_conversation with_instance with_config bind_channel bind_failed tell
  bind_provider_lem Q next actor s failed goes_on =
      try_lem Q _ _ _ actor s found (λ e s'. failed _ s' refl)
    where
      configured :
          (provider_type provider_id : String) (has : Bool) (s' : S)
          → Q (with_config outside next provider_type provider_id has actor s')
      configured provider_type provider_id true s' = goes_on _ _ _ refl refl
      configured provider_type provider_id false s' = failed _ s' refl

      typed :
          (conv : Conversation) (t : Option String) (s' : S)
          → Q (with_instance outside next conv.provider_id t actor s')
      typed conv none s' = failed _ s' refl
      typed conv (some t) s' = chosen (has_module t)
        where
          chosen :
              (b : Bool)
              → Q (
                  (if b
                      then try_call
                          (has_config t conv.provider_id)
                          (with_config outside next t conv.provider_id)
                          (λ e. bind_failed outside (error_text e))
                      else bind_failed outside (str_append "unknown provider type: " t))
                    actor s')
          chosen true =
              try_lem Q _ _ _ actor s' (configured t conv.provider_id) (λ e s''. failed _ s'' refl)
          chosen false = failed _ s' refl

      found : (o : Option Conversation) (s' : S) → Q (with_conversation outside next o actor s')
      found none s' = failed _ s' refl
      found (some conv) s' = try_lem Q _ _ _ actor s' (typed conv) (λ e s''. failed _ s'' refl)

  -- A channel is at hand, old or new; or the bind failed.
  pub ensure_provider_lem :
      (Q : ConversationActor × S → Type 0) (next : ℕ → Act S) (actor : ConversationActor) (s : S)
      → ((a : ConversationActor) (s' : S) → calm a ≡ calm actor → Q (a, s'))
      → ((tx : ℕ) (a : ConversationActor) (s' : S)
          → calm a ≡ calm actor
          → a.provider_tx ≡ some tx
          → Q (next tx a s'))
      → Q (ensure_provider outside next actor s)
  unfolding ensure_provider reuse_provider
  ensure_provider_lem Q next actor s failed goes_on = over actor.provider_tx refl
    where
      over : (o : Option ℕ) → actor.provider_tx ≡ o → Q (reuse_provider outside next o actor s)
      over none e = bind_provider_lem Q next actor s failed goes_on
      over (some tx) e =
          if_lem Q (is_closed tx s)
            (bind_provider_lem Q next (record actor { provider_tx = none }) s failed goes_on)
            (goes_on tx actor s refl e)

module _ {K S : Type 0} (kind : RuntimeKind K S) (heads_the_ledger : K → Bool)
    (projection : Projection K) (outside : Outside S) where
  open outside use {list_blocks, cursor, send, registry, consecutive_limit, find_conversation}

  -- What is so of a request that was sent, and of the actor that sent it: the rows that were read
  -- owe a turn, past the cursor that was read; nothing was latched or in flight; the request is
  -- that of the rows; and the turn it opens is the one that the rows name.
  pub record Sent (actor : ConversationActor) (s : S) (a : ConversationActor) : Type 0 where
    pub at : ℕ
    pub blocks : List Block
    pub tail : Block
    pub conv : Conversation
    pub tx : ℕ
    pub from : S
    pub snapshot : S
    pub unlatched : actor.latched ≡ false
    pub free : actor.streaming ≡ false
    pub cursor_read : cursor s ≡ (ok (some at), from)
    pub blocks_read : list_blocks from ≡ (ok blocks, snapshot)
    pub owed : frontier_owes_turn kind blocks at ≡ true
    pub headed : does_the_ledger_open_with_its_head_kind kind heads_the_ledger blocks ≡ true
    pub below :
        leb consecutive_limit (trailing_refusal_run blocks (turn_identity kind actor blocks tail))
        ≡ false
    pub speaks : frontier_block kind blocks ≡ some tail
    pub bound : a.provider_tx ≡ some tx
    pub opened : a.open_turn ≡ some (turn_identity kind actor blocks tail)
    pub anchored : a.turn_anchor.anchor ≡ a.open_turn
    pub becomes : calm a ≡ record (calm actor) {
      streaming = true;
      sent = actor.sent ++ ((tx, request_of kind projection registry blocks conv) ∷ []);
    }

  module _ (Q : ConversationActor × S → Type 0) (actor : ConversationActor) (s : S)
      (unlatched : actor.latched ≡ false) (free : actor.streaming ≡ false)
      (idle : (a : ConversationActor) (s' : S) → calm a ≡ calm actor → Q (a, s'))
      (sends : (a : ConversationActor) (s' : S) → Sent actor s a → Q (a, s')) where
    dispatch_over_lem :
        (at : ℕ) (blocks : List Block) (from snapshot : S)
        → cursor s ≡ (ok (some at), from)
        → list_blocks from ≡ (ok blocks, snapshot)
        → (o : Option Block) → frontier_block kind blocks ≡ o
        → Q (dispatch_over kind heads_the_ledger projection outside blocks at o actor snapshot)
    unfolding dispatch_over end_or_dispatch dispatch_for send_turn tell stay drop_turn sent_to
        set_anchor clear_anchor
    dispatch_over_lem at blocks from snapshot read rows none speaks = idle actor snapshot refl
    dispatch_over_lem at blocks from snapshot read rows (some tail) speaks =
        if_split Q (not (frontier_owes_turn kind blocks at)) (λ _. idle actor snapshot refl)
          (λ owed.
            if_split Q (not (does_the_ledger_open_with_its_head_kind kind heads_the_ledger blocks))
              (λ _. idle _ snapshot refl)
              (λ headed.
                if_split Q (leb consecutive_limit (trailing_refusal_run blocks anchor))
                  (λ _.
                    try_lem Q _ _ _ actor snapshot (λ _ s'. idle _ s' refl)
                      (λ _ s'. idle actor s' refl))
                  (λ below.
                    try_lem Q _ _ _ actor snapshot (chosen owed headed below)
                      (λ _ s'. idle actor s' refl))))
      where
        anchor : ℕ
        anchor = turn_identity kind actor blocks tail

        chosen :
            not (frontier_owes_turn kind blocks at) ≡ false
            → not (does_the_ledger_open_with_its_head_kind kind heads_the_ledger blocks) ≡ false
            → leb consecutive_limit (trailing_refusal_run blocks anchor) ≡ false
            → (o : Option Conversation) (s' : S)
            → Q (dispatch_for kind heads_the_ledger projection outside blocks anchor o actor s')
        chosen owed headed below none s' = idle actor s' refl
        chosen owed headed below (some conv) s' =
            ensure_provider_lem outside Q _ actor s' idle
              (λ tx a s'' calm_a bound. answered tx a calm_a bound (send tx _ s''))
          where
            answered :
                (tx : ℕ) (a : ConversationActor)
                → calm a ≡ calm actor
                → a.provider_tx ≡ some tx
                → (r : Bool × S)
                → Q (
                    sent_to tx
                      (request_of kind projection registry blocks conv)
                      blocks
                      anchor
                      (record a { turn_anchor = set_anchor anchor a.turn_anchor })
                      r)
            answered tx a calm_a bound (false, s'') = idle _ s'' calm_a
            answered tx a calm_a bound (true, s'') = sends _ s'' (record {
              at = at;
              blocks = blocks;
              tail = tail;
              conv = conv;
              tx = tx;
              from = from;
              snapshot = snapshot;
              unlatched = unlatched;
              free = free;
              cursor_read = read;
              blocks_read = rows;
              owed = not-false owed;
              headed = not-false headed;
              below = below;
              speaks = speaks;
              bound = bound;
              opened = refl;
              anchored = refl;
              becomes =
                  ap
                    (λ (k : Calm). record k {
                      streaming = true;
                      sent = k.sent ++ ((tx, request_of kind projection registry blocks conv) ∷ []);
                    })
                    calm_a;
            })

  -- A signal that a turn is owed is passed over, remembered, or answered with a request.
  pub handle_blocks_ready_lem :
      (Q : ConversationActor × S → Type 0) (actor : ConversationActor) (s : S)
      → ((a : ConversationActor) (s' : S)
          → calm a ≡ calm actor
          → (a ≡ actor) ⊎ (actor.streaming ≡ false)
          → Q (a, s'))
      → (actor.streaming ≡ true → Q (record actor { owed_turn_deferred = true }, s))
      → ((a : ConversationActor) (s' : S) → Sent actor s a → Q (a, s'))
      → Q (handle_blocks_ready kind heads_the_ledger projection outside actor s)
  unfolding handle_blocks_ready with_cursor stay
  handle_blocks_ready_lem Q actor s idle deferred sends =
      if_split Q actor.latched (λ _. idle actor s refl (inl refl))
        (λ unlatched. if_split Q actor.streaming deferred (λ free.
          try_split Q _ _ _ actor s (read unlatched free) (λ _ s'. idle actor s' refl (inl refl))))
    where
      read :
          actor.latched ≡ false
          → actor.streaming ≡ false
          → (o : Option ℕ) (from : S) → cursor s ≡ (ok o, from)
          → Q (with_cursor kind heads_the_ledger projection outside o actor from)
      read unlatched free none from e = idle actor from refl (inl refl)
      read unlatched free (some at) from e =
          try_split Q _ _ _ actor from
            (λ blocks snapshot rows.
              dispatch_over_lem Q actor s unlatched free (λ a s' k. idle a s' k (inr free)) sends at
                blocks from snapshot e rows _ refl)
            (λ _ s'. idle actor s' refl (inl refl))

  -- `handle_blocks_ready` sends at most one request, and one only for a turn that is owed: either
  -- the requests sent, the latch and whether a stream is in flight are as before, or one request
  -- was sent and all of `Sent` is so of it.
  pub handle_blocks_ready-sends :
      (actor : ConversationActor) (s : S)
      → let a = (handle_blocks_ready kind heads_the_ledger projection outside actor s).0 in
        ((a.sent ≡ actor.sent) × (a.streaming ≡ actor.streaming) × (a.latched ≡ actor.latched))
        ⊎ Sent actor s a
  handle_blocks_ready-sends actor s =
      handle_blocks_ready_lem
        (λ (r : ConversationActor × S).
          ((r.0.sent ≡ actor.sent)
            × (r.0.streaming ≡ actor.streaming)
            × (r.0.latched ≡ actor.latched))
          ⊎ Sent actor s r.0)
        actor s
        (λ a s' e _. inl (
          ap (λ (k : Calm). k.sent) e,
          ap (λ (k : Calm). k.streaming) e,
          ap (λ (k : Calm). k.latched) e,
        ))
        (λ _. inl (refl, refl, refl)) (λ a s' sent. inr sent)
