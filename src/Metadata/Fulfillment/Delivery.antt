-- ===== src/Metadata/Fulfillment/Delivery.antt =====
-- When a title is asked for, and what is left in flight.
use ronna_core.Prelude.{
  ℕ, ◌≡◌, refl, ap, ◌⊎◌, inl, inr, Bool, true, false, not, Option, none, some, List, [], ◌∷◌, ◌++◌,
  ◌==◌, ==_refl, filter, any, arith, if_lem, String, get_or,
}
use ronna_core.Block.{Block}
use ronna_core.Store.{Result, ok, err}
use ronna_core.Render.{Projection}
use ronna_core.Actor.State.{Conversation}
use ronna_core.Metadata.Turns.{TurnState, open_turn, close_unsent, is_open, close_generation}
use ronna_core.Metadata.Outside.{Outside, TitleStream, ok_or}
use ronna_core.Metadata.Fulfillment.{
  Fulfillment, Act, sent_title, unsent, unbound, on_config, on_instance, on_conversation, rebind,
  reuse_channel, ensure_provider, on_title_conversation, on_title_blocks, on_prose,
  request_title_stream, dispatch, on_anchor, title_request, title_source_blocks,
}

any-append_self :
    (g : ℕ) (a : Option ℕ) (turns : List (ℕ × Option ℕ))
    → any (λ t. t.0 == g) (turns ++ ((g, a) ∷ [])) ≡ true
unfolding any
any-append_self g a [] = rw (==_refl g) refl
any-append_self g a (t ∷ turns) = ground (arith, any-append_self g a turns)

any-filter_out :
    (g : ℕ) (turns : List (ℕ × Option ℕ))
    → any (λ t. t.0 == g) (filter (λ t. not (t.0 == g)) turns) ≡ false
unfolding any filter
any-filter_out g [] = refl
any-filter_out g (t ∷ turns) = ground (arith, any-filter_out g turns)

pub open_turn-is_open :
    (anchor : Option ℕ) (state : TurnState) → is_open (open_turn anchor state) ≡ true
unfolding is_open open_turn close_generation
open_turn-is_open anchor state = any-append_self state.generation anchor _

close_unsent-is_open : (state : TurnState) → is_open (close_unsent state) ≡ false
unfolding is_open close_unsent close_generation
close_unsent-is_open state = any-filter_out state.generation state.turns

-- Nothing was asked for, and no turn of the current binding is open.
abbrev pub Rests : {S : Type 0} → Fulfillment → Fulfillment × S → Type 0
Rests f r = (r.0.requested ≡ f.requested) × (is_open r.0.turn ≡ false)

-- One request went out, on some channel, and the turn of the current binding is open.
abbrev pub Asks : {S : Type 0} → Fulfillment → Fulfillment × S → Type 0
Asks f r =
    (tx : ℕ) × (request : TitleStream) × (r.0.requested ≡ f.requested ++ ((tx, request) ∷ []))
    × (is_open r.0.turn ≡ true)

module _ {S : Type 0} (outside : Outside S) (f : Fulfillment) where
  abbrev Answers : Fulfillment × S → Type 0
  Answers r = Rests f r ⊎ Asks f r

  sent_title-Answers :
      (tx : ℕ) (request : TitleStream) (g : Fulfillment) (r : Bool × S)
      → g.requested ≡ f.requested
      → is_open g.turn ≡ true
      → Answers (sent_title outside tx request g r)
  unfolding sent_title
  sent_title-Answers tx request g (true, s) same now =
      inr (tx, request, ap (λ l. l ++ ((tx, request) ∷ [])) same, now)
  sent_title-Answers tx request g (false, s) same now = inl (same, close_unsent-is_open g.turn)

  unsent-Rests :
      (g : Fulfillment) (s : S) → g.requested ≡ f.requested → Rests f (unsent outside g s)
  unfolding unsent
  unsent-Rests g s same = (same, close_unsent-is_open g.turn)

  -- What is done with a channel ends in one of the two.
  abbrev Answering : (ℕ → Act S) → Type 0
  Answering next =
      (tx : ℕ) (g : Fulfillment) (s : S) → g.requested ≡ f.requested → Answers (next tx g s)

  module _ (next : ℕ → Act S) (answers : Answering next) where
    abbrev Free : Fulfillment → Type 0
    Free g = (g.requested ≡ f.requested) × (is_open g.turn ≡ false)

    unbound-Answers : (g : Fulfillment) (s : S) → Free g → Answers (unbound outside g s)
    unfolding unbound
    unbound-Answers g s free = inl free

    on_config-Answers :
        (type id : String) (g : Fulfillment) (r : Result Bool × S)
        → Free g
        → Answers (on_config outside next type id g r)
    unfolding on_config
    on_config-Answers type id g (ok true, s) free = answers _ _ _ free.0
    on_config-Answers type id g (ok false, s) free = unbound-Answers g s free
    on_config-Answers type id g (err e, s) free = unbound-Answers g s free

    on_instance-Answers :
        (id : String) (g : Fulfillment) (r : Result (Option String) × S)
        → Free g
        → Answers (on_instance outside next id g r)
    unfolding on_instance
    on_instance-Answers id g (ok (some type), s) free =
        if_lem Answers (outside.has_module type)
          (on_config-Answers type id g (outside.has_config type id s) free)
          (unbound-Answers g s free)
    on_instance-Answers id g (ok none, s) free = unbound-Answers g s free
    on_instance-Answers id g (err e, s) free = unbound-Answers g s free

    on_conversation-Answers :
        (g : Fulfillment) (r : Result (Option Conversation) × S)
        → Free g
        → Answers (on_conversation outside next g r)
    unfolding on_conversation
    on_conversation-Answers g (ok (some conv), s) free =
        on_instance-Answers conv.provider_id g (outside.find_provider_type conv.provider_id s) free
    on_conversation-Answers g (ok none, s) free = unbound-Answers g s free
    on_conversation-Answers g (err e, s) free = unbound-Answers g s free

    reuse_channel-Answers :
        (tx : Option ℕ) (g : Fulfillment) (s : S)
        → Free g
        → Answers (reuse_channel outside next tx g s)
    unfolding reuse_channel rebind
    reuse_channel-Answers none g s free =
        on_conversation-Answers (record g { provider_tx = none }) (outside.find_conversation s) free
    reuse_channel-Answers (some tx) g s free =
        if_lem Answers (outside.is_closed tx s)
          (on_conversation-Answers (record g { provider_tx = none }) (outside.find_conversation s)
            free)
          (answers tx g s free.0)

  module _ {K : Type 0} (from_kind : Block → K) (projection : Projection K) where
    on_title_conversation-Answers :
        (blocks : List Block) (tx : ℕ) (g : Fulfillment) (r : Result (Option Conversation) × S)
        → g.requested ≡ f.requested
        → is_open g.turn ≡ true
        → Answers (on_title_conversation outside from_kind projection blocks tx g r)
    unfolding on_title_conversation
    on_title_conversation-Answers blocks tx g (ok (some conv), s) same now =
        let request = title_request from_kind projection blocks conv in
        sent_title-Answers tx request g (outside.send tx request s) same now
    on_title_conversation-Answers blocks tx g (ok none, s) same now = inl (unsent-Rests g s same)
    on_title_conversation-Answers blocks tx g (err e, s) same now = inl (unsent-Rests g s same)

    on_prose-Answers :
        (prose : List Block) (tx : ℕ) (g : Fulfillment) (s : S)
        → g.requested ≡ f.requested
        → is_open g.turn ≡ true
        → Answers (on_prose outside from_kind projection prose tx g s)
    unfolding on_prose
    on_prose-Answers [] tx g s same now = inl (unsent-Rests g s same)
    on_prose-Answers (first ∷ rest) tx g s same now =
        on_title_conversation-Answers (first ∷ rest) tx g (outside.find_conversation s) same now

    on_title_blocks-Answers :
        (tx : ℕ) (g : Fulfillment) (r : Result (List Block) × S)
        → g.requested ≡ f.requested
        → is_open g.turn ≡ true
        → Answers (on_title_blocks outside from_kind projection tx g r)
    unfolding on_title_blocks
    on_title_blocks-Answers tx g (ok blocks, s) same now =
        on_prose-Answers (title_source_blocks from_kind projection blocks) tx g s same now
    on_title_blocks-Answers tx g (err e, s) same now = inl (unsent-Rests g s same)

    dispatch-Answers : (anchor : ℕ) → Answering (dispatch outside from_kind projection anchor)
    unfolding dispatch request_title_stream
    dispatch-Answers anchor tx g s same =
        on_title_blocks-Answers tx (record g { turn = open_turn (some anchor) g.turn })
          (outside.list_blocks s) same (open_turn-is_open (some anchor) g.turn)

    pub on_anchor-Answers :
        (block : Block) (r : Result (Option ℕ) × S)
        → is_open f.turn ≡ false
        → Answers (on_anchor outside from_kind projection block f r)
    unfolding on_anchor ensure_provider
    on_anchor-Answers block (anchor, s) shut =
        let at = get_or (ok_or anchor none) block.id in
        reuse_channel-Answers (dispatch outside from_kind projection at) (dispatch-Answers at)
          f.provider_tx f s (refl, shut)
