-- ===== src/Metadata/Fulfillment/Served.antt =====
-- That a due request is asked for when the store and a provider answer.
use ronna_core.Prelude.{
  ℕ, ◌≡◌, refl, sym, ap, Bool, true, false, not, Option, none, some, [], ◌∷◌, ◌++◌, ==_refl,
  if◌then◌else◌, if_split, ◌+◌, ◌∙◌, get_or, subst,
}
use ronna_core.Block.{Block}
use mathlib.Core.Option.{some-injective}
use ronna_core.Store.{Result}
use ronna_core.Event.{CoreEvent}
use ronna_core.Render.{Projection}
use ronna_core.Metadata.Turns.{open_turn, is_open, bind_turn}
use ronna_core.Metadata.Outside.{Outside, TitleStream, ok_or}
use ronna_core.Metadata.Fulfillment.{
  Fulfillment, Act, sent_title, unbound, on_config, on_instance, on_conversation, rebind,
  reuse_channel, ensure_provider, on_title_conversation, on_title_blocks, on_prose,
  request_title_stream, dispatch, on_anchor, on_kind, on_row, on_ledger, deliver, title_request,
}
use ronna_core.Metadata.Fulfillment.Delivery.{open_turn-is_open}
use ronna_core.Metadata.Fulfillment.Due.{Due}
use ronna_core.Metadata.Fulfillment.Provided.{
  Serves, IsChannel, at_hand, fresh, read_state, IsTitleRequest,
}

past {ℓ κ} :
    {A : Type ℓ} (Q : A → Type κ) {b : Bool} (x : A) {y : A}
    → b ≡ false
    → Q y
    → Q (if b then x else y)
past Q {b} x {y} e q = subst (λ t. Q (if t then x else y)) (sym e) q

module _ {K S : Type 0} {outside : Outside S} {from_kind : Block → K} {projection : Projection K}
    (serves : Serves outside from_kind projection) (f : Fulfillment) where
  open serves use {
    prose, conversation, typed, known, configured, takes, bound, listing_keeps, finding_keeps,
  }
  open outside use {list_blocks, find_conversation, find_provider_type, has_config, send, is_closed}

  -- One request for a title went out, on this channel and no other; the channel is kept, and the
  -- turn of its binding is open.
  pub AsksOn : ℕ → Fulfillment × S → Type 0
  AsksOn tx r =
      (request : TitleStream) × IsTitleRequest outside from_kind projection request
      × (r.0.requested ≡ f.requested ++ ((tx, request) ∷ []))
      × (r.0.provider_tx ≡ some tx)
      × (is_open r.0.turn ≡ true)

  -- A state of the loop that is about to ask on the channel.
  record IsReady (tx : ℕ) (g : Fulfillment) (s : S) : Type 0 where
    open_channel : is_closed tx s ≡ false
    held : g.provider_tx ≡ some tx
    same : g.requested ≡ f.requested

  sent_title-AsksOn :
      (tx : ℕ) (request : TitleStream) (g : Fulfillment) (s : S)
      → IsTitleRequest outside from_kind projection request
      → IsReady tx g s
      → is_open g.turn ≡ true
      → AsksOn tx (sent_title outside tx request g (send tx request s))
  unfolding sent_title AsksOn
  sent_title-AsksOn tx request g s asked ready now =
      subst (λ a. AsksOn tx (sent_title outside tx request g (a, (send tx request s).1)))
        (sym (takes tx request s ready.open_channel))
        (request, asked, ap (λ l. l ++ ((tx, request) ∷ [])) ready.same, ready.held, now)

  request-AsksOn :
      (tx : ℕ) (g : Fulfillment) (s : S)
      → IsReady tx g s
      → is_open g.turn ≡ true
      → AsksOn tx (request_title_stream outside from_kind projection tx g s)
  unfolding request_title_stream on_title_blocks on_prose on_title_conversation
  request-AsksOn tx g s ready now =
      let (blocks, listed, first, rest, spoken) = prose s in
      let s' = (list_blocks s).1 in
      let (conv, found) = conversation s' in
      let s'' = (find_conversation s').1 in
      let asked : IsTitleRequest outside from_kind projection
          (title_request from_kind projection (first ∷ rest) conv) =
        record {
          s = s;
          blocks = blocks;
          listed = listed;
          conv = conv;
          found = found;
          asks = ap (λ l. title_request from_kind projection l conv) (sym spoken);
        } in
      let still : IsReady tx g s'' = record {
        open_channel = finding_keeps tx s' (listing_keeps tx s ready.open_channel);
        held = ready.held;
        same = ready.same;
      } in
      subst (λ a. AsksOn tx (on_title_blocks outside from_kind projection tx g (a, s')))
        (sym listed)
        (subst (λ l. AsksOn tx (on_prose outside from_kind projection l tx g s')) (sym spoken)
          (subst
            (λ a.
              AsksOn tx
                (on_title_conversation outside from_kind projection (first ∷ rest) tx g (a, s'')))
            (sym found)
            (sent_title-AsksOn tx (title_request from_kind projection (first ∷ rest) conv) g s''
              asked still now)))

  dispatch-AsksOn :
      (anchor tx : ℕ) (g : Fulfillment) (s : S)
      → IsReady tx g s
      → AsksOn tx (dispatch outside from_kind projection anchor tx g s)
  unfolding dispatch
  dispatch-AsksOn anchor tx g s ready =
      request-AsksOn tx (record g { turn = open_turn (some anchor) g.turn }) s
        (record { open_channel = ready.open_channel; held = ready.held; same = ready.same })
        (open_turn-is_open (some anchor) g.turn)

  module _ (next : ℕ → Act S)
      (asks : (tx : ℕ) (g : Fulfillment) (s : S) → IsReady tx g s → AsksOn tx (next tx g s)) where
    rebind-AsksOn : (s : S) → AsksOn (f.turn.generation + 1) (rebind outside next f s)
    unfolding rebind on_conversation on_instance on_config bind_turn
    rebind-AsksOn s =
        let (conv, found) = conversation s in
        let s1 = (find_conversation s).1 in
        let (type, at) = typed conv.provider_id s1 in
        let s2 = (find_provider_type conv.provider_id s1).1 in
        let s3 = (has_config type conv.provider_id s2).1 in
        let g0 : Fulfillment = record f { provider_tx = none } in
        let Goal = AsksOn (f.turn.generation + 1) in
        subst (λ a. Goal (on_conversation outside next g0 (a, s1))) (sym found)
          (subst (λ a. Goal (on_instance outside next conv.provider_id g0 (a, s2))) (sym at)
            (subst
              (λ b. Goal (
                if b
                then on_config outside next type conv.provider_id g0
                    (has_config type conv.provider_id s2)
                else unbound outside g0 s2))
              (sym (known type))
              (subst (λ a. Goal (on_config outside next type conv.provider_id g0 (a, s3)))
                (sym (configured type conv.provider_id s2))
                (asks _ _ _ (record {
                  open_channel = bound type conv.provider_id (f.turn.generation + 1) s3;
                  held = refl;
                  same = refl;
                })))))

    reuse_channel-AsksOn :
        (o : Option ℕ) (s : S)
        → f.provider_tx ≡ o
        → (tx : ℕ) × IsChannel outside f s tx × AsksOn tx (reuse_channel outside next o f s)
    unfolding reuse_channel
    reuse_channel-AsksOn none s held =
        (f.turn.generation + 1, fresh (λ t e. cc) refl, rebind-AsksOn s)
    reuse_channel-AsksOn (some at) s held =
        if_split (λ r. (tx : ℕ) × IsChannel outside f s tx × AsksOn tx r) (is_closed at s)
          (λ closed. (
            f.turn.generation + 1,
            fresh
                (λ t e.
                  subst (λ u. is_closed u s ≡ true) (some-injective _ _ (sym held ∙ e)) closed)
                refl,
            rebind-AsksOn s,
          ))
          (λ live. (
            at,
            at_hand held live,
            asks at f s (record { open_channel = live; held = held; same = refl }),
          ))

  -- What a due request comes to, by the state in which the channel is looked at.
  abbrev AsksOnce : S → Fulfillment × S → Type 0
  AsksOnce s r = (tx : ℕ) × IsChannel outside f s tx × AsksOn tx r

  on_anchor-AsksOnce :
      (block : Block) (r : Result (Option ℕ) × S)
      → AsksOnce r.1 (on_anchor outside from_kind projection block f r)
  unfolding on_anchor ensure_provider
  on_anchor-AsksOnce block (anchor, s) =
      let at = get_or (ok_or anchor none) block.id in
      reuse_channel-AsksOn (dispatch outside from_kind projection at) (dispatch-AsksOn at)
        f.provider_tx s refl

  ledger_AsksOnce :
      {latched : Bool} {event : CoreEvent} {s : S} (due : Due outside latched event f s)
      → AsksOnce
          (read_state outside due.id s)
          (on_ledger outside from_kind projection due.id f (outside.list_metadata_blocks s))
  unfolding on_ledger on_row on_kind
  ledger_AsksOnce {s = s} due =
      let s' = (outside.list_metadata_blocks s).1 in
      let Goal = AsksOnce (read_state outside due.id s) in
      subst (λ a. Goal (on_ledger outside from_kind projection due.id f (a, s'))) (sym due.listed)
        (subst (λ row. Goal (on_row outside from_kind projection due.id due.ledger row f s'))
          (sym due.found)
          (subst
            (λ kind.
              Goal (on_kind outside from_kind projection due.id due.ledger due.row kind f s'))
            (sym due.parsed)
            (past Goal _ due.unsettled
              (on_anchor-AsksOnce due.row (outside.metadata_dispatch_anchor due.id s')))))

  -- A due request is asked for once the store and the providers answer: one request for a title of
  -- the conversation's rows goes out, on the channel at hand if it is open when the ledger and the
  -- request's anchor have been read, and otherwise on the channel of a new binding. The channel is
  -- kept, and the turn of the binding is open. An open channel is assumed to take a request, a new
  -- one to be open, and the reads in between to close none.
  pub deliver_due-AsksOn :
      (latched : Bool) (event : CoreEvent) (s : S) (due : Due outside latched event f s)
      → (tx : ℕ) × IsChannel outside f (read_state outside due.id s) tx
        × AsksOn tx (deliver outside from_kind projection latched event f s)
  unfolding deliver on_ledger on_row on_kind on_anchor ensure_provider
  deliver_due-AsksOn latched event s due =
      let Goal = AsksOnce (read_state outside due.id s) in
      subst (λ e. Goal (deliver outside from_kind projection latched e f s)) (sym due.wakeup)
        (past Goal _ (ap not (==_refl f.conv_id)) (
          past Goal _ due.unlatched
            (past Goal _ due.unsuppressed (past Goal _ due.at_rest (ledger_AsksOnce due)))))
