-- ===== src/Metadata/Fulfillment/Due.antt =====
-- Which wakeup asks for a title.
use ronna_core.Prelude.{
  ℕ, ◌≡◌, refl, sym, ◌⊎◌, inl, inr, Bool, false, not, Option, none, some, List, ◌==◌, ==_iff, find,
  if_split, not-false, subst,
}
use ronna_core.Block.{Block}
use ronna_core.Store.{Result, ok, err}
use ronna_core.Event.{CoreEvent}
use ronna_core.Agency.Kinds.{BlockKind, from_block}
use ronna_core.Agency.Records.{MetadataTitleRequest}
use ronna_core.Agency.Title.{settled_in}
use ronna_core.Render.{Projection}
use ronna_core.Metadata.Throttle.{suppressed}
use ronna_core.Metadata.Turns.{is_open}
use ronna_core.Metadata.Outside.{Outside}
use ronna_core.Metadata.Fulfillment.{Fulfillment, on_kind, on_row, on_ledger, deliver}
use ronna_core.Metadata.Fulfillment.Delivery.{Rests, Asks, on_anchor-Answers}

-- The request that a wakeup names is due: nothing holds the delivery back, and the row stands in
-- the ledger with no response that settles it.
pub record Due {S : Type 0} (outside : Outside S) (latched : Bool) (event : CoreEvent)
    (f : Fulfillment) (s : S) : Type 0 where
  pub unlatched : latched ≡ false
  pub unsuppressed : suppressed (outside.clock s) f.throttle ≡ false
  pub at_rest : is_open f.turn ≡ false
  pub id : ℕ
  pub wakeup : event ≡ CoreEvent.metadata_request_ready f.conv_id id
  pub ledger : List Block
  pub listed : (outside.list_metadata_blocks s).0 ≡ ok ledger
  pub row : Block
  pub found : find (λ b. b.id == id) ledger ≡ some row
  pub request : MetadataTitleRequest
  pub parsed : from_block row ≡ BlockKind.metadata_title_request request
  pub unsettled : settled_in request ledger ≡ false

module _ {K S : Type 0} (outside : Outside S) (from_kind : Block → K) (projection : Projection K)
    (latched : Bool) (f : Fulfillment) (s : S) where
  abbrev Outcome : CoreEvent → Fulfillment × S → Type 0
  Outcome event r = (r.0 ≡ f) ⊎ (Due outside latched event f s × (Rests f r ⊎ Asks f r))

  -- What is known of the wakeup when the ledger is read.
  module _ (id : ℕ) (unlatched : latched ≡ false)
      (unsuppressed : suppressed (outside.clock s) f.throttle ≡ false)
      (at_rest : is_open f.turn ≡ false) where
    abbrev Wakeup : CoreEvent
    Wakeup = CoreEvent.metadata_request_ready f.conv_id id

    on_kind-outcome :
        (ledger : List Block) (row : Block) (kind : BlockKind) (s' : S)
        → (outside.list_metadata_blocks s).0 ≡ ok ledger
        → find (λ b. b.id == id) ledger ≡ some row
        → from_block row ≡ kind
        → Outcome Wakeup (on_kind outside from_kind projection id ledger row kind f s')
    unfolding on_kind
    on_kind-outcome ledger row (BlockKind.metadata_title_request request) s' listed found parsed =
        if_split (Outcome Wakeup) (settled_in request ledger) (λ settled. inl refl)
          (λ unsettled. inr (
            record {
              unlatched = unlatched;
              unsuppressed = unsuppressed;
              at_rest = at_rest;
              id = id;
              wakeup = refl;
              ledger = ledger;
              listed = listed;
              row = row;
              found = found;
              request = request;
              parsed = parsed;
              unsettled = unsettled;
            },
            on_anchor-Answers outside f from_kind projection row
                (outside.metadata_dispatch_anchor id s') at_rest,
          ))
    on_kind-outcome ledger row kind s' listed found parsed = inl refl

    on_row-outcome :
        (ledger : List Block) (row : Option Block) (s' : S)
        → (outside.list_metadata_blocks s).0 ≡ ok ledger
        → find (λ b. b.id == id) ledger ≡ row
        → Outcome Wakeup (on_row outside from_kind projection id ledger row f s')
    unfolding on_row
    on_row-outcome ledger none s' listed found = inl refl
    on_row-outcome ledger (some row) s' listed found =
        on_kind-outcome ledger row (from_block row) s' listed found refl

    on_ledger-outcome :
        (r : Result (List Block) × S)
        → (outside.list_metadata_blocks s).0 ≡ r.0
        → Outcome Wakeup (on_ledger outside from_kind projection id f r)
    unfolding on_ledger
    on_ledger-outcome (ok ledger, s') listed =
        on_row-outcome ledger (find (λ b. b.id == id) ledger) s' listed refl
    on_ledger-outcome (err e, s') listed = inl refl

  wakeup-outcome :
      (conversation id : ℕ)
      → Outcome (CoreEvent.metadata_request_ready conversation id) (
          deliver outside from_kind projection latched
            (CoreEvent.metadata_request_ready conversation id)
            f
            s)
  unfolding deliver
  wakeup-outcome conversation id =
      let event = CoreEvent.metadata_request_ready conversation id in
      if_split (Outcome event) (not (conversation == f.conv_id)) (λ other. inl refl)
        (λ own.
          if_split (Outcome event) latched (λ _. inl refl)
            (λ unlatched.
              if_split (Outcome event) (suppressed (outside.clock s) f.throttle) (λ _. inl refl)
                (λ unsuppressed.
                  if_split (Outcome event) (is_open f.turn) (λ _. inl refl)
                    (λ at_rest.
                      subst
                        (λ c. Outcome (CoreEvent.metadata_request_ready c id) (
                          on_ledger outside from_kind projection id f
                            (outside.list_metadata_blocks s)))
                        (sym ((==_iff conversation f.conv_id).0 (not-false own)))
                        (on_ledger-outcome id unlatched unsuppressed at_rest
                          (outside.list_metadata_blocks s) refl)))))

  -- An event of the bus leaves the fulfillment as it is; or it is the wakeup of this conversation
  -- for a request that is due: not latched, outside the backoff, with no turn in flight, and the
  -- request in the ledger and unsettled. Then either one request for a title went out and the
  -- current binding's turn is open, or none did and no turn of it is open.
  pub deliver-outcome :
      (event : CoreEvent)
      → let r = deliver outside from_kind projection latched event f s in
        (r.0 ≡ f) ⊎ (Due outside latched event f s × (Rests f r ⊎ Asks f r))
  unfolding deliver
  deliver-outcome (CoreEvent.metadata_request_ready conversation id) =
      wakeup-outcome conversation id
  deliver-outcome event = inl refl
