-- ===== src/Metadata/Derivation/Stored.antt =====
-- What is announced against what is stored.
use mathlib.Core.List.{map-append}
use ronna_core.Prelude.{
  ℕ, String, ◌≡◌, refl, sym, ap, ◌∙◌, Option, List, [], ◌∷◌, ◌++◌, append_assoc, append-nil, if_lem,
  str_eq, map,
}
use ronna_core.Store.{Result, StoreError, ok, err}
use ronna_core.Event.{CoreEvent}
use ronna_core.Ingestion.Handle.{ProviderResponse}
use ronna_core.Metadata.Outside.{Outside}
use ronna_core.Metadata.Turns.{seam_anchor}
use ronna_core.Metadata.Derivation.{
  Derivation, attempt_failed, on_stored, on_source, finish_title, settle, on_response, first_id,
  run_fulfillment_ingestion,
}

-- What the reader relies on: a stored response is added to those of the conversation, a failed one
-- is not, and a listing changes none.
pub record Logs {S : Type 0} (outside : Outside S) (responses : S → List String) : Type 0 where
  pub listing : (s : S) → responses (outside.list_blocks s).1 ≡ responses s
  pub stores :
      (anchor source : Option ℕ) (title : String) (s : S) (id : ℕ)
      → (outside.insert_response anchor source title s).0 ≡ ok id
      → responses (outside.insert_response anchor source title s).1 ≡ responses s ++ (title ∷ [])
  pub rejects :
      (anchor source : Option ℕ) (title : String) (s : S) (e : StoreError)
      → (outside.insert_response anchor source title s).0 ≡ err e
      → responses (outside.insert_response anchor source title s).1 ≡ responses s

-- The titles announced for a conversation.
module _ {S : Type 0} {outside : Outside S} {responses : S → List String}
    (logs : Logs outside responses) (trimmed : String → String) (conv_id generation : ℕ) where
  abbrev announcements : List String → List CoreEvent
  announcements titles = map (λ title. CoreEvent.title_updated conv_id title) titles

  -- One list of titles was both announced and stored.
  abbrev Agrees : Derivation → S → Derivation × S → Type 0
  Agrees d s r =
      (titles : List String) × (r.0.emitted ≡ d.emitted ++ announcements titles)
      × (responses r.1 ≡ responses s ++ titles)

  still :
      (d : Derivation) (s0 s : S)
      → responses s ≡ responses s0
      → Agrees d s0 (attempt_failed outside trimmed conv_id generation d s)
  unfolding attempt_failed
  still d s0 s kept = ([], sym (append-nil d.emitted), kept ∙ sym (append-nil (responses s0)))

  on_stored-Agrees :
      (anchor source : Option ℕ) (title : String) (d : Derivation) (s0 s : S) (r : Result ℕ × S)
      → responses s ≡ responses s0
      → outside.insert_response anchor source title s ≡ r
      → Agrees d s0 (on_stored outside trimmed conv_id generation title d r)
  unfolding on_stored attempt_failed
  on_stored-Agrees anchor source title d s0 s (ok id, s') kept e = (
    title ∷ [],
    refl,
    sym (ap (λ p. responses p.1) e)
        ∙ logs.stores anchor source title s id (ap (λ p. p.0) e)
        ∙ ap (λ l. l ++ (title ∷ [])) kept,
  )
  on_stored-Agrees anchor source title d s0 s (err er, s') kept e = still d s0 s' (
      sym (ap (λ p. responses p.1) e)
      ∙ logs.rejects anchor source title s er (ap (λ p. p.0) e)
      ∙ kept)

  finish_title-Agrees :
      (d : Derivation) (s : S) → Agrees d s (finish_title outside trimmed conv_id generation d s)
  unfolding finish_title on_source attempt_failed
  finish_title-Agrees d s =
      let title = trimmed d.title in
      let s' = (outside.list_blocks s).1 in
      let anchor = seam_anchor generation d.turn in
      let source = first_id (outside.list_blocks s).0 in
      if_lem (Agrees d s) (str_eq title "") (still d s s refl) (
        on_stored-Agrees anchor source title d s s' (outside.insert_response anchor source title s')
          (logs.listing s) refl)

  on_response-Agrees :
      (r : ProviderResponse) (d : Derivation) (s : S)
      → Agrees d s (on_response outside trimmed conv_id generation r d s)
  unfolding on_response settle
  on_response-Agrees (ProviderResponse.event event) d s =
      ([], sym (append-nil d.emitted), sym (append-nil (responses s)))
  on_response-Agrees ProviderResponse.restart d s =
      ([], sym (append-nil d.emitted), sym (append-nil (responses s)))
  on_response-Agrees ProviderResponse.done d s = finish_title-Agrees d s
  on_response-Agrees (ProviderResponse.error message) d s = still d s s refl

  -- Over any stream of responses, however turns end in it, the titles that the reader announces on
  -- the bus are exactly those that the store took, in their order: one that could not be stored is
  -- not announced, and none is stored without being announced.
  pub run_fulfillment_ingestion-stored :
      (rs : List ProviderResponse) (d : Derivation) (s : S)
      → let r = run_fulfillment_ingestion outside trimmed conv_id generation rs d s in
        (titles : List String) × (r.0.emitted
          ≡ d.emitted ++ map (λ title. CoreEvent.title_updated conv_id title) titles)
        × (responses r.1 ≡ responses s ++ titles)
  unfolding run_fulfillment_ingestion
  run_fulfillment_ingestion-stored [] d s =
      ([], sym (append-nil d.emitted), sym (append-nil (responses s)))
  run_fulfillment_ingestion-stored (r ∷ rs) d s =
      let (d', s') = on_response outside trimmed conv_id generation r d s in
      let (first, told, kept) = on_response-Agrees r d s in
      let (later, told', kept') = run_fulfillment_ingestion-stored rs d' s' in
      (
        first ++ later,
        told'
            ∙ ap (λ l. l ++ announcements later) told
            ∙ append_assoc d.emitted (announcements first) (announcements later)
            ∙ ap (λ l. d.emitted ++ l) (sym (map-append _ first later)),
        kept' ∙ ap (λ l. l ++ later) kept ∙ append_assoc (responses s) first later,
      )
