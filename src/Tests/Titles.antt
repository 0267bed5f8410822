-- ===== src/Tests/Titles.antt =====
-- Titles of one conversation, at concrete rows and responses.
use ronna_core.Prelude.{
  ℕ, suc, ◌≤◌, true, false, none, some, String, List, [], ◌∷◌, ◌++◌, ◌≡◌, refl, ◌⊎◌, arith, length,
  ltb, map, bind, is_some,
}
use ronna_core.Block.{Block}
use ronna_core.Store.{ok}
use ronna_core.Event.{CoreEvent}
use ronna_core.Chat.Events.{StreamEvent}
use ronna_core.Render.{Projection}
use ronna_core.Ingestion.Handle.{ProviderResponse}
use ronna_core.Metadata.Throttle
use ronna_core.Metadata.Throttle.{suppressed}
use ronna_core.Metadata.Throttle.Window.{
  Attempt, failed, fulfilled, holds_until, after, suppressed-after,
}
use ronna_core.Metadata.Turns
use ronna_core.Metadata.Turns.{is_open, seam_anchor}
use ronna_core.Metadata.Turns.Ideal.{
  Call, opens, binds, closes, binds_in, turn_under, after-turn_under,
}
use ronna_core.Metadata.Turns.Ideal.{after as turns_after}
use ronna_core.Metadata.Turns.Bounded.{turns_bounded}
use ronna_core.Metadata.Outside.{Outside}
use ronna_core.Metadata.Fulfillment.{Fulfillment, deliver}
use ronna_core.Metadata.Fulfillment.Delivery.{Rests, Asks}
use ronna_core.Metadata.Fulfillment.Due.{Due, deliver-outcome}
use ronna_core.Metadata.Fulfillment.Provided.{Serves, IsChannel, read_state}
use ronna_core.Metadata.Fulfillment.Served.{AsksOn, deliver_due-AsksOn}
use ronna_core.Metadata.Derivation.{Derivation, run_fulfillment_ingestion}
use ronna_core.Metadata.Derivation.Stored.{Logs, run_fulfillment_ingestion-stored}
use ronna_core.Metadata.Policy.Once.{Counts, policy_ticks, policy_ticks-once}
use ronna_core.Tests.Evaluated.{evaluated}
use ronna_core.Tests.Session.{ask, title_request}

-- Two failures after a success: two seconds from the later one.
abbrev attempts : List Attempt
attempts = failed 5000 ∷ failed 1000 ∷ fulfilled 0 ∷ []

held_two_seconds : holds_until attempts ≡ 7000
unfolding evaluated
held_two_seconds = refl

suppressed-after_example : suppressed 6999 (after attempts) ≡ ltb 6999 (holds_until attempts)
suppressed-after_example = suppressed-after attempts 6999 (omega arith)

-- A turn opened under the first binding, a rebind, a turn under the second, and the late close.
abbrev rebound : List Call
rebound = closes 1 ∷ opens (some 9) ∷ binds ∷ opens (some 7) ∷ binds ∷ []

live_anchor : seam_anchor 2 (turns_after rebound) ≡ some 9
unfolding evaluated
live_anchor = refl

after-turn_under_example :
    (seam_anchor 1 (turns_after rebound) ≡ bind (turn_under 1 rebound) (λ a. a))
    × (is_open (turns_after rebound) ≡ is_some (turn_under (binds_in rebound) rebound))
unfolding evaluated
after-turn_under_example = after-turn_under rebound 1 (omega arith)

turns_bounded_example : length (turns_after rebound).turns ≤ 2
turns_bounded_example = turns_bounded rebound

-- The requests and the responses of the metadata ledger.
abbrev Titles : Type 0
Titles = ℕ × List String

abbrev world : Outside Titles
world = record {
  clock = λ s. 8000;
  block_count = λ s. (ok 2, s);
  has_metadata = λ kind s. (ok (ltb 0 s.0), s);
  has_assistant_blocks = λ s. (ok true, s);
  list_blocks = λ s. (ok (ask 1 ∷ []), s);
  list_metadata_blocks = λ s. (ok (title_request 7 ∷ []), s);
  metadata_dispatch_anchor = λ id s. (ok none, s);
  insert_request = λ source s. (ok 1, (suc s.0, s.1));
  insert_response = λ anchor source title s. (ok 1, (s.0, s.1 ++ (title ∷ [])));
  find_conversation =
      λ s. (ok (some (record { provider_id = "p"; external_id = "m"; reasoning = none })), s);
  find_provider_type = λ id s. (ok (some "chat"), s);
  has_module = λ type. true;
  has_config = λ type id s. (ok true, s);
  bind = λ type id generation s. s;
  is_closed = λ tx s. false;
  send = λ tx request s. (true, s);
}

abbrev projection : Projection Block
projection = record {
  group_role = λ b. b.role;
  llm_parts = λ b. none;
  llm_text = λ b. some "hi";
  forces_parts = λ b. false;
}

abbrev itself : Block → Block
itself b = b

abbrev at_rest : Fulfillment
unfolding evaluated
at_rest = record {
  conv_id = 1;
  turn = Turns.new;
  throttle = after attempts;
  provider_tx = none;
  requested = [];
}

abbrev wakeup : CoreEvent
wakeup = CoreEvent.metadata_request_ready 1 7

deliver-outcome_example :
    let r = deliver world itself projection false wakeup at_rest (1, []) in
    (r.0 ≡ at_rest) ⊎ (Due world false wakeup at_rest (1, []) × (Rests at_rest r ⊎ Asks at_rest r))
deliver-outcome_example = deliver-outcome world itself projection false at_rest (1, []) wakeup

due : Due world false wakeup at_rest (1, [])
unfolding evaluated
due = record {
  unlatched = refl;
  unsuppressed = refl;
  at_rest = refl;
  id = 7;
  wakeup = refl;
  ledger = title_request 7 ∷ [];
  listed = refl;
  row = title_request 7;
  found = refl;
  request = record { id = 7 };
  parsed = refl;
  unsettled = refl;
}

serves : Serves world itself projection
unfolding evaluated
serves = record {
  prose = λ s. (ask 1 ∷ [], refl, ask 1, [], refl);
  conversation = λ s. (record { provider_id = "p"; external_id = "m"; reasoning = none }, refl);
  typed = λ id s. ("chat", refl);
  known = λ type. refl;
  configured = λ type id s. refl;
  takes = λ tx request s live. refl;
  bound = λ type id generation s. refl;
  listing_keeps = λ tx s live. refl;
  finding_keeps = λ tx s live. refl;
}

-- The loop holds no channel, so the request goes out on the one of the next bind.
deliver_due-AsksOn_example :
    (tx : ℕ) × IsChannel world at_rest (read_state world 7 (1, [])) tx
    × AsksOn serves at_rest tx (deliver world itself projection false wakeup at_rest (1, []))
unfolding due
deliver_due-AsksOn_example = deliver_due-AsksOn serves at_rest false wakeup (1, []) due

-- A reconnect, an empty attempt and an error, and then a title.
abbrev responses : List ProviderResponse
responses =
    ProviderResponse.event (StreamEvent.text_delta "Trip")
    ∷ ProviderResponse.restart
    ∷ ProviderResponse.done
    ∷ ProviderResponse.error "gone"
    ∷ ProviderResponse.event (StreamEvent.text_delta "A ")
    ∷ ProviderResponse.event (StreamEvent.text_delta "walk")
    ∷ ProviderResponse.done
    ∷ []

abbrev deriving_title : Derivation
unfolding evaluated
deriving_title = record { title = ""; turn = Turns.new; throttle = Throttle.new; emitted = [] }

one_title :
    (run_fulfillment_ingestion world (λ t. t) 1 1 responses deriving_title (1, [])).0.emitted
    ≡ CoreEvent.title_updated 1 "A walk" ∷ []
unfolding evaluated
one_title = refl

logs : Logs world (λ s. s.1)
logs = record {
  listing = λ s. refl;
  stores = λ anchor source title s id e. refl;
  rejects = λ anchor source title s e h. cc;
}

run_fulfillment_ingestion-stored_example :
    let r = run_fulfillment_ingestion world (λ t. t) 1 1 responses deriving_title (1, []) in
    (titles : List String) × (r.0.emitted
      ≡ deriving_title.emitted ++ map (λ title. CoreEvent.title_updated 1 title) titles)
    × (r.1.1 ≡ [] ++ titles)
run_fulfillment_ingestion-stored_example =
    run_fulfillment_ingestion-stored logs (λ t. t) 1 1 responses deriving_title (1, [])

counts : Counts world (λ s. s.0)
counts = record {
  counting = λ s. refl;
  asking = λ kind s. refl;
  answers = λ s b e. cc;
  speaking = λ s. refl;
  listing = λ s. refl;
  stores = λ source s id e. refl;
  rejects = λ source s e h. cc;
}

policy_ticks-once_example :
    (0 ≤ (policy_ticks world ((λ s. s) ∷ (λ s. s) ∷ []) (0, [])).0)
    × ((policy_ticks world ((λ s. s) ∷ (λ s. s) ∷ []) (0, [])).0 ≤ 1)
policy_ticks-once_example =
    policy_ticks-once counts ((λ s. s) ∷ (λ s. s) ∷ []) (0, []) ((λ t. refl), ((λ t. refl), tt))
      (omega arith)
