-- ===== src/Actor/Bind.antt =====
-- The binding of a provider: `ensure_provider` and `bind_provider` of actor.rs.
use ronna_core.Prelude.{ℕ, ◌+◌, String, Bool, true, false, Option, none, some, if◌then◌else◌}
use Prim.Native.String.{◌++◌ as str_append}
use ronna_core.Event.{CoreEvent}
use ronna_core.Ingestion.Reader.{new_seam}
use ronna_core.Actor.State.{Outside, Conversation, Act, try_call, tell}

module _ {S : Type 0} (outside : Outside S) where
  open outside use {
    error_text, find_conversation, find_provider_type, has_module, has_config, bind, is_closed,
  }

  -- The bind failed: the consumer is told, and nothing is dispatched.
  unfoldable pub bind_failed : String → Act S
  bind_failed error actor s = (tell (CoreEvent.stream_error actor.id error none) actor, s)

  -- A new generation, with a seam of its own.
  unfoldable pub bind_channel : (ℕ → Act S) → String → String → Act S
  bind_channel next provider_type provider_id actor s =
      let generation = actor.stream_generation + 1 in
      next generation
        (record actor {
          stream_generation = generation;
          turn_anchor = new_seam;
          provider_tx = some generation;
        })
        (bind provider_type provider_id generation s)

  unfoldable pub with_config : (ℕ → Act S) → String → String → Bool → Act S
  with_config next provider_type provider_id true = bind_channel next provider_type provider_id
  with_config next provider_type provider_id false =
      bind_failed (str_append "provider " (str_append provider_id " config not found"))

  unfoldable pub with_instance : (ℕ → Act S) → String → Option String → Act S
  with_instance next provider_id none =
      bind_failed (str_append "provider " (str_append provider_id " not found"))
  with_instance next provider_id (some provider_type) =
      if has_module provider_type
      then try_call (has_config provider_type provider_id)
          (with_config next provider_type provider_id) (λ e. bind_failed (error_text e))
      else bind_failed (str_append "unknown provider type: " provider_type)

  unfoldable pub with_conversation : (ℕ → Act S) → Option Conversation → Act S
  with_conversation next none = bind_failed "conversation not found"
  with_conversation next (some conv) =
      try_call (find_provider_type conv.provider_id) (with_instance next conv.provider_id)
        (λ e. bind_failed (error_text e))

  -- What is done with the channel of a fresh bind.
  unfoldable pub bind_provider : (ℕ → Act S) → Act S
  bind_provider next =
      try_call find_conversation (with_conversation next) (λ e. bind_failed (error_text e))

  unfoldable pub reuse_provider : (ℕ → Act S) → Option ℕ → Act S
  reuse_provider next none actor s = bind_provider next actor s
  reuse_provider next (some tx) actor s =
      if is_closed tx s
      then bind_provider next (record actor { provider_tx = none }) s
      else next tx actor s

  unfoldable pub ensure_provider : (ℕ → Act S) → Act S
  ensure_provider next actor s = reuse_provider next actor.provider_tx actor s
