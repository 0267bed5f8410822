-- ===== src/Ingestion/Quiet.antt =====
-- What the handlers of a stream's events leave alone: the seam, the latch, and the ends of turns.
pub mod Text
pub mod Calls
use ronna_core.Prelude.{
  none, some, ℕ, suc, ◌≡◌, refl, ap, ◌∙◌, Bool, true, false, List, [], ◌∷◌, ◌++◌, if◌then◌else◌,
  Bool-cases, inl, inr, Option-cases, Option, some,
}
use ronna_core.Event.{CoreEvent}
use ronna_core.Ingestion.Rows.{Rows}
use ronna_core.Ingestion.Reader.{
  ChannelReader, Step, Seam, attempt, attempt_lem, emit, stay, set_trackers,
  discard_streaming_tails, with_thinking_block, thinking_block_of,
}

-- Whether an event ends a stream.
abbrev pub is_terminal : CoreEvent → Bool
is_terminal (CoreEvent.stream_error conversation error generation) = true
is_terminal (CoreEvent.stream_closed conversation generation) = true
is_terminal _ = false

unfoldable pub terminals : List CoreEvent → ℕ
terminals [] = 0
terminals (e ∷ events) = let rest = terminals events in if is_terminal e then suc rest else rest

pub terminals-snoc :
    (events : List CoreEvent) (e : CoreEvent)
    → terminals (events ++ (e ∷ []))
      ≡ (if is_terminal e then suc (terminals events) else terminals events)
unfolding terminals
terminals-snoc [] e = refl
terminals-snoc (x ∷ events) e = elim (Bool-cases (is_terminal x)) [
  | inl ends ↦ elim (Bool-cases (is_terminal e)) [
    | inl e_ends ↦ rw (ends, e_ends) (rw (terminals-snoc events e, e_ends) refl)
    | inr e_goes ↦ rw (ends, e_goes) (rw (terminals-snoc events e, e_goes) refl)
  ]
  | inr goes ↦ rw goes (terminals-snoc events e)
]

-- What a quiet step keeps.
pub record View : Type 0 where
  pub conversation_id : ℕ
  pub terminals : ℕ
  pub mid_turn : Bool
  pub generation : ℕ
  pub seam : Seam
  pub latched : Bool

abbrev pub view : ChannelReader → View
view reader = record {
  conversation_id = reader.conversation_id;
  terminals = terminals reader.emitted;
  mid_turn = reader.mid_turn;
  generation = reader.generation;
  seam = reader.seam;
  latched = reader.latched;
}

abbrev pub IsQuiet : Step → Type 0
IsQuiet step = (reader : ChannelReader) → view (step reader) ≡ view reader

pub emit-view :
    (e : CoreEvent) (reader : ChannelReader)
    → is_terminal e ≡ false
    → view (emit e reader) ≡ view reader
unfolding emit
emit-view e reader goes =
    ap (λ n. record (view reader) { terminals = n })
      (terminals-snoc reader.emitted e ∙ rw goes refl)

pub attempt-view :
    {A : Type 0} (call : Rows → A × Rows) (good : A → Step) (bad : Step) (reader : ChannelReader)
    → ((a : A) → IsQuiet (good a))
    → IsQuiet bad
    → view (attempt call good bad reader) ≡ view reader
attempt-view call good bad reader g b =
    attempt_lem (λ r. view r ≡ view reader) call good bad reader
      (λ faults. g (call reader.ledger).0 _) (λ faults. b _)

pub stay-IsQuiet : IsQuiet stay
unfolding stay
stay-IsQuiet reader = refl

pub discard-IsQuiet : IsQuiet discard_streaming_tails
unfolding discard_streaming_tails set_trackers
discard-IsQuiet reader = attempt-view _ _ _ reader (λ _ r. refl) (λ r. refl)

thinking_block_of-IsQuiet :
    (next : ℕ → Step) (o : Option ℕ)
    → ((id : ℕ) → IsQuiet (next id))
    → IsQuiet (thinking_block_of next o)
unfolding thinking_block_of
thinking_block_of-IsQuiet next none q reader =
    attempt-view _ _ _ reader (λ id r. q id _) stay-IsQuiet
thinking_block_of-IsQuiet next (some id) q reader = q id reader

pub with_thinking-IsQuiet :
    (next : ℕ → Step) → ((id : ℕ) → IsQuiet (next id)) → IsQuiet (with_thinking_block next)
unfolding with_thinking_block
with_thinking-IsQuiet next q reader =
    thinking_block_of-IsQuiet next reader.trackers.current_thinking_block q reader
