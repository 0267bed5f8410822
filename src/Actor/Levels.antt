-- ===== src/Actor/Levels.antt =====
-- The keys of `ReasoningLevel` of providers/types.rs.
use ronna_core.Prelude.{
  String, Option, none, some, ◌≡◌, refl, sym, ap, ◌∙◌, str_eq, if◌then◌else◌, if_split, ◌↔◌,
}
use mathlib.Core.Option.{some-injective}
use text.Mathlib.TextEquality.{eq_iff}
use ronna_core.Actor.State.{ReasoningLevel, as_key, from_key}

-- One test of `from_key`.
key_step :
    (key text : String) (level found : ReasoningLevel) (rest : Option ReasoningLevel)
    → as_key found ≡ text
    → (rest ≡ some level → as_key level ≡ key)
    → (if str_eq key text then some found else rest) ≡ some level
    → as_key level ≡ key
key_step key text level found rest named later =
    if_split (λ o. o ≡ some level → as_key level ≡ key) (str_eq key text)
      (λ same e. ap as_key (sym (some-injective _ _ e)) ∙ named ∙ sym ((eq_iff key text).0 same))
      (λ _. later)

key_back : (level : ReasoningLevel) → from_key (as_key level) ≡ some level
unfolding as_key from_key
key_back ReasoningLevel.off = refl
key_back ReasoningLevel.auto = refl
key_back ReasoningLevel.minimal = refl
key_back ReasoningLevel.low = refl
key_back ReasoningLevel.medium = refl
key_back ReasoningLevel.high = refl
key_back ReasoningLevel.x_high = refl
key_back ReasoningLevel.max = refl

-- A key is read as a level exactly when it is the key that the level is written as; so what is
-- stored of a level is read back, and two levels have different keys.
pub from_key-as_key :
    (key : String) (level : ReasoningLevel) → (from_key key ≡ some level) ↔ (as_key level ≡ key)
unfolding as_key from_key
from_key-as_key key level = (
  key_step key "off" level ReasoningLevel.off _ refl (
      key_step key "auto" level ReasoningLevel.auto _ refl (
        key_step key "minimal" level ReasoningLevel.minimal _ refl (
          key_step key "low" level ReasoningLevel.low _ refl (
            key_step key "medium" level ReasoningLevel.medium _ refl (
              key_step key "high" level ReasoningLevel.high _ refl (
                key_step key "xhigh" level ReasoningLevel.x_high _ refl
                  (key_step key "max" level ReasoningLevel.max none refl (λ e. cc)))))))),
  λ e. ap from_key (sym e) ∙ key_back level,
)
