-- ===== src/Tools/Registry/Ordered.antt =====
-- A registry keeps its names in order, and no name twice: `ToolRegistry::register` of
-- agent-ledger/src/tools/mod.rs.
use ronna_core.Prelude.{
  String, Bool, true, false, Option, none, some, [], ◌∷◌, ◌≡◌, refl, sym, ap, ◌∙◌, str_eq,
  if◌then◌else◌, is_some, Bool-cases, inl, inr, subst,
}
use mathlib.Core.Option.{some-injective}
use Prim.Native.String.{compare}
use Prim.Native.Nat.{Ordering}
use text.Mathlib.TextEquality.{eq_iff, path_by_compare}
use text.Mathlib.TextPositions.{compare_refl}
use ronna_core.Tools.Registry.{ToolRegistry, ToolHandler, get, insert_handler, register}
use ronna_core.Tools.Registry.TextOrder.{eq-not_lt, compare-after, compare_trans}

-- A name comes before every name of the registry.
pub IsBefore : String → ToolRegistry → Type 0
IsBefore name [] = Unit
IsBefore name ((key, h) ∷ rest) = (compare name key ≡ Ordering.lt) × IsBefore name rest

pub IsOrdered : ToolRegistry → Type 0
IsOrdered [] = Unit
IsOrdered ((key, h) ∷ rest) = IsBefore key rest × IsOrdered rest

pub IsOrdered-one : (key : String) (h : ToolHandler) → IsOrdered ((key, h) ∷ [])
unfolding IsOrdered IsBefore
IsOrdered-one key h = (tt, tt)

-- What a registration comes to: a panic on a name that has a handler; otherwise an ordered registry
-- in which the new name has the handler, and every other name has what it had.
pub Registers : String → ToolHandler → ToolRegistry → Option ToolRegistry → Type 0
Registers name h registry none = is_some (get registry name) ≡ true
Registers name h registry (some after) =
    (get registry name ≡ none)
    × IsOrdered after
    × ((other : String)
        → get after other ≡ (if str_eq name other then some h else get registry other))

none-not_some : {A : Type 0} {a : A} → ¬ (none ≡ some a)
none-not_some e = cc

found_one :
    {A : Type 0} (b : Bool) (a : A) (o : Option A)
    → is_some o ≡ true
    → is_some (if b then some a else o) ≡ true
found_one true a o e = refl
found_one false a o e = e

swapped :
    {A : Type 0} (first second : Bool) (a b o : Option A)
    → (first ≡ true → second ≡ false)
    → (if first then a else if second then b else o)
      ≡ (if second then b else if first then a else o)
swapped true second a b o h = rw (h refl) refl
swapped false second a b o h = refl

-- A text is not one that it comes before.
key_apart : (a b : String) → compare a b ≡ Ordering.lt → str_eq a b ≡ false
key_apart a b e = elim (Bool-cases (str_eq a b)) [
  | inr apart ↦ apart
  | inl same ↦ absurd (eq-not_lt (sym (compare_refl a) ∙ ap (compare a) ((eq_iff a b).0 same) ∙ e))
]

not_same : (a b : String) → compare a b ≡ Ordering.lt → str_eq b a ≡ false
not_same a b e = elim (Bool-cases (str_eq b a)) [
  | inr apart ↦ apart
  | inl same ↦
      absurd (eq-not_lt (sym (compare_refl a) ∙ ap (compare a) (sym ((eq_iff b a).0 same)) ∙ e))
]

get-before :
    (name : String) (registry : ToolRegistry) → IsBefore name registry → get registry name ≡ none
unfolding get IsBefore
get-before name [] before = refl
get-before name ((key, h) ∷ rest) (e, before) =
    rw (not_same name key e) (get-before name rest before)

IsBefore-trans :
    (a b : String) (registry : ToolRegistry)
    → compare a b ≡ Ordering.lt
    → IsBefore b registry
    → IsBefore a registry
unfolding IsBefore
IsBefore-trans a b [] e before = tt
IsBefore-trans a b ((key, h) ∷ rest) e (g, before) =
    (compare_trans a b key e g, IsBefore-trans a b rest e before)

rest-IsOrdered :
    (key : String) (k : ToolHandler) (rest : ToolRegistry)
    → IsOrdered ((key, k) ∷ rest)
    → IsOrdered rest
unfolding IsOrdered
rest-IsOrdered key k rest (above, ordered) = ordered

module _ (name : String) (h : ToolHandler) where
  -- What an insertion keeps, for the names before the registry.
  Inserts : ToolRegistry → Option ToolRegistry → Type 0
  Inserts registry answer =
      Registers name h registry answer
      × ((key : String) (after : ToolRegistry)
          → answer ≡ some after
          → compare key name ≡ Ordering.lt
          → IsBefore key registry
          → IsBefore key after)

  placed :
      (registry : ToolRegistry)
      → IsBefore name registry
      → IsOrdered registry
      → Inserts registry (some ((name, h) ∷ registry))
  unfolding Inserts Registers IsOrdered get
  placed registry before ordered = (
    (get-before name registry before, (before, ordered), λ other. refl),
    λ key after e lt above.
        subst (IsBefore key) (some-injective _ _ e) (unfold IsBefore in (lt, above)),
  )

  occupied :
      (key : String) (k : ToolHandler) (rest : ToolRegistry)
      → compare name key ≡ Ordering.eq
      → Inserts ((key, k) ∷ rest) none
  unfolding Inserts Registers get
  occupied key k rest same = (
    rw ((eq_iff key name).1 (sym (path_by_compare name key same))) refl,
    λ a after e lt above. absurd (none-not_some e),
  )

  IsBefore-all :
      (key : String) (k : ToolHandler) (rest : ToolRegistry)
      → compare name key ≡ Ordering.lt
      → IsOrdered ((key, k) ∷ rest)
      → IsBefore name ((key, k) ∷ rest)
  unfolding IsOrdered IsBefore
  IsBefore-all key k rest first (above, ordered) = (first, IsBefore-trans name key rest first above)

  -- A key before the name is not a name that is equal to it.
  apart :
      (key other : String)
      → compare key name ≡ Ordering.lt
      → str_eq key other ≡ true
      → str_eq name other ≡ false
  apart key other under same =
      subst (λ k. str_eq name k ≡ false) ((eq_iff key other).0 same) (not_same key name under)

  pushed :
      (key : String) (k : ToolHandler) (rest : ToolRegistry) (later : Option ToolRegistry)
      → compare name key ≡ Ordering.gt
      → IsOrdered ((key, k) ∷ rest)
      → Inserts rest later
      → Inserts ((key, k) ∷ rest) (elim later [ none ↦ none | some r ↦ some ((key, k) ∷ r) ])
  unfolding Inserts Registers IsOrdered IsBefore get
  pushed key k rest none after_it ordered (found, keeps) = (
    found_one (str_eq key name) k (get rest name) found,
    λ a after e lt above. absurd (none-not_some e),
  )
  pushed key k rest (some r) after_it (above, ordered) ((absent, in_order, looks), keeps) =
      let under : compare key name ≡ Ordering.lt = compare-after name key after_it in
      (
        (
          rw (key_apart key name under) absent,
          (keeps key r refl under above, in_order),
          λ other.
              ap (λ o. if str_eq key other then some k else o) (looks other)
              ∙ swapped (str_eq key other) (str_eq name other) (some k) (some h) (get rest other)
                  (apart key other under),
        ),
        λ a after e lt (over, above_a).
            subst (IsBefore a) (some-injective _ _ e)
              (unfold IsBefore in (over, keeps a r refl lt above_a)),
      )

  insert_handler-Inserts :
      (registry : ToolRegistry)
      → IsOrdered registry
      → Inserts registry (insert_handler name h registry)
  unfolding insert_handler
  insert_handler-Inserts [] ordered = placed [] (unfold IsBefore in tt) ordered
  insert_handler-Inserts ((key, k) ∷ rest) ordered =
      over (compare name key) refl (insert_handler-Inserts rest (rest-IsOrdered key k rest ordered))
    where
      over :
          (o : Ordering)
          → compare name key ≡ o
          → Inserts rest (insert_handler name h rest)
          → Inserts ((key, k) ∷ rest) (elim o [
            | Ordering.lt ↦ some ((name, h) ∷ (key, k) ∷ rest)
            | Ordering.eq ↦ none
            | Ordering.gt ↦ elim (insert_handler name h rest) [
              | none ↦ none
              | some r ↦ some ((key, k) ∷ r)
            ]
          ])
      over Ordering.lt first later =
          placed ((key, k) ∷ rest) (IsBefore-all key k rest first ordered) ordered
      over Ordering.eq same later = occupied key k rest same
      over Ordering.gt after_it later =
          pushed key k rest (insert_handler name h rest) after_it ordered later

-- In an ordered registry a registration panics exactly if the name has a handler. Otherwise the
-- registry is ordered again, the name, which had no handler, has the new one, and a lookup of every
-- other name is as it was.
pub register-Registers :
    (name : String) (h : ToolHandler) (registry : ToolRegistry)
    → IsOrdered registry
    → Registers name h registry (register name h registry)
unfolding register Inserts
register-Registers name h registry ordered = (insert_handler-Inserts name h registry ordered).0
