-- ===== src/Tools/Offered.antt =====
-- Which tools a conversation has: `ToolRegistry` of tools/mod.rs and `ResolvedTools` of
-- tools/choice.rs.
use ronna_core.Prelude.{
  String, Bool, true, false, ◌&&◌, ◌||◌, Option, none, some, List, [], ◌∷◌, ◌++◌, ◌≡◌, refl, sym,
  ap, ◌∙◌, str_eq, if◌then◌else◌, is_some, bind, any, filter, arith, rev, rev-snoc, scan,
  scan_unique, or_else, find_map,
}
use text.Mathlib.TextEquality.{eq_iff}
use ronna_core.Block.{Block}
use ronna_core.Agency.Kinds.{BlockKind, from_block}
use ronna_core.Agency.Records.{ToolChoice}
use ronna_core.Tools.Registry.{ToolRegistry, ToolHandler, get, names}
use ronna_core.Tools.Choice.{choice_of, newest_in, holds, chosen, from_choice, of_ledger, handler}

found_one :
    {A : Type 0} (b n : Bool) (a : A) (o : Option A)
    → is_some o ≡ n
    → is_some (if b then some a else o) ≡ b || n
found_one true n a o e = refl
found_one false n a o e = e

get-names :
    (registry : ToolRegistry) (name : String)
    → is_some (get registry name) ≡ holds (names registry) name
unfolding get names holds any
get-names [] name = refl
get-names ((key, h) ∷ rest) name =
    found_one (str_eq key name) _ h (get rest name) (get-names rest name)

filtered_one :
    (b px pn : Bool) (r n : Bool)
    → r ≡ n && pn
    → (b ≡ true → px ≡ pn)
    → (if px then b || r else r) ≡ (b || n) && pn
filtered_one true px pn r n e same = rw (same refl) ground arith
filtered_one false true pn r n e same = e
filtered_one false false pn r n e same = e

any-if :
    (q : String → Bool) (px : Bool) (x : String) (xs : List String)
    → any q (if px then x ∷ xs else xs) ≡ (if px then q x || any q xs else any q xs)
unfolding any
any-if q true x xs = refl
any-if q false x xs = refl

-- The choice's test on a name is that on any equal name.
holds-filter :
    (p : String → Bool) (xs : List String) (name : String)
    → holds (filter p xs) name ≡ holds xs name && p name
unfolding holds any filter
holds-filter p [] name = refl
holds-filter p (x ∷ xs) name =
    any-if _ (p x) x (filter p xs)
    ∙ filtered_one (str_eq x name) (p x) (p name) _ _ (holds-filter p xs name)
        (λ same. ap p ((eq_iff x name).0 same))

names_in : BlockKind → Option (List String) → Option (List String)
names_in (BlockKind.tool_choice choice) before = some choice.names
names_in kind before = before

-- A row that is a choice takes the place of the choice before it.
pub note_choice : Block → Option (List String) → Option (List String)
note_choice block before = names_in (from_block block) before

-- Whether a name is in a list, with no list for any name.
pub is_among : String → Option (List String) → Bool
is_among name none = true
is_among name (some []) = false
is_among name (some (first ∷ rest)) = str_eq first name || is_among name (some rest)

names_of : Option ToolChoice → Option (List String)
names_of none = none
names_of (some choice) = some choice.names

choice_over :
    (block : Block) (o : Option ToolChoice)
    → names_of (or_else (choice_of (from_block block)) o) ≡ note_choice block (names_of o)
unfolding note_choice names_in names_of choice_of
choice_over block o = over (from_block block)
  where
    over : (kind : BlockKind) → names_of (or_else (choice_of kind) o) ≡ names_in kind (names_of o)
    over (BlockKind.tool_choice choice) = refl
    over kind = refl

newest_in-snoc :
    (ledger : List Block) (block : Block)
    → names_of (newest_in (ledger ++ (block ∷ [])))
      ≡ note_choice block (names_of (newest_in ledger))
unfolding newest_in find_map
newest_in-snoc ledger block = rw (rev-snoc ledger block) (choice_over block (newest_in ledger))

newest_in-scan : (ledger : List Block) → names_of (newest_in ledger) ≡ scan note_choice none ledger
newest_in-scan ledger =
    scan_unique note_choice none (λ l. names_of (newest_in l))
      (unfold newest_in find_map rev names_of in refl) newest_in-snoc ledger

holds-is_among :
    (names : List String) (name : String) → holds names name ≡ is_among name (some names)
unfolding holds any is_among
holds-is_among [] name = refl
holds-is_among (first ∷ rest) name = ap (λ b. str_eq first name || b) (holds-is_among rest name)

chosen-is_among :
    (recorded : Option ToolChoice) (name : String)
    → chosen recorded name ≡ is_among name (names_of recorded)
unfolding chosen is_among names_of
chosen-is_among none name = refl
chosen-is_among (some choice) name = holds-is_among choice.names name

kept_if :
    (o : Option ToolHandler) (held named : Bool)
    → held ≡ is_some o && named
    → bind o (λ h. if held then some h else none) ≡ (if named then o else none)
kept_if none held true e = refl
kept_if none held false e = refl
kept_if (some h) held true e = rw e refl
kept_if (some h) held false e = rw e refl

-- A conversation has a tool exactly if the tool is registered and the last choice among its rows
-- names it, or no row is a choice; and the tool is then the registered one.
pub handler-of_ledger :
    (ledger : List Block) (registry : ToolRegistry) (name : String)
    → handler (of_ledger ledger registry) name
      ≡ (if is_among name (scan note_choice none ledger) then get registry name else none)
unfolding handler of_ledger from_choice
handler-of_ledger ledger registry name =
    let recorded = newest_in ledger in
    kept_if (get registry name) (holds (filter (chosen recorded) (names registry)) name)
      (is_among name (scan note_choice none ledger))
      (holds-filter (chosen recorded) (names registry) name
        ∙ ap (λ b. b && chosen recorded name) (sym (get-names registry name))
        ∙ ap (λ b. is_some (get registry name) && b)
            (chosen-is_among recorded name ∙ ap (is_among name) (newest_in-scan ledger)))
