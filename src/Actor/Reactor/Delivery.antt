-- ===== src/Actor/Reactor/Delivery.antt =====
-- Where the reactor delivers an event: `route_event` of actor.rs.
use ronna_core.Prelude.{
  ℕ, Bool, true, false, not, Option, none, some, List, [], ◌∷◌, ◌++◌, ◌≡◌, refl, sym, ap, ◌∙◌, ◌==◌,
  ==_iff, ==_refl, if◌then◌else◌, if_lem, if_split, any, filter, map, get_or, or_else, is_some,
  arith, ◌||◌,
}
use ronna_core.Event.{CoreEvent}
use ronna_core.Actor.Reactor.{
  conversation_id, accepts, ActorEntry, spawn_actor_set, send_accepted, send_to, with_entry,
  route_live, route_event, mailbox_of,
}

-- What a mailbox holds after an event.
abbrev pub received : CoreEvent → List CoreEvent → List CoreEvent
received event mailbox = if accepts event then mailbox ++ (event ∷ []) else mailbox

abbrev map_option : {A B : Type 0} → (A → B) → Option A → Option B
map_option f none = none
map_option f (some a) = some (f a)

sent-mailbox :
    (event : CoreEvent) (entry : ActorEntry)
    → (send_accepted event entry).mailbox ≡ received event entry.mailbox
unfolding send_accepted
sent-mailbox event entry = over (accepts event)
  where
    over :
        (b : Bool)
        → (if b then record entry { mailbox = entry.mailbox ++ (event ∷ []) } else entry).mailbox
          ≡ (if b then entry.mailbox ++ (event ∷ []) else entry.mailbox)
    over true = refl
    over false = refl

sent-conversation :
    (event : CoreEvent) (entry : ActorEntry)
    → (send_accepted event entry).conversation ≡ entry.conversation
unfolding send_accepted
sent-conversation event entry =
    if_lem (λ (e : ActorEntry). e.conversation ≡ entry.conversation) (accepts event) refl refl

to-mailbox :
    (c : ℕ) (event : CoreEvent) (entry : ActorEntry)
    → (send_to c event entry).mailbox
      ≡ (if entry.conversation == c then received event entry.mailbox else entry.mailbox)
unfolding send_to
to-mailbox c event entry = over (entry.conversation == c)
  where
    over :
        (b : Bool)
        → (if b then send_accepted event entry else entry).mailbox
          ≡ (if b then received event entry.mailbox else entry.mailbox)
    over true = sent-mailbox event entry
    over false = refl

to-conversation :
    (c : ℕ) (event : CoreEvent) (entry : ActorEntry)
    → (send_to c event entry).conversation ≡ entry.conversation
unfolding send_to
to-conversation c event entry =
    if_lem (λ (e : ActorEntry). e.conversation ≡ entry.conversation) (entry.conversation == c)
      (sent-conversation event entry) refl

-- One mailbox of the map: `k` says that it is the event's, `p` that it is asked for, `q` that the
-- event's is.
one_mailbox :
    {A : Type 0} (f : A → A) (k p q : Bool) (m : A) (r r' : Option A)
    → r' ≡ (if q then map_option f r else r)
    → (k ≡ true → p ≡ q)
    → (k ≡ false → p ≡ true → q ≡ false)
    → (if p then some (if k then f m else m) else r')
      ≡ (if q then map_option f (if p then some m else r) else (if p then some m else r))
one_mailbox f true true q m r r' e same apart = rw (sym (same refl)) refl
one_mailbox f true false q m r r' e same apart = e
one_mailbox f false true q m r r' e same apart = rw (apart refl refl) refl
one_mailbox f false false q m r r' e same apart = e

-- The actor of the conversation gets the event, and no other.
mailbox_of-sent :
    (c d : ℕ) (event : CoreEvent) (routes : List ActorEntry)
    → mailbox_of d (map (send_to c event) routes)
      ≡ (if c == d then map_option (received event) (mailbox_of d routes) else mailbox_of d routes)
unfolding mailbox_of
mailbox_of-sent c d event [] = if_lem (λ (o : Option (List CoreEvent)). none ≡ o) (c == d) refl refl
mailbox_of-sent c d event (entry ∷ routes) =
    let later = mailbox_of d (map (send_to c event) routes) in
    ap (λ n. if n == d then some (send_to c event entry).mailbox else later)
      (to-conversation c event entry)
    ∙ ap (λ m. if entry.conversation == d then some m else later) (to-mailbox c event entry)
    ∙ one_mailbox (received event) (entry.conversation == c) (entry.conversation == d) (c == d)
        entry.mailbox (mailbox_of d routes) later (mailbox_of-sent c d event routes)
        (λ same. ap (λ n. n == d) ((==_iff entry.conversation c).0 same))
        (λ off at. ground (arith, off, at))

mailbox_of-append :
    (d : ℕ) (routes : List ActorEntry) (entry : ActorEntry)
    → mailbox_of d (routes ++ (entry ∷ []))
      ≡ or_else (mailbox_of d routes) (mailbox_of d (entry ∷ []))
unfolding mailbox_of
mailbox_of-append d [] entry = refl
mailbox_of-append d (first ∷ routes) entry =
    over (first.conversation == d) _ _ _ (mailbox_of-append d routes entry)
  where
    over :
        (b : Bool) (o o' l : Option (List CoreEvent))
        → o ≡ or_else o' l
        → (if b then some first.mailbox else o) ≡ or_else (if b then some first.mailbox else o') l
    over true o o' l e = refl
    over false o o' l e = e

any-mailbox_of :
    (c : ℕ) (routes : List ActorEntry)
    → is_some (mailbox_of c routes) ≡ any (λ entry. entry.conversation == c) routes
unfolding mailbox_of any
any-mailbox_of c [] = refl
any-mailbox_of c (entry ∷ routes) = over (entry.conversation == c) _ _ (any-mailbox_of c routes)
  where
    over :
        (b : Bool) (o : Option (List CoreEvent)) (n : Bool)
        → is_some o ≡ n
        → is_some (if b then some entry.mailbox else o) ≡ b || n
    over true o n e = refl
    over false o n e = e

fresh_mailbox :
    (c d : ℕ) → mailbox_of d (spawn_actor_set c ∷ []) ≡ (if c == d then some [] else none)
unfolding mailbox_of spawn_actor_set
fresh_mailbox c d = refl

mailbox_of-with_entry :
    (c : ℕ) (routes : List ActorEntry)
    → mailbox_of c (with_entry c routes) ≡ some (get_or (mailbox_of c routes) [])
unfolding with_entry
mailbox_of-with_entry c routes =
    if_split (λ rs. mailbox_of c rs ≡ some (get_or (mailbox_of c routes) []))
      (any (λ entry. entry.conversation == c) routes)
      (λ there. present (mailbox_of c routes) (any-mailbox_of c routes ∙ there))
      (λ _. mailbox_of-append c routes (spawn_actor_set c) ∙ fresh)
  where
    present : (o : Option (List CoreEvent)) → is_some o ≡ true → o ≡ some (get_or o [])
    present none e = cc
    present (some m) e = refl

    opened : (o : Option (List CoreEvent)) → or_else o (some []) ≡ some (get_or o [])
    opened none = refl
    opened (some m) = refl

    fresh :
        or_else (mailbox_of c routes) (mailbox_of c (spawn_actor_set c ∷ []))
        ≡ some (get_or (mailbox_of c routes) [])
    fresh =
        ap (λ o. or_else (mailbox_of c routes) o)
          (fresh_mailbox c c ∙ ap (λ b. if b then some [] else none) (==_refl c))
        ∙ opened (mailbox_of c routes)

mailbox_of-with_other :
    (c d : ℕ) (routes : List ActorEntry)
    → (c == d) ≡ false
    → mailbox_of d (with_entry c routes) ≡ mailbox_of d routes
unfolding with_entry
mailbox_of-with_other c d routes apart =
    if_split (λ rs. mailbox_of d rs ≡ mailbox_of d routes)
      (any (λ entry. entry.conversation == c) routes) (λ _. refl)
      (λ _. mailbox_of-append d routes (spawn_actor_set c) ∙ skipped)
  where
    opened : (o : Option (List CoreEvent)) → or_else o none ≡ o
    opened none = refl
    opened (some m) = refl

    skipped :
        or_else (mailbox_of d routes) (mailbox_of d (spawn_actor_set c ∷ [])) ≡ mailbox_of d routes
    skipped =
        ap (λ o. or_else (mailbox_of d routes) o)
          (fresh_mailbox c d ∙ ap (λ b. if b then some [] else none) apart)
        ∙ opened (mailbox_of d routes)

-- An event of a conversation goes to that conversation's actor, which is made if none is live, if
-- the actor takes such events; every other live actor's mailbox is as it was.
pub mailbox_of-route_event :
    (event : CoreEvent) (c d : ℕ) (routes : List ActorEntry)
    → conversation_id event ≡ some c
    → let live = filter (λ entry. not entry.is_closed) routes in
      mailbox_of d (route_event event routes) ≡ (
        if c == d then some (received event (get_or (mailbox_of c live) [])) else mailbox_of d live)
unfolding route_event route_live
mailbox_of-route_event event c d routes e =
    let live = filter (λ entry. not entry.is_closed) routes in
    ap (λ o. mailbox_of d (route_live o event live)) e
    ∙ mailbox_of-sent c d event (with_entry c live)
    ∙ over live (c == d) refl
  where
    over :
        (live : List ActorEntry) (b : Bool)
        → (c == d) ≡ b
        → (if b
            then map_option (received event) (mailbox_of d (with_entry c live))
            else mailbox_of d (with_entry c live))
          ≡ (if b then some (received event (get_or (mailbox_of c live) [])) else mailbox_of d live)
    over live true same = ap (map_option (received event)) (
        ap (λ x. mailbox_of x (with_entry c live)) (sym ((==_iff c d).0 same))
        ∙ mailbox_of-with_entry c live)
    over live false apart = mailbox_of-with_other c d live apart
