-- ===== src/Events/Delivery.antt =====
-- What a subscriber gets of the events that are broadcast while it does not read.
use mathlib.Core.Option.{some-injective}
use teldrive_easy.Prelude.{
  ℕ, zero, suc, ◌-◌, ◌≤◌, ◌<◌, ◌≡◌, ◌≢◌, inl, inr, refl, sym, ap, ap₂, ◌∙◌, Bool, true, false, ◌&&◌,
  List, [], ◌∷◌, ◌++◌, some, ◌==◌, if◌then◌else◌, length, length-append, take, map, arith, ltb-true,
  ltb-false, ℕ_discrete, ==_true, ==_false, Bool-cases, dec_lt, append_assoc, append-nil, take_zero,
  take-nil,
}
use teldrive_easy.Events.Maps.{lookup, lookup_here, lookup_there}
use teldrive_easy.Events.Broadcaster.{
  BaseBroadcaster, Event, EventType, EventSubscriber, admits, offer, update, broadcast,
  channel_size,
}

-- The events for a user that pass the filters.
unfoldable pub wanted : ℕ → List EventType → List Event → List Event
wanted user filters [] = []
wanted user filters (evt ∷ events) =
    let rest = wanted user filters events in
    if (evt.user_id == user) && admits filters evt.kind then evt ∷ rest else rest

unfoldable pub broadcast_all : List Event → BaseBroadcaster → BaseBroadcaster
broadcast_all [] b = b
broadcast_all (evt ∷ events) b = broadcast_all events (broadcast evt b)

-- A subscriber with more events in its channel.
abbrev pub with_more : List Event → EventSubscriber → EventSubscriber
with_more more s = record s { queue = s.queue ++ more }

abbrev pub room : EventSubscriber → ℕ
room s = channel_size - length s.queue

abbrev pub served : ℕ → List Event → EventSubscriber → EventSubscriber
served user events s = with_more (take (room s) (wanted user s.filters events)) s

lookup-update_self :
    (user : ℕ) (f : List EventSubscriber → List EventSubscriber)
    (m : List (ℕ × List EventSubscriber)) (subs : List EventSubscriber)
    → lookup user m ≡ some subs
    → lookup user (update user f m) ≡ some (f subs)
unfolding lookup update
lookup-update_self user f [] subs h = cc
lookup-update_self user f ((u, old) ∷ m) subs h = elim (ℕ_discrete u user) [
  | yes e ↦
      rw (==_true u user e, lookup, ==_true u user e)
        (ap (λ x. some (f x)) (some-injective old subs (sym (lookup_here u user old m e) ∙ h)))
  | no n ↦
      rw (==_false u user n, lookup, ==_false u user n)
        (lookup-update_self user f m subs (sym (lookup_there u user old m n) ∙ h))
]

lookup-update_ne :
    (user other : ℕ) (f : List EventSubscriber → List EventSubscriber)
    (m : List (ℕ × List EventSubscriber))
    → other ≢ user
    → lookup user (update other f m) ≡ lookup user m
unfolding lookup update
lookup-update_ne user other f [] n = refl
lookup-update_ne user other f ((u, old) ∷ m) n = elim (ℕ_discrete u other) [
  | yes e ↦
      rw (==_true u other e, lookup, ==_false u user (λ e'. n (sym e ∙ e')))
        (lookup-update_ne user other f m n)
  | no n' ↦
      rw (==_false u other n', lookup)
        (ap (λ r. if u == user then some old else r) (lookup-update_ne user other f m n))
]

-- One event, offered.
offer_full : (evt : Event) (s : EventSubscriber) → channel_size ≤ length s.queue → offer evt s ≡ s
unfolding offer
offer_full evt s h = elim (Bool-cases (admits s.filters evt.kind)) [
  | inl e ↦ rw (e, ltb-false {a = length s.queue} {b = channel_size} h) refl
  | inr e ↦ rw e refl
]

offer_unwanted :
    (evt : Event) (s : EventSubscriber) → admits s.filters evt.kind ≡ false → offer evt s ≡ s
unfolding offer
offer_unwanted evt s e = rw e refl

offer_wanted :
    (evt : Event) (s : EventSubscriber)
    → admits s.filters evt.kind ≡ true
    → length s.queue < channel_size
    → offer evt s ≡ with_more (evt ∷ []) s
unfolding offer
offer_wanted evt s e h = rw (e, ltb-true {a = length s.queue} {b = channel_size} h) refl

wanted_yes :
    (user : ℕ) (filters : List EventType) (evt : Event) (events : List Event)
    → evt.user_id ≡ user
    → admits filters evt.kind ≡ true
    → wanted user filters (evt ∷ events) ≡ evt ∷ wanted user filters events
unfolding wanted
wanted_yes user filters evt events e e' = rw (==_true evt.user_id user e, e') refl

wanted_no :
    (user : ℕ) (filters : List EventType) (evt : Event) (events : List Event)
    → admits filters evt.kind ≡ false
    → wanted user filters (evt ∷ events) ≡ wanted user filters events
unfolding wanted
wanted_no user filters evt events e' = go (evt.user_id == user)
  where
    go :
        (c : Bool)
        → (if c && admits filters evt.kind
            then evt ∷ wanted user filters events
            else wanted user filters events)
          ≡ wanted user filters events
    go true = rw e' refl
    go false = refl

wanted_other :
    (user : ℕ) (filters : List EventType) (evt : Event) (events : List Event)
    → evt.user_id ≢ user
    → wanted user filters (evt ∷ events) ≡ wanted user filters events
unfolding wanted
wanted_other user filters evt events n = rw (==_false evt.user_id user n) refl

take_more : (n : ℕ) (x : Event) (xs : List Event) → 0 < n → take n (x ∷ xs) ≡ x ∷ take (n - 1) xs
unfolding take
take_more zero x xs h = absurd (omega arith)
take_more (suc n) x xs h = ap (λ k. x ∷ take k xs) (omega arith)

-- Offering the first event and serving the rest is serving all.
served_next :
    (user : ℕ) (evt : Event) (events : List Event) (s : EventSubscriber)
    → evt.user_id ≡ user
    → served user events (offer evt s) ≡ served user (evt ∷ events) s
served_next user evt events s e = elim (Bool-cases (admits s.filters evt.kind)) [
  | inr no_match ↦
      ap (served user events) (offer_unwanted evt s no_match)
      ∙ ap (λ es. with_more (take (room s) es) s)
          (sym (wanted_no user s.filters evt events no_match))
  | inl match_ ↦ elim (dec_lt (length s.queue) channel_size) [
    | no full ↦
        let none_left : room s ≡ 0 = omega arith in
        ap (served user events) (offer_full evt s (omega arith))
        ∙ ap (λ es. with_more es s)
            (ap (λ n. take n (wanted user s.filters events)) none_left
              ∙ take_zero (wanted user s.filters events)
              ∙ sym (take_zero (wanted user s.filters (evt ∷ events)))
              ∙ ap (λ n. take n (wanted user s.filters (evt ∷ events))) (sym none_left))
    | yes free ↦
        let fewer : room (with_more (evt ∷ []) s) ≡ room s - 1 =
          omega (arith, length-append s.queue (evt ∷ [])) in
        ap (served user events) (offer_wanted evt s match_ free)
        ∙ ap (λ n. with_more (take n (wanted user s.filters events)) (with_more (evt ∷ []) s)) fewer
        ∙ ap (λ q. record s { queue = q })
            (append_assoc s.queue (evt ∷ []) (take (room s - 1) (wanted user s.filters events)))
        ∙ ap (λ es. with_more es s)
            (sym (take_more (room s) evt (wanted user s.filters events) (omega arith))
              ∙ ap (take (room s)) (sym (wanted_yes user s.filters evt events e match_)))
  ]
]

map_next :
    (user : ℕ) (evt : Event) (events : List Event) (subs : List EventSubscriber)
    → evt.user_id ≡ user
    → map (served user events) (map (offer evt) subs) ≡ map (served user (evt ∷ events)) subs
map_next user evt events [] e = refl
map_next user evt events (s ∷ subs) e =
    ap₂ ◌∷◌ (served_next user evt events s e) (map_next user evt events subs e)

map_other :
    (user : ℕ) (evt : Event) (events : List Event) (subs : List EventSubscriber)
    → evt.user_id ≢ user
    → map (served user events) subs ≡ map (served user (evt ∷ events)) subs
map_other user evt events [] n = refl
map_other user evt events (s ∷ subs) n =
    ap₂ ◌∷◌
      (ap (λ es. with_more (take (room s) es) s) (sym (wanted_other user s.filters evt events n)))
      (map_other user evt events subs n)

map_none : (user : ℕ) (subs : List EventSubscriber) → subs ≡ map (served user []) subs
unfolding wanted take
map_none user [] = refl
map_none user (s ∷ subs) =
    ap₂ ◌∷◌
      (ap (λ q. record s { queue = q })
        (sym (append-nil s.queue) ∙ ap (◌++◌ s.queue) (sym (take-nil (room s)))))
      (map_none user subs)

-- Delivery: while a user's subscribers do not read, a sequence of broadcasts leaves in the channel
-- of each, behind what it held, the events for that user that pass its filters, in order and each
-- once, as far as the channel has room; what comes later is dropped. Events for other users change
-- nothing.
pub lookup-broadcast_all :
    (user : ℕ) (events : List Event) (b : BaseBroadcaster) (subs : List EventSubscriber)
    → lookup user b.subscribers ≡ some subs
    → lookup user (broadcast_all events b).subscribers ≡ some (map (served user events) subs)
unfolding broadcast_all broadcast
lookup-broadcast_all user [] b subs h = h ∙ ap some (map_none user subs)
lookup-broadcast_all user (evt ∷ events) b subs h = elim (ℕ_discrete evt.user_id user) [
  | yes e ↦
      lookup-broadcast_all user events (broadcast evt b) (map (offer evt) subs) (
        ap (λ u. lookup user (update u (map (offer evt)) b.subscribers)) e
        ∙ lookup-update_self user (map (offer evt)) b.subscribers subs h)
      ∙ ap some (map_next user evt events subs e)
  | no n ↦
      lookup-broadcast_all user events (broadcast evt b) subs
        (lookup-update_ne user evt.user_id (map (offer evt)) b.subscribers n ∙ h)
      ∙ ap some (map_other user evt events subs n)
]
