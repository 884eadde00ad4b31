-- ===== src/Events/Pollers.antt =====
-- When polling goes on.
use mathlib.Core.Bool.{false≢true}
use teldrive_easy.Prelude.{
  ℕ, ◌+◌, ◌≤◌, ◌<◌, ◌≡◌, ◌↔◌, inl, inr, refl, sym, ap, ◌∙◌, Bool, true, false, List, [], ◌∷◌, ◌++◌,
  ◌==◌, if◌then◌else◌, length, length-append, length-map, arith, ltb, ℕ_discrete, ==_true, ==_false,
  Bool-cases, Option-cases, subst, map,
}
use teldrive_easy.Events.Maps.{lookup, put, delete}
use teldrive_easy.Events.Broadcaster.{
  BaseBroadcaster, BroadcasterConfig, Event, EventType, EventSubscriber, new_base_broadcaster,
  subs_of, without, put_subs, broadcast, update, offer, queue_for_db,
}
use teldrive_easy.Events.Broadcaster as Base
use teldrive_easy.Events.Polling.{
  PollingBroadcaster, new_polling_broadcaster, start_polling, stop_polling, total,
  get_total_subscribers, subscribe, unsubscribe, record_event, Call, subscribes, unsubscribes,
  records, shuts_down, shutdown, call, calls, joined, left, started, stopped,
}

total-delete_le : (k : ℕ) (m : List (ℕ × List EventSubscriber)) → total (delete k m) ≤ total m
unfolding total delete
total-delete_le k [] = omega arith
total-delete_le k ((j, subs) ∷ m) = elim (ℕ_discrete j k) [
  | yes e ↦ rw (==_true j k e) (omega (arith, total-delete_le k m))
  | no n ↦ rw (==_false j k n, total) (omega (arith, total-delete_le k m))
]

lookup_le : (k : ℕ) (m : List (ℕ × List EventSubscriber)) → length (subs_of (lookup k m)) ≤ total m
unfolding total lookup subs_of
lookup_le k [] = omega arith
lookup_le k ((j, subs) ∷ m) = elim (ℕ_discrete j k) [
  | yes e ↦ rw (==_true j k e) (omega arith)
  | no n ↦ rw (==_false j k n) (omega (arith, lookup_le k m))
]

length-without_le : (ch : ℕ) (subs : List EventSubscriber) → length (without ch subs) ≤ length subs
unfolding without
length-without_le ch [] = omega arith
length-without_le ch (s ∷ subs) = elim (Bool-cases (s.ch == ch)) [
  | inl e ↦ rw e (omega arith)
  | inr e ↦ rw e (omega (arith, length-without_le ch subs))
]

total-put :
    (k : ℕ) (subs : List EventSubscriber) (m : List (ℕ × List EventSubscriber))
    → total (put k subs m) ≡ length subs + total (delete k m)
unfolding total put
total-put k subs m = refl

-- A new subscriber, and one that goes.
total-subscribe :
    (user ch : ℕ) (types : List EventType) (b : BaseBroadcaster)
    → let n = total (Base.subscribe user ch types b).subscribers in
      (1 ≤ n) × (n ≤ 1 + (total b.subscribers + total b.subscribers))
unfolding Base.subscribe
total-subscribe user ch types b =
    let old = subs_of (lookup user b.subscribers) in
    let s : EventSubscriber = record { ch = ch; filters = types; queue = [] } in
    let n = total-put user (old ++ s ∷ []) b.subscribers in
    let l = length-append old (s ∷ []) in
    (
      omega (arith, n, l),
      omega (arith, n, l, lookup_le user b.subscribers, total-delete_le user b.subscribers),
    )

total-put_subs_le :
    (k : ℕ) (subs : List EventSubscriber) (m : List (ℕ × List EventSubscriber))
    → total (put_subs k subs m) ≤ length subs + total m
unfolding put_subs
total-put_subs_le k [] m = omega (arith, total-delete_le k m)
total-put_subs_le k (s ∷ subs) m = omega (arith, total-put k (s ∷ subs) m, total-delete_le k m)

total-unsubscribe :
    (user ch : ℕ) (b : BaseBroadcaster)
    → total (Base.unsubscribe user ch b).subscribers ≤ total b.subscribers + total b.subscribers
unfolding Base.unsubscribe subs_of
total-unsubscribe user ch b = elim (Option-cases (lookup user b.subscribers)) [
  | inl e ↦ rw (e, Base.unsubscribe) (omega arith)
  | inr (subs, e) ↦
      rw (e, Base.unsubscribe)
        (omega (
          arith,
          total-put_subs_le user (without ch subs) b.subscribers,
          length-without_le ch subs,
          subst (λ o. length (subs_of o) ≤ total b.subscribers) e (lookup_le user b.subscribers),
        ))
]

total-update :
    (user : ℕ) (evt : Event) (m : List (ℕ × List EventSubscriber))
    → total (update user (map (offer evt)) m) ≡ total m
unfolding total update
total-update user evt [] = refl
total-update user evt ((u, subs) ∷ m) = elim (Bool-cases (u == user)) [
  | inl e ↦ rw (e, total) (omega (arith, length-map subs (offer evt), total-update user evt m))
  | inr e ↦ rw (e, total) (omega (arith, total-update user evt m))
]

queue_same :
    (evt : Event) (b : BaseBroadcaster) → (queue_for_db evt b).1.subscribers ≡ b.subscribers
unfolding queue_for_db
queue_same evt b = go (ltb (length b.db_worker_ch) b.config.db_buffer_size)
  where
    go :
        (c : Bool)
        → (if◌then◌else◌ {A = Bool × BaseBroadcaster} c
            (true, record b { db_worker_ch = b.db_worker_ch ++ evt ∷ [] })
            (false, b)).1.subscribers
          ≡ b.subscribers
    go true = refl
    go false = refl

-- The goroutine is wanted exactly while somebody listens.
abbrev pub PollsWhileHeard : PollingBroadcaster → Type 0
PollsWhileHeard b = (b.polling ≡ true) ↔ (0 < get_total_subscribers b)

start-PollsWhileHeard :
    (now : ℕ) (b : PollingBroadcaster)
    → 0 < get_total_subscribers b
    → PollsWhileHeard (start_polling now b)
unfolding start_polling
start-PollsWhileHeard now b h = elim (Bool-cases b.polling) [
  | inl e ↦ rw e (λ _. h, λ _. refl)
  | inr e ↦ rw e (λ _. h, λ _. refl)
]

stop-PollsWhileHeard :
    (b : PollingBroadcaster) → get_total_subscribers b ≡ 0 → PollsWhileHeard (stop_polling b)
unfolding stop_polling
stop-PollsWhileHeard b h = elim (Bool-cases b.polling) [
  | inl e ↦ rw e (λ x. absurd (false≢true x), λ x. absurd (omega arith))
  | inr e ↦ rw e (λ x. absurd (false≢true x), λ x. absurd (omega arith))
]

subscribe-PollsWhileHeard :
    (now user ch : ℕ) (types : List EventType) (b : PollingBroadcaster)
    → PollsWhileHeard b
    → PollsWhileHeard (subscribe now user ch types b)
unfolding subscribe joined started
subscribe-PollsWhileHeard now user ch types b inv =
    let b' : PollingBroadcaster = record b { base = Base.subscribe user ch types b.base } in
    let (some_sub, few) = total-subscribe user ch types b.base in
    elim (ℕ_discrete (get_total_subscribers b') 1) [
      | yes e ↦ rw (==_true (get_total_subscribers b') 1 e) (start-PollsWhileHeard now b' some_sub)
      | no n ↦
          rw (==_false (get_total_subscribers b') 1 n) (λ _. some_sub, λ _. inv.1 (omega arith))
    ]

unsubscribe-PollsWhileHeard :
    (user ch : ℕ) (b : PollingBroadcaster)
    → PollsWhileHeard b
    → PollsWhileHeard (unsubscribe user ch b)
unfolding unsubscribe left stopped
unsubscribe-PollsWhileHeard user ch b inv =
    let b' : PollingBroadcaster = record b { base = Base.unsubscribe user ch b.base } in
    let few = total-unsubscribe user ch b.base in
    elim (ℕ_discrete (get_total_subscribers b') 0) [
      | yes e ↦ rw (==_true (get_total_subscribers b') 0 e) (stop-PollsWhileHeard b' e)
      | no n ↦
          rw (==_false (get_total_subscribers b') 0 n) (λ _. omega arith, λ _. inv.1 (omega arith))
    ]

record-PollsWhileHeard :
    (evt : Event) (b : PollingBroadcaster)
    → PollsWhileHeard b
    → PollsWhileHeard (record_event evt b)
unfolding record_event broadcast
record-PollsWhileHeard evt b inv =
    let same : get_total_subscribers (record_event evt b) ≡ get_total_subscribers b =
      ap total (queue_same evt (broadcast evt b.base))
      ∙ total-update evt.user_id evt b.base.subscribers in
    (λ h. subst (◌<◌ 0) (sym same) (inv.0 h), λ h. inv.1 (subst (◌<◌ 0) same h))

-- No call of a list is a shutdown.
abbrev pub Running : List Call → Type 0
Running [] = Unit
Running (shuts_down ∷ cs) = ⊥
Running (c ∷ cs) = Running cs

stop-off : (b : PollingBroadcaster) → (stop_polling b).polling ≡ false
unfolding stop_polling
stop-off b = with_polling b.polling refl
  where
    with_polling :
        (p : Bool)
        → p ≡ b.polling
        → (if◌then◌else◌ {A = PollingBroadcaster} p (record b { polling = false }) b).polling
          ≡ false
    with_polling true e = refl
    with_polling false e = sym e

calls-PollsWhileHeard :
    (cs : List Call) (b : PollingBroadcaster)
    → Running cs
    → PollsWhileHeard b
    → PollsWhileHeard (calls cs b)
unfolding calls call
calls-PollsWhileHeard [] b r inv = inv
calls-PollsWhileHeard (subscribes now user ch types ∷ cs) b r inv =
    calls-PollsWhileHeard cs (subscribe now user ch types b) r
      (subscribe-PollsWhileHeard now user ch types b inv)
calls-PollsWhileHeard (unsubscribes user ch ∷ cs) b r inv =
    calls-PollsWhileHeard cs (unsubscribe user ch b) r (unsubscribe-PollsWhileHeard user ch b inv)
calls-PollsWhileHeard (records evt ∷ cs) b r inv =
    calls-PollsWhileHeard cs (record_event evt b) r (record-PollsWhileHeard evt b inv)
calls-PollsWhileHeard (shuts_down ∷ cs) b r inv = absurd r

new-PollsWhileHeard :
    (now poll_interval : ℕ) (config : BroadcasterConfig)
    → PollsWhileHeard (new_polling_broadcaster now poll_interval config)
unfolding new_polling_broadcaster new_base_broadcaster total
new-PollsWhileHeard now poll_interval config =
    (λ h. absurd (false≢true h), λ h. absurd (omega arith))

calls-append :
    (cs ds : List Call) (b : PollingBroadcaster) → calls (cs ++ ds) b ≡ calls ds (calls cs b)
unfolding calls
calls-append [] ds b = refl
calls-append (c ∷ cs) ds b = calls-append cs ds (call c b)

-- From a new broadcaster on, where each call ends before the next one begins and none of them is
-- `Shutdown`: after any subscriptions, unsubscriptions (of channels that are there or not) and
-- recorded events, polling is switched on exactly where some user has a subscriber; and a `Shutdown`
-- after that switches it off.
pub calls-new_polling_broadcaster :
    (cs : List Call) (now poll_interval : ℕ) (config : BroadcasterConfig)
    → Running cs
    → let b = calls cs (new_polling_broadcaster now poll_interval config) in
      ((b.polling ≡ true) ↔ (0 < get_total_subscribers b))
      × ((calls (cs ++ shuts_down ∷ []) (new_polling_broadcaster now poll_interval config)).polling
          ≡ false)
unfolding calls call shutdown
calls-new_polling_broadcaster cs now poll_interval config r =
    let new : PollingBroadcaster = new_polling_broadcaster now poll_interval config in
    (
      calls-PollsWhileHeard cs new r (new-PollsWhileHeard now poll_interval config),
      ap (λ (b : PollingBroadcaster). b.polling) (calls-append cs (shuts_down ∷ []) new)
          ∙ stop-off (calls cs new),
    )
