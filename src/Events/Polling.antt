-- ===== src/Events/Polling.antt =====
-- `PollingBroadcaster` of internal/events/polling.go: a goroutine looks for new events in the
-- database while there are subscribers.
use teldrive_easy.Prelude.{
  ℕ, suc, ◌+◌, ◌-◌, Bool, true, false, List, [], ◌∷◌, Option, none, some, ◌==◌, leb, if◌then◌else◌,
  length,
}
use teldrive_easy.Events.Broadcaster.{
  BaseBroadcaster, BroadcasterConfig, Event, EventType, EventSubscriber, new_base_broadcaster,
  should_process, broadcast,
}
use teldrive_easy.Events.Broadcaster as Base

-- `pollers` counts the goroutines that `startPolling` started and that have not returned.
pub record PollingBroadcaster : Type 0 where
  pub base : BaseBroadcaster
  pub poll_interval : ℕ
  pub last_poll_time : ℕ
  pub polling : Bool
  pub pollers : ℕ

unfoldable pub new_polling_broadcaster :
    (now poll_interval : ℕ) → BroadcasterConfig → PollingBroadcaster
new_polling_broadcaster now poll_interval config = record {
  base = new_base_broadcaster config;
  poll_interval = if leb poll_interval 0 then 10000000000 else poll_interval;
  last_poll_time = now;
  polling = false;
  pollers = 0;
}

unfoldable pub start_polling : ℕ → PollingBroadcaster → PollingBroadcaster
start_polling now b =
    if b.polling
    then b
    else record b { polling = true; last_poll_time = now; pollers = suc b.pollers }

unfoldable pub stop_polling : PollingBroadcaster → PollingBroadcaster
stop_polling b = if b.polling then record b { polling = false } else b

unfoldable pub total : List (ℕ × List EventSubscriber) → ℕ
total [] = 0
total ((_, subs) ∷ m) = length subs + total m

abbrev pub get_total_subscribers : PollingBroadcaster → ℕ
get_total_subscribers b = total b.base.subscribers

-- The loop of `checkForNewEvents`; `clock` tells the time at each event.
unfoldable pub deliver : (ℕ → ℕ) → List Event → BaseBroadcaster → BaseBroadcaster
deliver clock [] b = b
deliver clock (evt ∷ events) b =
    let t = should_process (clock 0) evt.id b in
    deliver (λ i. clock (suc i)) events (if t.0 then broadcast evt t.1 else t.1)

-- `get_since` is the database: the events after a time, at most so many; `none` is an error.
unfoldable pub check_for_new_events :
    (ℕ → ℕ → Option (List Event)) → ℕ → (ℕ → ℕ) → PollingBroadcaster → PollingBroadcaster
check_for_new_events get_since now clock b = elim (get_since b.last_poll_time 1000) [
  | none ↦ b
  | some events ↦ record b { last_poll_time = now; base = deliver clock events b.base }
]

-- One tick of a polling goroutine; it returns where polling has stopped.
unfoldable pub tick :
    (ℕ → ℕ → Option (List Event)) → ℕ → (ℕ → ℕ) → PollingBroadcaster → PollingBroadcaster
tick get_since now clock b =
    if b.polling
    then check_for_new_events get_since now clock b
    else record b { pollers = b.pollers - 1 }

-- `Subscribe` and `Unsubscribe` hold one lock to change the subscribers, which is when they decide
-- whether polling starts or stops, and take another one to do so.
unfoldable pub joined :
    (user ch : ℕ) → List EventType → PollingBroadcaster → Bool × PollingBroadcaster
joined user ch types b =
    let b' = record b { base = Base.subscribe user ch types b.base } in
    (get_total_subscribers b' == 1, b')

unfoldable pub left : (user ch : ℕ) → PollingBroadcaster → Bool × PollingBroadcaster
left user ch b =
    let b' = record b { base = Base.unsubscribe user ch b.base } in
    (get_total_subscribers b' == 0, b')

unfoldable pub started : ℕ → Bool × PollingBroadcaster → PollingBroadcaster
started now (first, b) = if first then start_polling now b else b

unfoldable pub stopped : Bool × PollingBroadcaster → PollingBroadcaster
stopped (last, b) = if last then stop_polling b else b

unfoldable pub subscribe :
    (now user ch : ℕ) → List EventType → PollingBroadcaster → PollingBroadcaster
subscribe now user ch types b = started now (joined user ch types b)

unfoldable pub unsubscribe : (user ch : ℕ) → PollingBroadcaster → PollingBroadcaster
unsubscribe user ch b = stopped (left user ch b)

-- `Shutdown`; the goroutines then return, as their context is cancelled.
unfoldable pub shutdown : PollingBroadcaster → PollingBroadcaster
shutdown b = record (stop_polling b) { pollers = 0 }

-- `Record` of an event that `createEvent` made.
unfoldable pub record_event : Event → PollingBroadcaster → PollingBroadcaster
record_event evt b = record b { base = (Base.queue_for_db evt (broadcast evt b.base)).1 }

-- What callers do, where each call ends before the next one begins.
pub data Call : Type 0 where
  subscribes : (now user ch : ℕ) → List EventType → Call
  unsubscribes : (user ch : ℕ) → Call
  records : Event → Call
  shuts_down : Call

unfoldable pub call : Call → PollingBroadcaster → PollingBroadcaster
call (subscribes now user ch types) b = subscribe now user ch types b
call (unsubscribes user ch) b = unsubscribe user ch b
call (records evt) b = record_event evt b
call shuts_down b = shutdown b

unfoldable pub calls : List Call → PollingBroadcaster → PollingBroadcaster
calls [] b = b
calls (c ∷ cs) b = calls cs (call c b)
