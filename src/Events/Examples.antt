-- ===== src/Events/Examples.antt =====
-- Runs of internal/events with one user.
use teldrive_easy.Prelude.{◌++◌, false, ◌<◌, ◌≡◌, ◌↔◌, refl, true, List, [], ◌∷◌, some, map, arith}
use teldrive_easy.Events.Maps.{lookup, put, delete}
use teldrive_easy.Events.Broadcaster.{
  BaseBroadcaster, BroadcasterConfig, Event, EventType, files_created, files_deleted,
  EventSubscriber, new_base_broadcaster, or_default, should_process, mark, broadcast, offer, admits,
  has_type, code, update, queue_for_db, subs_of, without, put_subs, cleanup_old_events,
}
use teldrive_easy.Events.Broadcaster as Base
use teldrive_easy.Events.Recent.{accepted, occurrences, should_process-once}
use teldrive_easy.Events.Delivery.{broadcast_all, served, lookup-broadcast_all}
use teldrive_easy.Events.Polling.{
  new_polling_broadcaster, Call, subscribes, unsubscribes, records, shuts_down, call, calls, joined,
  left, started, stopped, get_total_subscribers, total, start_polling, stop_polling, subscribe,
  unsubscribe, record_event, check_for_new_events, deliver, tick,
}
use teldrive_easy.Events.Pollers.{calls-new_polling_broadcaster}

abbrev config : BroadcasterConfig
config = record { db_workers = 1; db_buffer_size = 10; deduplication_ttl = 50 }

abbrev created : Event
created = record { id = 5; kind = files_created; user_id = 7; source = 0; created_at = 1 }

abbrev deleted : Event
deleted = record { id = 6; kind = files_deleted; user_id = 7; source = 0; created_at = 2 }

abbrev listener : EventSubscriber
listener = record { ch = 1; filters = files_created ∷ []; queue = [] }

abbrev heard : BaseBroadcaster
heard = record {
  subscribers = (7, listener ∷ []) ∷ [];
  db_worker_ch = [];
  recent_events = [];
  config = config;
}

should_process-once_example :
    occurrences 5 (accepted ((110, 6) ∷ (120, 5) ∷ []) (should_process 100 5 heard).1) ≡ 0
unfolding should_process lookup
should_process-once_example =
    should_process-once 100 5 heard ((110, 6) ∷ (120, 5) ∷ []) refl
      (omega arith, omega arith, (omega arith, omega arith, omega arith))

lookup-broadcast_all_example :
    lookup 7 (broadcast_all (created ∷ deleted ∷ []) heard).subscribers
    ≡ some (map (served 7 (created ∷ deleted ∷ [])) (listener ∷ []))
unfolding lookup
lookup-broadcast_all_example =
    lookup-broadcast_all 7 (created ∷ deleted ∷ []) heard (listener ∷ []) refl

abbrev come_and_go : List Call
come_and_go = subscribes 1 7 1 [] ∷ unsubscribes 7 1 ∷ subscribes 2 7 2 [] ∷ []

calls-new_polling_broadcaster_example :
    (((calls come_and_go (new_polling_broadcaster 0 0 config)).polling ≡ true)
      ↔ (0 < get_total_subscribers (calls come_and_go (new_polling_broadcaster 0 0 config))))
    × ((calls (come_and_go ++ shuts_down ∷ []) (new_polling_broadcaster 0 0 config)).polling
        ≡ false)
calls-new_polling_broadcaster_example = calls-new_polling_broadcaster come_and_go 0 0 config tt

-- The last subscriber leaves and a new one joins, each before either of them has taken the second
-- lock; the one that joins takes it first. Polling is off, though there is a subscriber.
overlap_test :
    let gone = left 7 1 (calls (subscribes 1 7 1 [] ∷ []) (new_polling_broadcaster 0 0 config)) in
    let come = joined 7 2 [] gone.1 in
    let b = stopped (gone.0, started 2 come) in (b.polling ≡ false) × (get_total_subscribers b ≡ 1)
unfolding calls call subscribe joined left started stopped start_polling stop_polling
    new_polling_broadcaster new_base_broadcaster or_default total Base.subscribe Base.unsubscribe
    lookup put delete subs_of without put_subs
overlap_test = (refl, refl)

-- A subscriber that goes and one that comes within one poll interval: two goroutines poll.
two_pollers_test : (calls come_and_go (new_polling_broadcaster 0 0 config)).pollers ≡ 2
unfolding calls call subscribe unsubscribe joined left started stopped start_polling stop_polling
    new_polling_broadcaster new_base_broadcaster or_default total Base.subscribe Base.unsubscribe
    lookup put delete subs_of without put_subs
two_pollers_test = refl

-- An event that is recorded reaches a subscriber at once, and once more from the database.
duplicate_test :
    let b =
      calls (subscribes 0 7 1 [] ∷ records created ∷ []) (new_polling_broadcaster 0 0 config) in
    lookup 7 (tick (λ since limit. some (created ∷ [])) 10 (λ i. 10) b).base.subscribers
    ≡ some (record { ch = 1; filters = []; queue = created ∷ created ∷ [] } ∷ [])
unfolding calls call subscribe joined started start_polling new_polling_broadcaster
    new_base_broadcaster or_default total Base.subscribe lookup put delete subs_of record_event
    broadcast update offer admits queue_for_db tick check_for_new_events deliver should_process mark
duplicate_test = refl
