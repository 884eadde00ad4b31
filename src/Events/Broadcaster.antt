-- ===== src/Events/Broadcaster.antt =====
-- `baseBroadcaster` of internal/events/broadcaster.go. Times are in nanoseconds, channels are known
-- by number, and a subscriber holds what its channel has buffered.
use teldrive_easy.Prelude.{
  ℕ, ◌-◌, ◌*◌, ◌%◌, Bool, true, false, ◌&&◌, ◌||◌, List, [], ◌∷◌, ◌++◌, Option, none, some, ◌==◌,
  ltb, leb, if◌then◌else◌, length, map,
}
use teldrive_easy.Events.Maps.{lookup, put, delete, keep_if}

pub data EventType : Type 0 where
  files_created files_updated files_deleted files_moved files_copied uploads_progress
        jobs_progress :
      EventType

-- Ids and the sources of events are opaque here.
pub record Event : Type 0 where
  pub id : ℕ
  pub kind : EventType
  pub user_id : ℕ
  pub source : ℕ
  pub created_at : ℕ

pub record EventSubscriber : Type 0 where
  pub ch : ℕ
  pub filters : List EventType
  pub queue : List Event

pub record BroadcasterConfig : Type 0 where
  pub db_workers : ℕ
  pub db_buffer_size : ℕ
  pub deduplication_ttl : ℕ

pub record BaseBroadcaster : Type 0 where
  pub subscribers : List (ℕ × List EventSubscriber)
  pub db_worker_ch : List Event
  pub recent_events : List (ℕ × ℕ)
  pub config : BroadcasterConfig

-- The capacity of a subscriber's channel.
abbrev pub channel_size : ℕ
channel_size = 100

-- `newBaseBroadcaster`; the defaults stand in for what is not set.
unfoldable pub or_default : ℕ → ℕ → ℕ
or_default n d = if leb n 0 then d else n

unfoldable pub new_base_broadcaster : BroadcasterConfig → BaseBroadcaster
new_base_broadcaster c = record {
  subscribers = [];
  db_worker_ch = [];
  recent_events = [];
  config = record {
    db_workers = or_default c.db_workers 10;
    db_buffer_size = or_default c.db_buffer_size 1000;
    deduplication_ttl = or_default c.deduplication_ttl (30 * 60 * 1000000000);
  };
}

unfoldable pub code : EventType → ℕ
code files_created = 0
code files_updated = 1
code files_deleted = 2
code files_moved = 3
code files_copied = 4
code uploads_progress = 5
code jobs_progress = 6

unfoldable pub has_type : EventType → List EventType → Bool
has_type t [] = false
has_type t (s ∷ ss) = (code s == code t) || has_type t ss

-- `cleanupOldEvents`.
unfoldable pub cleanup_old_events : ℕ → BaseBroadcaster → BaseBroadcaster
cleanup_old_events now b = record b {
  recent_events = keep_if (λ ts. leb (now - ts) b.config.deduplication_ttl) b.recent_events;
}

-- `shouldProcess`, where the event was not seen lately.
unfoldable pub mark : ℕ → ℕ → BaseBroadcaster → BaseBroadcaster
mark now event_id b =
    let marked = record b { recent_events = put event_id now b.recent_events } in
    if length marked.recent_events % 100 == 0 then cleanup_old_events now marked else marked

unfoldable pub should_process : ℕ → ℕ → BaseBroadcaster → Bool × BaseBroadcaster
should_process now event_id b = elim (lookup event_id b.recent_events) [
  | none ↦ (true, mark now event_id b)
  | some ts ↦
      if ltb (now - ts) b.config.deduplication_ttl then (false, b) else (true, mark now event_id b)
]

-- The filters of a subscriber let an event through.
unfoldable pub admits : List EventType → EventType → Bool
admits [] t = true
admits (s ∷ ss) t = has_type t (s ∷ ss)

-- A send that does not wait: an event is dropped where the channel is full.
unfoldable pub offer : Event → EventSubscriber → EventSubscriber
offer evt s =
    if admits s.filters evt.kind && ltb (length s.queue) channel_size
    then record s { queue = s.queue ++ evt ∷ [] }
    else s

-- A subscriber list of a user changes in place, as the channels do.
unfoldable pub update :
    ℕ
    → (List EventSubscriber → List EventSubscriber)
    → List (ℕ × List EventSubscriber)
    → List (ℕ × List EventSubscriber)
update user change [] = []
update user change ((u, subs) ∷ m) =
    let rest = update user change m in
    if u == user then (u, change subs) ∷ rest else (u, subs) ∷ rest

unfoldable pub broadcast : Event → BaseBroadcaster → BaseBroadcaster
broadcast evt b = record b { subscribers = update evt.user_id (map (offer evt)) b.subscribers }

unfoldable pub subs_of : Option (List EventSubscriber) → List EventSubscriber
subs_of none = []
subs_of (some subs) = subs

-- `Subscribe`; the caller gives the number of the new channel.
unfoldable pub subscribe : (user ch : ℕ) → List EventType → BaseBroadcaster → BaseBroadcaster
subscribe user ch types b = record b {
  subscribers =
      put user
        (subs_of (lookup user b.subscribers)
          ++ record { ch = ch; filters = types; queue = [] } ∷ [])
        b.subscribers;
}

-- The first subscriber with the channel goes.
unfoldable pub without : ℕ → List EventSubscriber → List EventSubscriber
without ch [] = []
without ch (s ∷ subs) = let rest = without ch subs in if s.ch == ch then subs else s ∷ rest

unfoldable pub put_subs :
    ℕ → List EventSubscriber → List (ℕ × List EventSubscriber) → List (ℕ × List EventSubscriber)
put_subs user [] m = delete user m
put_subs user (s ∷ subs) m = put user (s ∷ subs) m

-- `Unsubscribe`; what the channel still holds is drained.
unfoldable pub unsubscribe : (user ch : ℕ) → BaseBroadcaster → BaseBroadcaster
unsubscribe user ch b = elim (lookup user b.subscribers) [
  | none ↦ b
  | some subs ↦ record b { subscribers = put_subs user (without ch subs) b.subscribers }
]

-- `queueForDB`: an event is dropped where the queue is full.
unfoldable pub queue_for_db : Event → BaseBroadcaster → Bool × BaseBroadcaster
queue_for_db evt b =
    if ltb (length b.db_worker_ch) b.config.db_buffer_size
    then (true, record b { db_worker_ch = b.db_worker_ch ++ evt ∷ [] })
    else (false, b)
