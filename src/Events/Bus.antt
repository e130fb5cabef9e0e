-- ===== src/Events/Bus.antt =====
-- aws_light/dashboard/event_bus.py: recent events, and a bounded queue for each subscriber. Queues
-- are told apart by a number, as `asyncio.Queue` objects are by identity. Each method holds the lock.
pub mod Delivery
use aws_light.Prelude.{
  ℕ, suc, ◌+◌, ◌-◌, Bool, true, false, List, [], ◌∷◌, ◌++◌, ltb, length, drop, if◌then◌else◌, ◌==◌,
}

abbrev pub recent_event_buffer_size : ℕ
recent_event_buffer_size = 100

abbrev pub queue_maxsize : ℕ
queue_maxsize = 200

pub record Subscriber (E : Type 0) : Type 0 where
  pub queue_id : ℕ
  pub queue : List E

pub record EventBus (E : Type 0) : Type 0 where
  pub subscribers : List (Subscriber E)
  pub recent_events : List E
  pub next_queue_id : ℕ

module _ {E : Type 0} where
  -- `append` of a deque with a `maxlen`
  unfoldable pub append_recent : ℕ → List E → E → List E
  append_recent maxlen events event =
      let all = events ++ event ∷ [] in drop (length all - maxlen) all

  -- the first loop of `publish`: `put_nowait` on each queue
  unfoldable pub offer : E → List (Subscriber E) → List (Subscriber E)
  offer event [] = []
  offer event (s ∷ subs) =
      (if ltb (length s.queue) queue_maxsize then record s { queue = s.queue ++ event ∷ [] } else s)
      ∷ offer event subs

  -- the queues for which `put_nowait` raised `QueueFull`
  unfoldable pub dead_queues : List (Subscriber E) → List ℕ
  dead_queues [] = []
  dead_queues (s ∷ subs) =
      let rest = dead_queues subs in
      if ltb (length s.queue) queue_maxsize then rest else s.queue_id ∷ rest

  -- `list.remove`: the first of this identity
  unfoldable pub remove : ℕ → List (Subscriber E) → List (Subscriber E)
  remove queue_id [] = []
  remove queue_id (s ∷ subs) =
      let rest = remove queue_id subs in if s.queue_id == queue_id then subs else s ∷ rest

  -- the second loop of `publish`
  unfoldable pub remove_all : List ℕ → List (Subscriber E) → List (Subscriber E)
  remove_all [] subs = subs
  remove_all (queue_id ∷ ids) subs = remove_all ids (remove queue_id subs)

  unfoldable pub publish : EventBus E → E → EventBus E
  publish bus event = record bus {
    recent_events = append_recent recent_event_buffer_size bus.recent_events event;
    subscribers = remove_all (dead_queues bus.subscribers) (offer event bus.subscribers);
  }

  -- returns the queue beside the new state
  unfoldable pub subscribe : EventBus E → ℕ × EventBus E
  subscribe bus = (
    bus.next_queue_id,
    record bus {
      subscribers = bus.subscribers ++ record { queue_id = bus.next_queue_id; queue = [] } ∷ [];
      next_queue_id = bus.next_queue_id + 1;
    },
  )

  -- `remove` changes nothing where the queue is not subscribed
  unfoldable pub unsubscribe : EventBus E → ℕ → EventBus E
  unsubscribe bus queue_id = record bus { subscribers = remove queue_id bus.subscribers }

  unfoldable pub get_recent_events : EventBus E → List E
  get_recent_events bus = bus.recent_events
