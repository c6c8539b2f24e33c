-- ===== src/Bus.antt =====
-- event_bus.py: the in-process publisher, generic in the type of events.
-- `hooks` holds the registered callbacks by number, and `calls` the calls of them that `publish`
-- has made, oldest first. An `asyncio.Queue(maxsize=500)` is the list of its items, oldest first,
-- where `none` is the shutdown sentinel; `put_nowait` on a full one raises `QueueFull`, its only
-- exception, so that `publish` never reaches its branch for dead subscribers.
pub mod Steps
pub mod Replay
pub mod Delivery
use electa.Base.{
  ℕ, ◌-◌, String, Bool, true, false, not, ◌==◌, Option, none, some, List, [], ◌∷◌, ◌++◌, map,
  reverse, if◌then◌else◌, ltb, nat_eq, length, last_n,
}
use electa.Base.Filter.{filter}

abbrev pub replay_buffer_size : ℕ
replay_buffer_size = 200

abbrev pub queue_maxsize : ℕ
queue_maxsize = 500

pub record Bus (E : Type 0) : Type 0 where
  pub queues : List (String × List (Option E))
  pub hooks : List ℕ
  pub replay_buffer : List E
  pub running : Bool
  pub calls : List (ℕ × E)

module _ {E : Type 0} where
  -- `put_nowait`, with `QueueFull` caught: the item is dropped.
  unfoldable pub offer : Option E → List (Option E) → List (Option E)
  offer item q = if ltb (length q) queue_maxsize then q ++ item ∷ [] else q

  unfoldable pub offer_all :
      Option E → List (String × List (Option E)) → List (String × List (Option E))
  offer_all item [] = []
  offer_all item ((id, q) ∷ rest) = (id, offer item q) ∷ offer_all item rest

  -- `EventBus.__init__`, `start`, `stop`
  abbrev pub init : Bus E
  init = record { queues = []; hooks = []; replay_buffer = []; running = false; calls = [] }

  abbrev pub start : Bus E → Bus E
  start bus = record bus { running = true }

  abbrev pub stop : Bus E → Bus E
  stop bus = record bus { running = false; queues = offer_all none bus.queues }

  abbrev pub subscriber_count : Bus E → ℕ
  subscriber_count bus = length bus.queues

  abbrev pub register_hook : ℕ → Bus E → Bus E
  register_hook h bus = record bus { hooks = bus.hooks ++ h ∷ [] }

  abbrev pub unregister_hook : ℕ → Bus E → Bus E
  unregister_hook h bus = record bus { hooks = filter (λ g. not (nat_eq g h)) bus.hooks }

  -- The append to the replay buffer, cut to its size from the left.
  unfoldable pub remember : E → List E → List E
  remember event buffer =
      let longer = buffer ++ event ∷ [] in
      if ltb replay_buffer_size (length longer) then last_n replay_buffer_size longer else longer

  unfoldable pub publish : E → Bus E → Bus E
  publish event bus = if not bus.running then bus else (record bus {
    replay_buffer = remember event bus.replay_buffer;
    queues = offer_all (some event) bus.queues;
    calls = bus.calls ++ map (λ h. (h, event)) bus.hooks;
  })

  -- `_queues[id] = q` and `_queues.pop(id, None)`
  unfoldable pub set_queue :
      String → List (Option E) → List (String × List (Option E)) → List (String × List (Option E))
  set_queue id q [] = (id, q) ∷ []
  set_queue id q ((j, r) ∷ rest) = if j == id then (j, q) ∷ rest else (j, r) ∷ set_queue id q rest

  unfoldable pub pop_queue :
      String → List (String × List (Option E)) → List (String × List (Option E))
  pop_queue id [] = []
  pop_queue id ((j, r) ∷ rest) = if j == id then rest else (j, r) ∷ pop_queue id rest

  unfoldable pub queue_of : String → List (String × List (Option E)) → Option (List (Option E))
  queue_of id [] = none
  queue_of id ((j, r) ∷ rest) = if j == id then some r else queue_of id rest

  -- The replay of `__aenter__`: it stops at the first item that does not fit.
  unfoldable pub replay_into : List E → List (Option E) → List (Option E)
  replay_into [] q = q
  replay_into (event ∷ events) q =
      let rest = replay_into events (q ++ some event ∷ []) in
      if ltb (length q) queue_maxsize then rest else q

  -- `_Subscription.__aenter__`, with the fresh id that `uuid4` gives, and `__aexit__`
  unfoldable pub subscribe : String → Bool → Bus E → Bus E
  subscribe id replay bus = record bus {
    queues = set_queue id (if replay then replay_into bus.replay_buffer [] else []) bus.queues;
  }

  unfoldable pub unsubscribe : String → Bus E → Bus E
  unsubscribe id bus = record bus { queues = pop_queue id bus.queues }

  -- `reversed(buffer[-limit:])`, where `-0` cuts nothing
  unfoldable pub recent_events : ℕ → Bus E → List E
  recent_events limit bus =
      reverse (if nat_eq limit 0 then bus.replay_buffer else last_n limit bus.replay_buffer)

  -- A run of `publish` over a sequence of events.
  unfoldable pub publish_all : List E → Bus E → Bus E
  publish_all [] bus = bus
  publish_all (event ∷ events) bus = publish_all events (publish event bus)
