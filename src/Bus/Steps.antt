-- ===== src/Bus/Steps.antt =====
-- One operation of event_bus.py at a time: the fields that it leaves, and the bounds that it keeps.
use electa.Base.{
  ℕ, ◌-◌, ◌≤◌, ◌≡◌, true, Bool, String, Option, none, some, List, [], ◌∷◌, ◌++◌, map, length, arith,
  All, if◌then◌else◌, length-append, length-drop,
}
use electa.Bus.{
  Bus, replay_buffer_size, queue_maxsize, offer, offer_all, remember, publish, start, stop,
  register_hook, unregister_hook, set_queue, pop_queue, replay_into, subscribe, unsubscribe,
}

-- The operations of the class, as steps.
pub data Operation (E : Type 0) : Type 0 where
  start_bus stop_bus : Operation E
  publish_event : E → Operation E
  add_hook remove_hook : ℕ → Operation E
  enter_subscription : String → Bool → Operation E
  exit_subscription : String → Operation E

module _ {E : Type 0} where
  -- On a running bus `publish` changes three fields.
  pub publish_running :
      (event : E) (bus : Bus E)
      → bus.running ≡ true
      → ((publish event bus).running ≡ true)
        × ((publish event bus).replay_buffer ≡ remember event bus.replay_buffer)
        × ((publish event bus).queues ≡ offer_all (some event) bus.queues)
        × ((publish event bus).hooks ≡ bus.hooks)
        × ((publish event bus).calls ≡ bus.calls ++ map (λ h. (h, event)) bus.hooks)
  unfolding publish
  publish_running event bus h = ground arith

  abbrev pub IsShort : String × List (Option E) → Type 0
  IsShort (id, q) = length q ≤ queue_maxsize

  -- At most 200 events are kept, and no queue is longer than its maximal size.
  pub record IsBounded (bus : Bus E) : Type 0 where
    pub buffer_bounded : length bus.replay_buffer ≤ replay_buffer_size
    pub queues_bounded : All IsShort bus.queues

  unfoldable pub perform : Operation E → Bus E → Bus E
  perform start_bus bus = start bus
  perform stop_bus bus = stop bus
  perform (publish_event event) bus = publish event bus
  perform (add_hook h) bus = register_hook h bus
  perform (remove_hook h) bus = unregister_hook h bus
  perform (enter_subscription id replay) bus = subscribe id replay bus
  perform (exit_subscription id) bus = unsubscribe id bus

  length-offer-le :
      (item : Option E) (q : List (Option E))
      → length q ≤ queue_maxsize
      → length (offer item q) ≤ queue_maxsize
  unfolding offer
  length-offer-le item q h = ground (arith, length-append q (item ∷ []))

  offer_all-IsShort :
      (item : Option E) (queues : List (String × List (Option E)))
      → All IsShort queues
      → All IsShort (offer_all item queues)
  unfolding offer_all
  offer_all-IsShort item [] h = tt
  offer_all-IsShort item ((id, q) ∷ rest) h =
      (length-offer-le item q h.0, offer_all-IsShort item rest h.1)

  set_queue-IsShort :
      (id : String) (q : List (Option E)) (queues : List (String × List (Option E)))
      → length q ≤ queue_maxsize
      → All IsShort queues
      → All IsShort (set_queue id q queues)
  unfolding set_queue
  set_queue-IsShort id q [] h hs = (h, tt)
  set_queue-IsShort id q ((j, r) ∷ rest) h hs = ground (arith, set_queue-IsShort id q rest h hs.1)

  pop_queue-IsShort :
      (id : String) (queues : List (String × List (Option E)))
      → All IsShort queues
      → All IsShort (pop_queue id queues)
  unfolding pop_queue
  pop_queue-IsShort id [] hs = tt
  pop_queue-IsShort id ((j, r) ∷ rest) hs = ground (arith, pop_queue-IsShort id rest hs.1)

  length-replay_into-le :
      (events : List E) (q : List (Option E))
      → length q ≤ queue_maxsize
      → length (replay_into events q) ≤ queue_maxsize
  unfolding replay_into
  length-replay_into-le [] q h = h
  length-replay_into-le (x ∷ events) q h =
      ground (arith, length-append q (some x ∷ []), length-replay_into-le events (q ++ some x ∷ []))

  length-remember-le :
      (x : E) (buffer : List E)
      → length buffer ≤ replay_buffer_size
      → length (remember x buffer) ≤ replay_buffer_size
  unfolding remember
  length-remember-le x buffer h =
      let longer = buffer ++ x ∷ [] in
      ground (arith, length-drop (length longer - replay_buffer_size) longer)

  -- Every operation of the bus keeps its bounds.
  pub perform-IsBounded :
      (op : Operation E) (bus : Bus E) → IsBounded bus → IsBounded (perform op bus)
  unfolding perform publish subscribe unsubscribe
  perform-IsBounded start_bus bus h = assumption h
  perform-IsBounded stop_bus bus h = record {
    buffer_bounded = h.buffer_bounded;
    queues_bounded = offer_all-IsShort none bus.queues h.queues_bounded;
  }
  perform-IsBounded (publish_event event) bus h =
      ground (
        arith,
        length-remember-le event bus.replay_buffer,
        offer_all-IsShort (some event) bus.queues,
      )
  perform-IsBounded (add_hook g) bus h = assumption h
  perform-IsBounded (remove_hook g) bus h = assumption h
  perform-IsBounded (enter_subscription id replay) bus h = record {
    buffer_bounded = h.buffer_bounded;
    queues_bounded =
        set_queue-IsShort id (if replay then replay_into bus.replay_buffer [] else []) bus.queues
          (ground (arith, length-replay_into-le bus.replay_buffer [])) h.queues_bounded;
  }
  perform-IsBounded (exit_subscription id) bus h = record {
    buffer_bounded = h.buffer_bounded;
    queues_bounded = pop_queue-IsShort id bus.queues h.queues_bounded;
  }
