-- ===== src/Events/Stream.antt =====
-- What a subscriber of the stream of events.py reads from the bus of event_bus.py.
use electa.Base.{
  ◌-◌, ◌+◌, ◌≤◌, ◌<◌, ◌≡◌, refl, sym, ap, ◌∙◌, Bool, true, false, String, Option, none, some, List,
  [], ◌∷◌, ◌++◌, map, length, length-append, length-map, take_of_length-le, arith, ltb,
  if◌then◌else◌, eq_refl, Bool-cases, inl, inr,
}
use mathlib.Core.List.{append_assoc, append-nil, map-append}
use electa.Base.Filter.{filter}
use electa.Bus.{
  Bus, queue_maxsize, replay_buffer_size, replay_into, set_queue, queue_of, subscribe, publish_all,
  stop, offer,
}
use electa.Bus.Delivery.{queue_of-publish_all, queue_of-offer_all}
use electa.Model.Schemas.{GovernanceEvent}
use electa.Events.{received, passes, connected_chunk, event_chunk, sse_loop, sse_stream}

module _ {E : Type 0} where
  replay_into-append :
      (events : List E) (q : List (Option E))
      → length q + length events ≤ queue_maxsize
      → replay_into events q ≡ q ++ map some events
  unfolding replay_into
  replay_into-append [] q h = sym (append-nil q)
  replay_into-append (x ∷ events) q h =
      let fits : ltb (length q) queue_maxsize ≡ true = ground arith in
      rw fits (
        replay_into-append events (q ++ some x ∷ []) (omega (arith, length-append q (some x ∷ [])))
        ∙ append_assoc q (some x ∷ []) (map some events))

  queue_of-set_queue :
      (id : String) (q : List (Option E)) (queues : List (String × List (Option E)))
      → queue_of id (set_queue id q queues) ≡ some q
  unfolding queue_of set_queue
  queue_of-set_queue id q [] = ground (arith, eq_refl id)
  queue_of-set_queue id q ((j, r) ∷ rest) = ground (arith, eq_refl id, queue_of-set_queue id q rest)

  -- What is replayed to a new subscriber.
  abbrev pub replayed : Bool → Bus E → List E
  replayed replay bus = if replay then bus.replay_buffer else []

  replay_into-replayed :
      (replay : Bool) (bus : Bus E)
      → length bus.replay_buffer ≤ replay_buffer_size
      → (if replay then replay_into bus.replay_buffer [] else []) ≡ map some (replayed replay bus)
  replay_into-replayed true bus h = replay_into-append bus.replay_buffer [] (omega arith)
  replay_into-replayed false bus h = refl

  -- The queue of a subscriber from its subscription to the end of the bus.
  queue_of-session :
      (id : String) (replay : Bool) (events : List E) (bus : Bus E)
      → bus.running ≡ true
      → length bus.replay_buffer ≤ replay_buffer_size
      → length (replayed replay bus) + length events < queue_maxsize
      → queue_of id (stop (publish_all events (subscribe id replay bus))).queues
        ≡ some (map some (replayed replay bus ++ events) ++ none ∷ [])
  queue_of-session id replay events bus runs short fits =
      let start = map some (replayed replay bus) in
      let opened : queue_of id (subscribe id replay bus).queues ≡ some start =
        unfold subscribe in
        (queue_of-set_queue id _ bus.queues ∙ ap some (replay_into-replayed replay bus short)) in
      let seen : List E = replayed replay bus ++ events in
      let published : queue_of id (publish_all events (subscribe id replay bus)).queues
          ≡ some (map some seen) =
        queue_of-publish_all events (subscribe id replay bus) id start (unfold subscribe in runs)
          opened
        ∙ ap (λ l. some (start ++ l))
            (take_of_length-le (queue_maxsize - length start) (map some events)
              (omega (arith, length-map some events, length-map some (replayed replay bus))))
        ∙ ap some (sym (map-append {B = Option E} (λ e. some e) (replayed replay bus) events)) in
      let room : ltb (length (map some seen)) queue_maxsize ≡ true =
        ground (arith, length-map some seen, length-append (replayed replay bus) events) in
      queue_of-offer_all id none (publish_all events (subscribe id replay bus)).queues
        (map some seen) published
      ∙ (unfold offer in rw room refl)

module _ {F : Type 0} where
  sse_loop-received :
      (dumps : GovernanceEvent F → String) (prefix : Option String)
      (events : List (GovernanceEvent F))
      → sse_loop dumps prefix (map received (map some events ++ none ∷ []))
        ≡ map (event_chunk dumps) (filter (λ e. passes prefix e.event) events)
  unfolding sse_loop filter
  sse_loop-received dumps prefix [] = refl
  sse_loop-received dumps prefix (event ∷ events) = elim (Bool-cases (passes prefix event.event)) [
    | inl e ↦ rw e (ap (λ l. event_chunk dumps event ∷ l) (sse_loop-received dumps prefix events))
    | inr e ↦ rw e (sse_loop-received dumps prefix events)
  ]

  -- A client of the stream that subscribes to a running bus gets, after the greeting, one chunk for
  -- each event whose name begins with its filter, in order: first those of the replay buffer, if it
  -- asked for them, then those published until the bus stops; then the stream ends. The replay
  -- buffer holds no more than 200 events, fewer than 500 wait for the client, and none of its waits
  -- times out.
  pub sse_stream-session :
      (dumps : GovernanceEvent F → String) (prefix : Option String) (id : String) (replay : Bool)
      (events : List (GovernanceEvent F)) (bus : Bus (GovernanceEvent F))
      → bus.running ≡ true
      → length bus.replay_buffer ≤ replay_buffer_size
      → length (replayed replay bus) + length events < queue_maxsize
      → (queue : List (Option (GovernanceEvent F))) × (queue_of id
            (stop (publish_all events (subscribe id replay bus))).queues
          ≡ some queue)
        × (sse_stream dumps prefix (map received queue)
            ≡ connected_chunk
              ∷ map
                  (event_chunk dumps)
                  (filter (λ e. passes prefix e.event) (replayed replay bus ++ events)))
  unfolding sse_stream
  sse_stream-session dumps prefix id replay events bus runs short fits =
      let all = replayed replay bus ++ events in
      (
        map some all ++ none ∷ [],
        queue_of-session id replay events bus runs short fits,
        ap (λ l. connected_chunk ∷ l) (sse_loop-received dumps prefix all),
      )
