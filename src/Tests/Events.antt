-- ===== src/Tests/Events.antt =====
-- The theorems on events.py and on the lifespan of main.py at concrete inputs.
use electa.Base.{ℕ, ◌≡◌, refl, String, Option, none, some, true, List, [], ◌∷◌, ◌++◌, map, arith}
use electa.Base.Filter.{filter}
use electa.Float.Fixed.{fixed}
use electa.Bus.{Bus, queue_of, stop, publish_all, subscribe, init}
use electa.Bus
use electa.Model.Schemas.{GovernanceEvent}
use electa.Events.{
  Wait, timed_out, received, passes, connected_chunk, event_chunk, sse_stream, waited,
  websocket_stream,
}
use electa.Events.Stream.{replayed, sse_stream-session}
use electa.Events.Socket.{chunk_of, websocket_stream-sse_stream}
use electa.Startup.{Services, new_services, start_up, shut_down, webhook_hook}
use electa.Startup.Hooks.{calls-lifespan}

abbrev happens : String → GovernanceEvent ℕ
happens name = record {
  event = name;
  entity = "acme";
  proposal_id = "merger";
  actor = none;
  vote = none;
  weight = none;
  details = none;
  timestamp = 1_000;
}

abbrev dumps : GovernanceEvent ℕ → String
dumps event = event.event

-- A bus that has published one event.
abbrev bus : Bus (GovernanceEvent ℕ)
bus = record (Bus.start Bus.init) { replay_buffer = happens "vote.cast" ∷ [] }

abbrev later : List (GovernanceEvent ℕ)
later = happens "result.computed" ∷ happens "vote.delegated" ∷ []

sse_stream-session_example :
    (queue : List (Option (GovernanceEvent ℕ))) × (queue_of "s"
        (stop (publish_all later (subscribe "s" true bus))).queues
      ≡ some queue)
    × (sse_stream dumps (some "vote.") (map received queue)
        ≡ connected_chunk
          ∷ map
              (event_chunk dumps)
              (filter (λ e. passes (some "vote.") e.event) (replayed true bus ++ later)))
sse_stream-session_example =
    sse_stream-session dumps (some "vote.") "s" true later bus refl (omega arith) (omega arith)

abbrev waits : List (Wait (GovernanceEvent ℕ))
waits = received (some (happens "vote.cast")) ∷ timed_out ∷ received none ∷ []

websocket_stream-sse_stream_example :
    map (chunk_of dumps) (websocket_stream true (some "vote.") (map waited waits))
    ≡ sse_stream dumps (some "vote.") waits
websocket_stream-sse_stream_example = websocket_stream-sse_stream dumps true (some "vote.") waits

calls-lifespan_example :
    let started : Services (GovernanceEvent ℕ) = start_up new_services in
    let served = record started { bus = publish_all later started.bus } in
    (publish_all later (shut_down served).bus).calls ≡ map (λ e. (webhook_hook, e)) later
calls-lifespan_example = calls-lifespan later later
