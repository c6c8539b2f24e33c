-- ===== src/Events/Socket.antt =====
-- The two streams of events.py compared.
use electa.Base.{
  ◌≡◌, refl, ap, ◌∙◌, Bool, true, String, Option, none, some, List, [], ◌∷◌, map, arith,
  if◌then◌else◌, Bool-cases, inl, inr,
}
use electa.Float.{Float}
use electa.Model.Schemas.{GovernanceEvent}
use electa.Events.{
  Wait, timed_out, received, passes, connected_chunk, event_chunk, sse_loop, sse_stream, SocketStep,
  waited, SocketMessage, connected, heartbeat, filter_updated, event_message, first_filter,
  json_truthy, json_passes, socket_loop, websocket_stream,
}

module _ {F : Type 0} where
  -- The chunk that stands for a message of the WebSocket.
  abbrev pub chunk_of : (GovernanceEvent F → String) → SocketMessage F → String
  chunk_of dumps (connected replay) = connected_chunk
  chunk_of dumps heartbeat = ": heartbeat\n\n"
  chunk_of dumps (filter_updated value) = ""
  chunk_of dumps (event_message event) = event_chunk dumps event

json_passes-first_filter :
    (F : Type 0) ⦃fl : Float F⦄ (prefix : Option String) (event : String)
    → json_passes {F = F} (first_filter prefix) event ≡ some (passes prefix event)
unfolding json_passes json_truthy
json_passes-first_filter F none event = refl
json_passes-first_filter F (some prefix) event = ground arith

module _ {F : Type 0} ⦃fl : Float F⦄ where
  socket_loop-received :
      (prefix : Option String) (event : GovernanceEvent F) (steps : List (SocketStep F))
      → let rest = socket_loop (first_filter prefix) true steps in
        socket_loop (first_filter prefix) true (waited (received (some event)) ∷ steps)
        ≡ (if passes prefix event.event then event_message event ∷ rest else rest)
  unfolding socket_loop
  socket_loop-received prefix event steps =
      ground (arith, json_passes-first_filter F prefix event.event)

  socket_loop-sse_loop :
      (dumps : GovernanceEvent F → String) (prefix : Option String)
      (waits : List (Wait (GovernanceEvent F)))
      → map (chunk_of dumps) (socket_loop (first_filter prefix) true (map waited waits))
        ≡ sse_loop dumps prefix waits
  unfolding socket_loop sse_loop
  socket_loop-sse_loop dumps prefix [] = refl
  socket_loop-sse_loop dumps prefix (timed_out ∷ waits) =
      ap (λ l. ": heartbeat\n\n" ∷ l) (socket_loop-sse_loop dumps prefix waits)
  socket_loop-sse_loop dumps prefix (received none ∷ waits) = refl
  socket_loop-sse_loop dumps prefix (received (some event) ∷ waits) =
      ap (map (chunk_of dumps)) (socket_loop-received prefix event (map waited waits))
      ∙ (elim (Bool-cases (passes prefix event.event)) [
        | inl e ↦
            rw e (ap (λ l. event_chunk dumps event ∷ l) (socket_loop-sse_loop dumps prefix waits))
        | inr e ↦ rw e (socket_loop-sse_loop dumps prefix waits)
      ])

  -- A client of the WebSocket that sends nothing gets what a client of the event stream with the
  -- same filter gets, message by chunk: the greeting, a heartbeat for each wait that times out, the
  -- events that its filter lets through, and the end where the bus stops.
  pub websocket_stream-sse_stream :
      (dumps : GovernanceEvent F → String) (replay : Bool) (prefix : Option String)
      (waits : List (Wait (GovernanceEvent F)))
      → map (chunk_of dumps) (websocket_stream replay prefix (map waited waits))
        ≡ sse_stream dumps prefix waits
  unfolding websocket_stream sse_stream
  websocket_stream-sse_stream dumps replay prefix waits =
      ap (λ l. connected_chunk ∷ l) (socket_loop-sse_loop dumps prefix waits)
