-- ===== src/Events.antt =====
-- events.py: the server-sent events, the WebSocket and the snapshot of the replay buffer. The JSON
-- texts are parameters.
pub mod Stream
pub mod Socket
use Prim.Native.String
use electa.Base.{
  ℕ, String, Bool, true, false, not, ◌==◌, ◌&&◌, ◌||◌, Option, none, some, List, [], ◌∷◌, length,
  map, if◌then◌else◌, nat_eq,
}
use electa.Float.{Float}
use electa.Text.{starts_with, decimal}
use electa.Bus
use electa.Bus.{Bus}
use electa.Model.Tables.{Json, null, bool, int, float, str, nested, Dict}
use electa.Model.Schemas.{GovernanceEvent}
use electa.Admin.{with_prefix}

-- What `wait_for(queue.get(), 30.0)` comes to.
pub data Wait (E : Type 0) : Type 0 where
  timed_out : Wait E
  received : Option E → Wait E

-- `filter and not event.startswith(filter)`, negated
abbrev pub passes : Option String → String → Bool
passes none event = true
passes (some prefix) event = if prefix == "" then true else starts_with event prefix

abbrev pub connected_chunk : String
connected_chunk = "data: {\"event\":\"stream.connected\",\"system\":\"Electa Systems\"}\n\n"

module _ {F : Type 0} where
  -- The chunk of an event; `dumps` is `json.dumps(event.model_dump(), …)`.
  abbrev pub event_chunk : (GovernanceEvent F → String) → GovernanceEvent F → String
  event_chunk dumps event = String.◌++◌ "id: " (
      String.◌++◌ (decimal event.timestamp)
        (String.◌++◌ "\ndata: " (String.◌++◌ (dumps event) "\n\n")))

  -- The loop of `generator`, on what the waits come to, one after the other.
  unfoldable pub sse_loop :
      (GovernanceEvent F → String) → Option String → List (Wait (GovernanceEvent F)) → List String
  sse_loop dumps prefix [] = []
  sse_loop dumps prefix (timed_out ∷ waits) = ": heartbeat\n\n" ∷ sse_loop dumps prefix waits
  sse_loop dumps prefix (received none ∷ waits) = []
  sse_loop dumps prefix (received (some event) ∷ waits) =
      let rest = sse_loop dumps prefix waits in
      if not (passes prefix event.event) then rest else event_chunk dumps event ∷ rest

  unfoldable pub sse_stream :
      (GovernanceEvent F → String) → Option String → List (Wait (GovernanceEvent F)) → List String
  unfolding sse_loop
  sse_stream dumps prefix waits = connected_chunk ∷ sse_loop dumps prefix waits

  -- `recent_events`: the count beside the events
  unfoldable pub recent_events :
      ℕ → Option String → Bus (GovernanceEvent F) → ℕ × List (GovernanceEvent F)
  recent_events limit prefix bus =
      let events = with_prefix prefix (Bus.recent_events limit bus) in (length events, events)

-- A text that a client of the WebSocket sends, as `json.loads` reads it.
pub data ClientText (F : Type 0) : Type 0 where
  no_json : ClientText F
  no_object : ClientText F
  object : Dict F → ClientText F

-- What the two tasks of a WebSocket meet, in the order in which it happens.
pub data SocketStep (F : Type 0) : Type 0 where
  waited : Wait (GovernanceEvent F) → SocketStep F
  client_sent : ClientText F → SocketStep F

pub data SocketMessage (F : Type 0) : Type 0 where
  connected : Bool → SocketMessage F
  heartbeat : SocketMessage F
  filter_updated : Json F → SocketMessage F
  event_message : GovernanceEvent F → SocketMessage F

module _ {F : Type 0} where
  -- `msg.get(key)`
  unfoldable pub get_key : String → Dict F → Json F
  get_key key [] = null
  get_key key ((k, value) ∷ rest) = if k == key then value else get_key key rest

  abbrev pub is_filter : Json F → Bool
  is_filter (str s) = s == "filter"
  is_filter _ = false

  -- The `filter` of the query as the first value of `active_filter`
  abbrev pub first_filter : Option String → Json F
  first_filter none = null
  first_filter (some prefix) = str prefix

module _ {F : Type 0} ⦃fl : Float F⦄ where
  -- `bool(value)`
  unfoldable pub json_truthy : Json F → Bool
  json_truthy null = false
  json_truthy (bool b) = b
  json_truthy (int n) = not (nat_eq n 0)
  json_truthy (float x) = not (fl.eq x fl.nought)
  json_truthy (str s) = not (s == "")
  json_truthy (nested s) = not ((s == "[]") || (s == "{}"))

  -- `active_filter and not event.startswith(active_filter)`, negated; `none` is the `TypeError` of
  -- `startswith` on a value that is no text.
  unfoldable pub json_passes : Json F → String → Option Bool
  unfolding json_truthy
  json_passes (str prefix) event =
      if json_truthy (str prefix) then some (starts_with event prefix) else some true
  json_passes value event = if json_truthy value then none else some true

  -- The main loop and `_listen`, with `active_filter` and whether `_listen` still runs: an error in
  -- it, as `get` on what is no object, ends it silently.
  unfoldable pub socket_loop : Json F → Bool → List (SocketStep F) → List (SocketMessage F)
  socket_loop active_filter listening [] = []
  socket_loop active_filter listening (waited timed_out ∷ steps) =
      heartbeat ∷ socket_loop active_filter listening steps
  socket_loop active_filter listening (waited (received none) ∷ steps) = []
  socket_loop active_filter listening (waited (received (some event)) ∷ steps) =
      let rest = socket_loop active_filter listening steps in
      elim (json_passes active_filter event.event) [
        | none ↦ []
        | some false ↦ rest
        | some true ↦ event_message event ∷ rest
      ]
  socket_loop active_filter listening (client_sent no_json ∷ steps) =
      socket_loop active_filter listening steps
  socket_loop active_filter listening (client_sent no_object ∷ steps) =
      socket_loop active_filter false steps
  socket_loop active_filter listening (client_sent (object msg) ∷ steps) =
      let same = socket_loop active_filter listening steps in
      let updated =
        filter_updated (get_key "prefix" msg)
        ∷ socket_loop (get_key "prefix" msg) listening steps in
      if not listening then same else if is_filter (get_key "action" msg) then updated else same

  unfoldable pub websocket_stream :
      Bool → Option String → List (SocketStep F) → List (SocketMessage F)
  unfolding socket_loop
  websocket_stream replay prefix steps =
      connected replay ∷ socket_loop (first_filter prefix) true steps
