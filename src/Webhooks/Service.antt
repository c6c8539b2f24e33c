-- ===== src/Webhooks/Service.antt =====
-- webhook_service.py. The HTTP client, `hmac`, `json` and pydantic's `model_dump` are parameters.
use Prim.Native.String
use electa.Base.{
  ℕ, zero, suc, ◌+◌, String, Bool, true, false, not, ◌&&◌, ◌==◌, ◌++◌, Option, none, some, List, [],
  ◌∷◌, if◌then◌else◌, ltb, leb,
}
use electa.Base.Filter.{filter, find?, update_where, any}
use electa.Text.{strip, split, before_star, starts_with, first_chars, decimal}
use electa.Settings.{Settings}
use electa.Model.Tables.{Dict, WebhookEndpoint, WebhookDelivery}
use electa.Model.Db.{Db}
use electa.Model.Schemas.{GovernanceEvent}

-- `pattern == event_type`, or a pattern that ends in a star and begins as the event does
unfoldable pub matches_pattern : String → String → Bool
matches_pattern event_type pattern =
    if pattern == event_type
    then true
    else (elim (before_star pattern) [ none ↦ false | some prefix ↦ starts_with event_type prefix ])

-- `[p.strip() for p in parts if p.strip()]`
unfoldable pub stripped : List String → List String
stripped [] = []
stripped (part ∷ parts) =
    let rest = stripped parts in if strip part == "" then rest else strip part ∷ rest

-- `_matches_filter`
unfoldable pub matches_filter : String → Option String → Bool
matches_filter event_type none = true
matches_filter event_type (some event_filter) =
    if event_filter == ""
    then true
    else any (matches_pattern event_type) (stripped (split "," event_filter))

-- What a POST comes to.
pub data Outcome : Type 0 where
  responded : ℕ → String → Outcome
  timed_out : Outcome
  request_error unexpected_error : String → Outcome

pub record Request : Type 0 where
  pub url : String
  pub content : String
  pub headers : List (String × String)

pub record Libraries (F : Type 0) : Type 0 where
  pub post : Request → Outcome
  pub hmac_sha256_hexdigest : String → String → String
  pub model_dump : GovernanceEvent F → Dict F
  pub json_dumps : Dict F → String

-- What one delivery draws: the id of its row, and the times of the row and of the endpoint.
pub record DeliveryContext : Type 0 where
  pub row_id : String
  pub attempted_at : ℕ
  pub delivered_at : ℕ

unfoldable pub is_success : Outcome → Bool
is_success (responded status text) = leb 200 status && ltb status 300
is_success _ = false

abbrev pub http_status : Outcome → Option ℕ
http_status (responded status text) = some status
http_status _ = none

unfoldable pub error_message : Outcome → Option String
unfolding is_success
error_message (responded status text) =
    if is_success (responded status text)
    then none
    else some (
        String.◌++◌ "HTTP "
          (String.◌++◌ (decimal status) (String.◌++◌ ": " (first_chars 200 text))))
error_message timed_out = some "Request timed out"
error_message (request_error text) = some (String.◌++◌ "Request error: " text)
error_message (unexpected_error text) = some (String.◌++◌ "Unexpected error: " text)

module _ {F : Type 0} where
  abbrev signature_header : Libraries F → Option String → String → List (String × String)
  signature_header libs none body = []
  signature_header libs (some secret) body =
      if secret == ""
      then []
      else ("X-Electa-Signature", String.◌++◌ "sha256=" (libs.hmac_sha256_hexdigest secret body))
        ∷ []

  -- The request of an attempt.
  unfoldable pub request_of : Libraries F → WebhookEndpoint F → GovernanceEvent F → ℕ → Request
  request_of libs endpoint event attempt =
      let body = libs.json_dumps (libs.model_dump event) in
      record {
        url = endpoint.url;
        content = body;
        headers =
            (("Content-Type", "application/json")
              ∷ ("X-Electa-Event", event.event)
              ∷ ("X-Electa-Timestamp", decimal event.timestamp)
              ∷ ("X-Electa-Delivery-Attempt", decimal attempt)
              ∷ [])
            ++ signature_header libs endpoint.secret body;
      }

  abbrev pub delivery_row :
      Libraries F
      → DeliveryContext
      → WebhookEndpoint F
      → GovernanceEvent F
      → ℕ
      → Outcome
      → WebhookDelivery F
  delivery_row libs ctx endpoint event attempt outcome = record {
    id = ctx.row_id;
    endpoint_id = endpoint.id;
    event_type = event.event;
    payload = libs.model_dump event;
    http_status = http_status outcome;
    success = is_success outcome;
    attempt_number = attempt;
    attempted_at = ctx.attempted_at;
    error_message = error_message outcome;
  }

  -- The assignments to the endpoint after an attempt.
  abbrev pub after_attempt : DeliveryContext → Bool → WebhookEndpoint F → WebhookEndpoint F
  after_attempt ctx true endpoint = record endpoint {
    last_delivery_at = some ctx.delivered_at;
    delivery_failures = 0;
  }
  after_attempt ctx false endpoint = record endpoint {
    delivery_failures = endpoint.delivery_failures + 1;
  }

  -- `db.get(WebhookEndpoint, id)`
  abbrev pub get_endpoint : Db F → String → Option (WebhookEndpoint F)
  get_endpoint db id = find? (λ e. e.id == id) db.webhook_endpoints

  -- `_deliver_once`, on the row that was read; the outcome beside the database after the commit.
  unfoldable pub deliver_once :
      Libraries F → DeliveryContext → WebhookEndpoint F → GovernanceEvent F → ℕ → Db F → Bool × Db F
  deliver_once libs ctx endpoint event attempt db =
      let outcome = libs.post (request_of libs endpoint event attempt) in
      (
        is_success outcome,
        record db {
          webhook_deliveries =
              db.webhook_deliveries ++ delivery_row libs ctx endpoint event attempt outcome ∷ [];
          webhook_endpoints =
              update_where (λ e. e.id == endpoint.id) (after_attempt ctx (is_success outcome))
                db.webhook_endpoints;
        },
      )

  -- The attempts that are left for one endpoint, from a number on. `others` is what other tasks do
  -- to the database while this one sleeps between two attempts.
  unfoldable pub attempts :
      Libraries F
      → (ℕ → DeliveryContext)
      → (ℕ → Db F → Db F)
      → String
      → GovernanceEvent F
      → (left : ℕ) → ℕ
      → Db F
      → Db F
  attempts libs contexts others endpoint_id event zero attempt db = db
  attempts libs contexts others endpoint_id event (suc left) attempt db =
      elim (get_endpoint db endpoint_id) [
        | none ↦ db
        | some endpoint ↦
            let tried = deliver_once libs (contexts attempt) endpoint event attempt db in
            let slept : Db F = elim left [ zero ↦ tried.1 | suc _ ↦ others attempt tried.1 ] in
            let retried =
              attempts libs contexts others endpoint_id event left (attempt + 1) slept in
            if not endpoint.is_active then db else if tried.0 then tried.1 else retried
      ]

  abbrev pub matching : GovernanceEvent F → WebhookEndpoint F → Bool
  matching event endpoint = endpoint.is_active && matches_filter event.event endpoint.event_filter

  -- The loop over the endpoints that were selected, and `dispatch_event_to_webhooks`.
  unfoldable pub deliver_to_all :
      Settings F
      → Libraries F
      → (String → ℕ → DeliveryContext)
      → (ℕ → Db F → Db F)
      → GovernanceEvent F
      → List (WebhookEndpoint F)
      → Db F
      → Db F
  deliver_to_all settings libs contexts others event [] db = db
  deliver_to_all settings libs contexts others event (endpoint ∷ endpoints) db =
      deliver_to_all settings libs contexts others event endpoints (
        attempts libs (contexts endpoint.id) others endpoint.id event settings.webhook_max_retries 1
          db)

  unfoldable pub dispatch_event_to_webhooks :
      Settings F
      → Libraries F
      → (String → ℕ → DeliveryContext)
      → (ℕ → Db F → Db F)
      → GovernanceEvent F
      → Db F
      → Db F
  unfolding deliver_to_all
  dispatch_event_to_webhooks settings libs contexts others event db =
      deliver_to_all settings libs contexts others event
        (filter (matching event) db.webhook_endpoints) db
