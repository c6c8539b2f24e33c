-- ===== src/Webhooks/Reads.antt =====
-- The reads of webhooks.py: the endpoints, the deliveries of one, and the test event.
use Prim.Native.String
use electa.Base.{ℕ, String, Bool, not, ◌==◌, ◌&&◌, Option, none, some, List, [], ◌∷◌, map, is_some}
use electa.Base.Filter.{filter}
use electa.Query.{OrderBy, page, given_or_any}
use electa.Http.{Result, returned, raise_if, or_raise, ◌>>=◌, ◌>>◌}
use electa.Model.Tables.{WebhookEndpoint, WebhookDelivery, null, str}
use electa.Model.Db.{Db}
use electa.Model.Schemas.{GovernanceEvent}
use electa.Model.Accounts.{MessageResponse}
use electa.Model.Endpoints.{WebhookResponse, webhook_response}
use electa.Webhooks.Service.{get_endpoint}

-- One entry of the list in the answer of `list_deliveries`.
pub record DeliveryEntry : Type 0 where
  pub id : String
  pub event_type : String
  pub http_status : Option ℕ
  pub success : Bool
  pub attempt_number : ℕ
  pub attempted_at : ℕ
  pub error_message : Option String

module _ {F : Type 0} where
  -- The query names no order.
  unfoldable pub list_webhooks :
      OrderBy → Option String → (skip limit : ℕ) → Db F → List WebhookResponse
  list_webhooks order owner_id skip limit db = map webhook_response (
      page skip limit (
        order.unordered (WebhookEndpoint F) (
          filter (λ e. e.is_active && given_or_any owner_id (some e.owner_id))
            db.webhook_endpoints)))

  -- The endpoint, or 404.
  abbrev pub endpoint_or_404 : String → Db F → Result (WebhookEndpoint F)
  endpoint_or_404 endpoint_id db =
      or_raise (get_endpoint db endpoint_id) 404 "Webhook endpoint not found."

  unfoldable pub get_webhook : String → Db F → Result WebhookResponse
  get_webhook endpoint_id db = do
    ep ← endpoint_or_404 endpoint_id db
    returned (webhook_response ep)

  abbrev pub delivery_entry : WebhookDelivery F → DeliveryEntry
  delivery_entry d = record {
    id = d.id;
    event_type = d.event_type;
    http_status = d.http_status;
    success = d.success;
    attempt_number = d.attempt_number;
    attempted_at = d.attempted_at;
    error_message = d.error_message;
  }

  -- `list_deliveries`: the id beside the entries
  unfoldable pub list_deliveries :
      OrderBy → String → (skip limit : ℕ) → Db F → Result (String × List DeliveryEntry)
  list_deliveries order endpoint_id skip limit db = do
    raise_if (not (is_some (get_endpoint db endpoint_id))) 404 "Webhook endpoint not found."
    returned (
      endpoint_id,
      map delivery_entry (
          page skip limit (
            order.desc (WebhookDelivery F) (λ d. d.attempted_at)
              (filter (λ d. d.endpoint_id == endpoint_id) db.webhook_deliveries))),
    )

  abbrev pub test_event : ℕ → GovernanceEvent F
  test_event now = record {
    event = "governance.test.ping";
    entity = "Electa-Systems";
    proposal_id = "TEST-000";
    actor = some "system";
    vote = none;
    weight = none;
    details = some (("message", str "Test delivery from Electa Systems GEA.") ∷ []);
    timestamp = now;
  }

  -- `send_test_event`: the answer beside the event that a new task dispatches to the endpoints.
  unfoldable pub send_test_event :
      ℕ → String → Db F → Result (MessageResponse F × GovernanceEvent F)
  send_test_event now endpoint_id db = do
    ep ← endpoint_or_404 endpoint_id db
    raise_if (not ep.is_active) 404 "Webhook endpoint not found."
    returned (
      record {
        message = String.◌++◌ "Test event dispatched to '" (String.◌++◌ endpoint_id "'.");
        detail = null;
      },
      test_event now,
    )
