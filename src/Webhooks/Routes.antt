-- ===== src/Webhooks/Routes.antt =====
-- webhooks.py: registering and deactivating an endpoint.
use Prim.Native.String
use electa.Base.{String, true, false, not, ◌==◌, ◌++◌, none, [], ◌∷◌, is_some}
use electa.Base.Filter.{update_where}
use electa.Http.{raise_if}
use electa.Handler.{Handler, reading, modify_db, pure, ◌>>=◌, ◌>>◌}
use electa.Model.Tables.{WebhookEndpoint, null}
use electa.Model.Db.{get_user}
use electa.Model.Accounts.{MessageResponse}
use electa.Model.Endpoints.{WebhookCreate, WebhookResponse, webhook_response}
use electa.Entities.{RowContext}
use electa.Webhooks.Reads.{endpoint_or_404}

module _ {F : Type 0} where
  abbrev pub new_endpoint : RowContext → WebhookCreate F → WebhookEndpoint F
  new_endpoint ctx body = record {
    id = ctx.row_id;
    owner_id = body.owner_id;
    url = body.url;
    secret = body.secret;
    event_filter = body.event_filter;
    is_active = true;
    created_at = ctx.row_time;
    last_delivery_at = none;
    delivery_failures = 0;
    metadata = body.metadata;
  }

  unfoldable pub register_webhook : RowContext → WebhookCreate F → Handler F WebhookResponse
  register_webhook ctx body = do
    reading (λ db. raise_if (not (is_some (get_user db body.owner_id))) 404 "Owner user not found.")
    modify_db
        (λ db. record db { webhook_endpoints = db.webhook_endpoints ++ new_endpoint ctx body ∷ [] })
    pure (webhook_response (new_endpoint ctx body))

  unfoldable pub deactivate_webhook : String → Handler F (MessageResponse F)
  deactivate_webhook endpoint_id = do
    ep ← reading (endpoint_or_404 endpoint_id)
    modify_db (λ db. record db {
      webhook_endpoints =
          update_where (λ e. e.id == ep.id) (λ e. record e { is_active = false })
            db.webhook_endpoints;
    })
    pure (record {
      message = String.◌++◌ "Webhook '" (String.◌++◌ endpoint_id "' deactivated.");
      detail = null;
    })
